-- ===== src/Infra/RateLimit.antt =====
-- The token bucket limiter of pkg/infra/ratelimit/ratelimit.go. The mutex makes each call one step.
-- Times count nanoseconds of the monotonic clock. `refill` stands for int64(elapsed * rate), a
-- computation on floats, as a function of the elapsed time; its sum with a bucket's tokens is taken
-- to stay below 2^63.
pub mod Bounds
use ai_inference_managed_by.Base.Result.{ok, err, Result}
use ai_inference_managed_by.Base.{
  none, some, ltb, [], ℕ, suc, ◌+◌, ◌-◌, String, Bool, true, false, ◌==◌, if◌then◌else◌,
}
use ai_inference_managed_by.Base.Map.{Map, lookup, insert, delete}
use ai_inference_managed_by.Base.Int.{ℤ, is_nonpos, pos_part}

pub record Bucket : Type 0 where
  pub tokens : ℕ
  pub last_update : ℕ

pub record TokenBucketLimiter : Type 0 where
  pub capacity : ℕ
  pub buckets : Map Bucket

-- New: a capacity that is not positive becomes 1.
unfoldable pub new_limiter : ℤ → TokenBucketLimiter
new_limiter capacity = record {
  capacity = if is_nonpos capacity then 1 else pos_part capacity;
  buckets = [];
}

abbrev pub min_ℕ : ℕ → ℕ → ℕ
min_ℕ a b = if ltb a b then a else b

pub data KeyError : Type 0 where
  empty_key : KeyError

module _ (refill : ℕ → ℕ) where
  unfoldable pub allow : String → ℕ → TokenBucketLimiter → Result KeyError Bool × TokenBucketLimiter
  allow key now l = if key == "" then (err empty_key, l) else elim (lookup key l.buckets) [
    | none ↦
        let b : Bucket = record { tokens = l.capacity - 1; last_update = now } in
        (ok true, record l { buckets = insert key b l.buckets })
    | some b ↦
        let n = min_ℕ (b.tokens + refill (now - b.last_update)) l.capacity in
        if ltb 0 n
        then (
          ok true,
          record l {
            buckets = insert key (record { tokens = n - 1; last_update = now }) l.buckets;
          },
        )
        else (
          ok false,
          record l { buckets = insert key (record { tokens = n; last_update = now }) l.buckets },
        )
  ]

unfoldable pub reset : String → TokenBucketLimiter → TokenBucketLimiter
reset key l = record l { buckets = delete key l.buckets }
