-- ===== src/Infra/RateLimit/Bounds.antt =====
-- How many calls the limiter (pkg/infra/ratelimit/ratelimit.go) admits.
use ai_inference_managed_by.Base.{
  eq_refl, inr, ap, sym, subst, inl, Bool-cases, ltb, ℕ, suc, ◌+◌, ◌-◌, ◌≤◌, ◌<◌, ◌≡◌, String, Bool,
  true, false, ◌==◌, if◌then◌else◌, List, [], ◌∷◌, Option, none, some, arith, refl,
}
use ai_inference_managed_by.Base.Int.{pos, negsuc}
use ai_inference_managed_by.Infra.RateLimit.{
  ℤ, Bucket, TokenBucketLimiter, new_limiter, min_ℕ, allow, reset, KeyError, empty_key,
}
use ai_inference_managed_by.Base.Map.{lookup, insert, lookup-insert, lookup-delete}
use ai_inference_managed_by.Base.Result.{Result, ok, err}

-- Every bucket has fewer tokens than the capacity.
pub record IsBounded (l : TokenBucketLimiter) : Type 0 where
  pub capacity_positive : 1 ≤ l.capacity
  pub below : (k : String) (b : Bucket) → lookup k l.buckets ≡ some b → b.tokens < l.capacity

module _ (refill : ℕ → ℕ) where
  pub data Call : Type 0 where
    ask : String → ℕ → Call
    forget : String → Call

  unfoldable pub after_all : List Call → TokenBucketLimiter → TokenBucketLimiter
  after_all [] l = l
  after_all (ask key now ∷ calls) l = after_all calls (allow refill key now l).1
  after_all (forget key ∷ calls) l = after_all calls (reset key l)

  -- The bucket of a key after a call with that key.
  unfoldable pub next : TokenBucketLimiter → Option Bucket → ℕ → Bool × Bucket
  next l none now = (true, record { tokens = l.capacity - 1; last_update = now })
  next l (some b) now =
      let n = min_ℕ (b.tokens + refill (now - b.last_update)) l.capacity in
      if ltb 0 n
      then (true, record { tokens = n - 1; last_update = now })
      else (false, record { tokens = n; last_update = now })

  allow-empty :
      (key : String) (now : ℕ) (l : TokenBucketLimiter)
      → (key == "") ≡ true
      → allow refill key now l ≡ (err empty_key, l)
  unfolding allow
  allow-empty key now l h = rw h refl

  allow-next :
      (key : String) (now : ℕ) (l : TokenBucketLimiter)
      → (key == "") ≡ false
      → let r = next l (lookup key l.buckets) now in
        allow refill key now l ≡ (ok r.0, record l { buckets = insert key r.1 l.buckets })
  unfolding allow next
  allow-next key now l h = ground (arith, h)

  next-below :
      (l : TokenBucketLimiter) (o : Option Bucket) (now : ℕ)
      → 1 ≤ l.capacity
      → (next l o now).1.tokens < l.capacity
  unfolding next
  next-below l none now h = ground (arith, h)
  next-below l (some b) now h = ground (arith, h)

  allow-IsBounded :
      (key : String) (now : ℕ) (l : TokenBucketLimiter)
      → IsBounded l
      → IsBounded (allow refill key now l).1
  allow-IsBounded key now l v = elim (Bool-cases (key == "")) [
    | inl e ↦ subst IsBounded (sym (ap (λ r. r.1) (allow-empty key now l e))) v
    | inr e ↦
        let b = next l (lookup key l.buckets) now in
        subst IsBounded (sym (ap (λ r. r.1) (allow-next key now l e))) (record {
          capacity_positive = v.capacity_positive;
          below = λ k c h.
              put-below b.1 k c l key (next-below l (lookup key l.buckets) now v.capacity_positive)
                (v.below k c) h;
        })
  ]
    where
      put-below :
          (b : Bucket) (k : String) (c : Bucket) (l : TokenBucketLimiter) (key : String)
          → b.tokens < l.capacity
          → (lookup k l.buckets ≡ some c → c.tokens < l.capacity)
          → lookup k (insert key b l.buckets) ≡ some c
          → c.tokens < l.capacity
      put-below b k c l key hb hc h = ground (arith, lookup-insert key k b l.buckets, hb, hc, h)

  reset-IsBounded : (key : String) (l : TokenBucketLimiter) → IsBounded l → IsBounded (reset key l)
  unfolding reset
  reset-IsBounded key l v = record {
    capacity_positive = v.capacity_positive;
    below = λ k c h. ground (arith, lookup-delete key k l.buckets, v.below k c);
  }

  new_limiter-IsBounded : (capacity : ℤ) → IsBounded (new_limiter capacity)
  unfolding new_limiter lookup
  new_limiter-IsBounded (pos n) = record {
    capacity_positive = ground arith;
    below = λ k c h. absurd (ground (arith, h));
  }
  new_limiter-IsBounded (negsuc n) = record {
    capacity_positive = omega arith;
    below = λ k c h. absurd (ground (arith, h));
  }

  after_all-IsBounded :
      (calls : List Call) (l : TokenBucketLimiter) → IsBounded l → IsBounded (after_all calls l)
  unfolding after_all
  after_all-IsBounded [] l v = v
  after_all-IsBounded (ask key now ∷ calls) l v =
      after_all-IsBounded calls (allow refill key now l).1 (allow-IsBounded key now l v)
  after_all-IsBounded (forget key ∷ calls) l v =
      after_all-IsBounded calls (reset key l) (reset-IsBounded key l v)

  -- Whatever calls of `allow` and `reset` are made on a new limiter, of any capacity asked for, every
  -- bucket has fewer tokens than the limiter's capacity.
  pub after_all-new_limiter-IsBounded :
      (capacity : ℤ) (calls : List Call) → IsBounded (after_all calls (new_limiter capacity))
  after_all-new_limiter-IsBounded capacity calls =
      after_all-IsBounded calls (new_limiter capacity) (new_limiter-IsBounded capacity)

  abbrev pub counted : Result KeyError Bool → ℕ → ℕ
  counted (ok true) n = suc n
  counted (ok false) n = n
  counted (err e) n = n

  -- How many of the calls of `allow` with a key, made at these times, are admitted.
  unfoldable pub admitted : String → List ℕ → TokenBucketLimiter → ℕ
  admitted key [] l = 0
  admitted key (now ∷ times) l =
      let r = allow refill key now l in counted r.0 (admitted key times r.1)

  -- What flows into a bucket over these times.
  abbrev pub refilled : ℕ → List ℕ → ℕ
  refilled last [] = 0
  refilled last (now ∷ times) = refill (now - last) + refilled now times

  next-spends :
      (l : TokenBucketLimiter) (b : Bucket) (now : ℕ)
      → let r = next l (some b) now in
        (if r.0 then suc (r.1.tokens) else r.1.tokens) ≤ b.tokens + refill (now - b.last_update)
        × r.1.last_update ≡ now
  unfolding next
  next-spends l b now = (ground arith, ground arith)

  allow-some :
      (key : String) (now : ℕ) (l : TokenBucketLimiter) (b : Bucket)
      → (key == "") ≡ false
      → lookup key l.buckets ≡ some b
      → allow refill key now l ≡ (
        ok (next l (some b) now).0,
        record l { buckets = insert key (next l (some b) now).1 l.buckets },
      )
  allow-some key now l b h e =
      subst
        (λ o.
          allow refill key now l
          ≡ (ok (next l o now).0, record l { buckets = insert key (next l o now).1 l.buckets }))
        e (allow-next key now l h)

  -- A key's bucket admits no more calls than it has tokens at first and is refilled with, as long as
  -- it is not reset.
  pub admitted-bounded :
      (key : String) (times : List ℕ) (l : TokenBucketLimiter) (b : Bucket)
      → (key == "") ≡ false
      → lookup key l.buckets ≡ some b
      → admitted key times l ≤ b.tokens + refilled b.last_update times
  unfolding admitted
  admitted-bounded key [] l b h e = omega arith
  admitted-bounded key (now ∷ times) l b h e =
      let r = next l (some b) now in
      let l' : TokenBucketLimiter = record l { buckets = insert key r.1 l.buckets } in
      let rest =
        admitted-bounded key times l' r.1 h
          (ground (arith, lookup-insert key key r.1 l.buckets, eq_refl key)) in
      let rest' =
        subst (λ t. admitted key times l' ≤ r.1.tokens + refilled t times) (next-spends l b now).1
          rest in
      subst
        (λ q.
          counted q.0 (admitted key times q.1) ≤ b.tokens + refilled b.last_update (now ∷ times))
        (sym (allow-some key now l b h e)) (ground (arith, rest', (next-spends l b now).0))
