-- ===== src/Infra/Examples.antt =====
-- A limiter, a cache and a bus on which the theorems about pkg/infra are applied.
use ai_inference_managed_by.Base.{
  ℕ, List, [], ◌∷◌, ◌+◌, ◌≤◌, ◌<◌, ◌≡◌, refl, true, false, none, some, arith,
}
use mathlib.Core.List.{Perm}
use ai_inference_managed_by.Infra.Cache.{Cache, set, size}
use ai_inference_managed_by.Infra.Cache.Laws.{size-set_expired}
use ai_inference_managed_by.Infra.EventBus.{
  Event, Subscription, default_config, new_bus, filter_by_domain,
}
use ai_inference_managed_by.Infra.EventBus.Steps.{
  System, Reach, here, next, check, send, start, Work, receive,
}
use ai_inference_managed_by.Infra.EventBus.Invariant.{IsSound, Reach-IsSound}
use ai_inference_managed_by.Infra.EventBus.Races.{
  publish_may_panic, publish_may_lose, accepted_gets_dispatched, weight, Works, idle, more,
}
use ai_inference_managed_by.Base.Int.{pos}
use ai_inference_managed_by.Base.Map.{lookup}
use ai_inference_managed_by.Infra.RateLimit.{Bucket, TokenBucketLimiter}
use ai_inference_managed_by.Infra.RateLimit.Bounds.{
  Call, ask, forget, admitted, refilled, admitted-bounded,
}

-- One token for each unit of time.
abbrev steady : ℕ → ℕ
steady elapsed = elapsed

abbrev calls : List (Call steady)
calls = ask "k" 0 ∷ ask "k" 1 ∷ forget "k" ∷ ask "" 2 ∷ []

abbrev bucket : Bucket
bucket = record { tokens = 1; last_update = 0 }

abbrev limiter : TokenBucketLimiter
limiter = record { capacity = 2; buckets = ("k", bucket) ∷ [] }

admitted-bounded_example :
    admitted steady "k" (0 ∷ 0 ∷ 3 ∷ []) limiter ≤ 1 + refilled steady 0 (0 ∷ 0 ∷ 3 ∷ [])
unfolding lookup
admitted-bounded_example = admitted-bounded steady "k" (0 ∷ 0 ∷ 3 ∷ []) limiter bucket refl refl

abbrev full_cache : Cache ℕ
full_cache = record {
  items = ("old", record { value = 1; expiration = some 5 }) ∷ [];
  opts = record { default_ttl = pos 0; max_size = pos 1 };
}

-- At time 10 the only item has expired.
size-set_expired_example : size (set 10 "k" 2 (pos 3) full_cache) ≡ 2
unfolding lookup
size-set_expired_example = size-set_expired 10 "k" 2 (pos 3) full_cache (refl, tt) refl

abbrev event : Event
event = record { type = "model.created"; domain = "model" }

abbrev models : Subscription
models = record { id = "sub-1"; filters = filter_by_domain "model" ∷ [] }

has_workers : 0 < default_config.worker_count
has_workers = omega arith

has_room : 0 < default_config.buffer_size
has_room = omega arith

-- One event is in the channel.
abbrev sent : System
sent = record {
  bus = record (new_bus default_config) { queue = event ∷ [] };
  pending = [];
  accepted = event ∷ [];
  received = [];
  jobs = [];
  calls = [];
  dispatched = [];
  panicked = false;
}

sent-Reach : Reach (start default_config) sent
sent-Reach =
    next (next here (check (start default_config) event refl))
      (send (record (start default_config) { pending = event ∷ [] }) [] [] event refl refl has_room)

Reach-IsSound_example : IsSound default_config sent
Reach-IsSound_example = Reach-IsSound default_config sent-Reach

-- A worker has received it.
abbrev at_work : System
at_work = record sent {
  bus = new_bus default_config;
  received = event ∷ [];
  jobs = record { event = event; handlers = none } ∷ [];
}

has_received : Works sent 1 at_work
has_received = more idle (receive sent event [] refl has_workers)

accepted_gets_dispatched_example :
    (1 ≤ weight sent)
    × (((u : System) → ¬ Work at_work u)
        → (at_work.bus.queue ≡ []) × (at_work.jobs ≡ []) × Perm (event ∷ []) at_work.dispatched)
accepted_gets_dispatched_example =
    accepted_gets_dispatched default_config sent-Reach has_workers has_received

publish_may_panic_example : (s : System) × Reach (start default_config) s × (s.panicked ≡ true)
publish_may_panic_example = publish_may_panic default_config event

publish_may_lose_example :
    (s : System) × Reach (start default_config) s
    × (s.bus.channel_closed ≡ true)
    × (s.bus.workers ≡ 0)
    × (s.accepted ≡ event ∷ [])
    × (s.dispatched ≡ [])
publish_may_lose_example = publish_may_lose default_config event has_room
