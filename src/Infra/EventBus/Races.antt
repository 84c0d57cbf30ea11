-- ===== src/Infra/EventBus/Races.antt =====
-- What Close of pkg/infra/eventbus/eventbus.go does to a Publish that runs beside it, and what the
-- workers do before it.
use mathlib.Core.List.{Perm}
use ai_inference_managed_by.Base.Map.{Map}
use ai_inference_managed_by.Base.{
  ◌≤◌, ◌+◌, ap, ◌∙◌, String, Option, none, some, arith, length, ℕ, zero, suc, ◌<◌, ◌≡◌, refl, sym,
  subst, true, List, [], ◌∷◌, ◌++◌, append-nil,
}
use ai_inference_managed_by.Infra.EventBus.{Event, Config, Subscription, dispatch_event}
use ai_inference_managed_by.Infra.EventBus.Steps.{
  System, Reach, Reach-trans, here, next, start, check, send, send_closed, leave_done, close,
  cancel, close_channel, finish, Work, Job, receive, look_up, call, return, work,
}
use ai_inference_managed_by.Infra.EventBus.Invariant.{Reach-IsSound, events}

-- With any configuration, a publisher of any event can be made to panic: Close closes the channel
-- between the publisher's check and its send.
pub publish_may_panic :
    (c : Config) (e : Event) → (s : System) × Reach (start c) s × (s.panicked ≡ true)
publish_may_panic c e = (
  _,
  next
      (next (next (next (next here (check _ e refl)) (close _ refl)) (cancel _ refl))
        (close_channel _ refl))
      (send_closed _ [] [] e refl refl),
  refl,
)

abbrev without_workers : System → System
without_workers s = record s { bus = record s.bus { workers = 0 } }

all_leave :
    (n : ℕ) (s : System)
    → s.bus.queue ≡ []
    → s.bus.cancelled ≡ true
    → s.bus.workers ≡ n
    → s.jobs ≡ []
    → Reach s (without_workers s)
all_leave zero s q h w free =
    subst (λ n. Reach s (record s { bus = record s.bus { workers = n } })) w here
all_leave (suc n) s q h w free =
    Reach-trans (next here (leave_done s n q h w (omega (arith, ap length free))))
      (all_leave n (record s { bus = record s.bus { workers = n } }) q h refl free)

-- With any configuration that has room in the channel, an event can be lost: Publish accepts it after
-- the last worker has left, Close then ends, and no worker is there to take it.
pub publish_may_lose :
    (c : Config) (e : Event)
    → 0 < c.buffer_size
    → (s : System) × Reach (start c) s
      × (s.bus.channel_closed ≡ true)
      × (s.bus.workers ≡ 0)
      × (s.accepted ≡ e ∷ [])
      × (s.dispatched ≡ [])
publish_may_lose c e room =
    let r1 = next (next (next here (check _ e refl)) (close _ refl)) (cancel _ refl) in
    let r2 = Reach-trans r1 (all_leave c.worker_count _ refl refl refl refl) in
    (
      _,
      next (next (next r2 (send _ [] [] e refl refl room)) (close_channel _ refl))
          (finish _ refl refl),
      refl,
      refl,
      refl,
      refl,
    )

-- How far the workers still have to go: for an event in the channel its receipt, its look-up, its
-- calls and its end.
abbrev job_weight : ℕ → Option (List String) → ℕ
job_weight n none = 2 + n
job_weight n (some ids) = 1 + length ids

abbrev jobs_weight : ℕ → List Job → ℕ
jobs_weight n [] = 0
jobs_weight n (j ∷ js) = job_weight n j.handlers + jobs_weight n js

abbrev queue_weight : ℕ → List Event → ℕ
queue_weight n [] = 0
queue_weight n (e ∷ es) = (3 + n) + queue_weight n es

abbrev pub weight : System → ℕ
weight s = let n = length s.bus.subscribers in queue_weight n s.bus.queue + jobs_weight n s.jobs

jobs_weight-middle :
    (n : ℕ) (before behind : List Job) (j : Job)
    → jobs_weight n (before ++ j ∷ behind)
      ≡ job_weight n j.handlers + jobs_weight n (before ++ behind)
jobs_weight-middle n [] behind j = refl
jobs_weight-middle n (i ∷ before) behind j = omega (arith, jobs_weight-middle n before behind j)

dispatch_event-length :
    (e : Event) (subs : Map Subscription) → length (dispatch_event e subs) ≤ length subs
unfolding dispatch_event
dispatch_event-length e [] = omega arith
dispatch_event-length e ((id, sub) ∷ subs) = ground (arith, dispatch_event-length e subs)

-- Steps of the workers, counted.
pub data Works (s : System) : ℕ → System → Type 0 where
  idle : Works s 0 s
  more : {n : ℕ} {t u : System} → Works s n t → Work t u → Works s (suc n) u

Work-weight : {s t : System} → Work s t → suc (weight t) ≤ weight s
Work-weight (receive s e rest q free) =
    omega (arith, ap (queue_weight (length s.bus.subscribers)) q)
Work-weight (look_up s before behind e at) = omega (
  arith,
  ap (jobs_weight (length s.bus.subscribers)) at,
  jobs_weight-middle (length s.bus.subscribers) before behind
      (record { event = e; handlers = none }),
  jobs_weight-middle (length s.bus.subscribers) before behind
      (record { event = e; handlers = some (dispatch_event e s.bus.subscribers) }),
  dispatch_event-length e s.bus.subscribers,
)
Work-weight (call s before behind e id ids at) = omega (
  arith,
  ap (jobs_weight (length s.bus.subscribers)) at,
  jobs_weight-middle (length s.bus.subscribers) before behind
      (record { event = e; handlers = some (id ∷ ids) }),
  jobs_weight-middle (length s.bus.subscribers) before behind
      (record { event = e; handlers = some ids }),
)
Work-weight (return s before behind e at) = omega (
  arith,
  ap (jobs_weight (length s.bus.subscribers)) at,
  jobs_weight-middle (length s.bus.subscribers) before behind
      (record { event = e; handlers = some [] }),
)

Works-weight : {s t : System} {n : ℕ} → Works s n t → n + weight t ≤ weight s
Works-weight idle = omega arith
Works-weight (more r w) = omega (arith, Works-weight r, Work-weight w)

-- Nothing that the workers do accepts an event or lets one of them go.
Work-keeps : {s t : System} → Work s t → (t.accepted ≡ s.accepted) × (t.bus.workers ≡ s.bus.workers)
Work-keeps (receive s e rest q free) = (refl, refl)
Work-keeps (look_up s before behind e at) = (refl, refl)
Work-keeps (call s before behind e id ids at) = (refl, refl)
Work-keeps (return s before behind e at) = (refl, refl)

Works-keeps :
    {s t : System} {n : ℕ}
    → Works s n t
    → (t.accepted ≡ s.accepted) × (t.bus.workers ≡ s.bus.workers)
Works-keeps idle = (refl, refl)
Works-keeps (more r w) = let (a, n) = Works-keeps r in let (b, m) = Work-keeps w in (b ∙ a, m ∙ n)

Works-Reach : {s t u : System} {n : ℕ} → Reach s t → Works t n u → Reach s u
Works-Reach r idle = r
Works-Reach r (more ws w) = next (Works-Reach r ws) (work w)

-- A worker that is at a job has a step.
busy_works :
    (t : System) (e : Event) (handlers : Option (List String)) (js : List Job)
    → t.jobs ≡ record { event = e; handlers = handlers } ∷ js
    → (u : System) × Work t u
busy_works t e none js at = (_, look_up t [] js e at)
busy_works t e (some []) js at = (_, return t [] js e at)
busy_works t e (some (id ∷ ids)) js at = (_, call t [] js e id ids at)

-- A state in which no worker has a step, but one is left.
at_rest :
    (t : System)
    → 0 < t.bus.workers
    → ((u : System) → ¬ Work t u)
    → (t.bus.queue ≡ []) × (t.jobs ≡ [])
at_rest t crew stuck = (empty t.bus.queue refl, free t.jobs refl)
  where
    free : (js : List Job) → t.jobs ≡ js → t.jobs ≡ []
    free [] at = at
    free (j ∷ js) at = let (u, w) = busy_works t j.event j.handlers js at in absurd (stuck u w)

    empty : (es : List Event) → t.bus.queue ≡ es → t.bus.queue ≡ []
    empty [] q = q
    empty (e ∷ es) q =
        absurd (stuck _ (receive t e es q (omega (arith, ap length (free t.jobs refl)))))

-- From every state that a new bus can come to with a worker left, the workers alone, whichever takes
-- the next step, take only so many steps; and where they can take no more, the channel is empty, no
-- worker is at an event, and the events dispatched are those that Publish has accepted, each as
-- often, in some order. A handler that does not return is a step that is not taken.
pub accepted_gets_dispatched :
    (c : Config) {s t : System} {n : ℕ}
    → Reach (start c) s
    → 0 < s.bus.workers
    → Works s n t
    → (n ≤ weight s)
      × (((u : System) → ¬ Work t u)
          → (t.bus.queue ≡ []) × (t.jobs ≡ []) × Perm s.accepted t.dispatched)
accepted_gets_dispatched c {s} {t} r crew ws =
    let (accepted, workers) = Works-keeps ws in
    let v = Reach-IsSound c (Works-Reach r ws) in
    (
      omega (arith, Works-weight ws),
      λ stuck.
          let (q, js) = at_rest t (subst (λ k. 0 < k) (sym workers) crew) stuck in
          let all : t.received ≡ s.accepted =
            sym (append-nil t.received)
            ∙ ap (λ es. t.received ++ es) (sym q)
            ∙ sym v.conserved
            ∙ accepted in
          (
            q,
            js,
            subst (λ es. Perm es t.dispatched) all
                (subst (Perm t.received)
                  (ap (λ x. t.dispatched ++ events x) js ∙ append-nil t.dispatched) v.shared),
          ),
    )
