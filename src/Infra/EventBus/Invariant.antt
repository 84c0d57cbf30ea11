-- ===== src/Infra/EventBus/Invariant.antt =====
-- What holds of the bus (pkg/infra/eventbus/eventbus.go) in every state that it can come to.
use ai_inference_managed_by.Base.Map.{Map, is_some, lookup, insert, delete}
use mathlib.Core.List.{Perm, perm_middle}
use mathlib.Core.List.Perm
use ai_inference_managed_by.Base.{
  ◌∙◌, inr, inl, Bool-cases, some, Bool, String, List, ap, subst, sym, append-nil, ◌≤◌, ◌≡◌, refl,
  true, false, [], ◌∷◌, ◌++◌, length, length-append, append_assoc, arith,
}
use ai_inference_managed_by.Infra.EventBus.{
  Event, EventFilter, Bus, Subscription, Config, subscribe, unsubscribe,
}
use ai_inference_managed_by.Infra.EventBus.Steps.{
  System, Job, Work, receive, look_up, call, return, work, subscribes, unsubscribes, Step, Reach,
  here, next, start, check, send, give_up, send_closed, leave_closed, leave_done, close, cancel,
  close_channel, finish,
}

abbrev pub events : List Job → List Event
events [] = []
events (j ∷ js) = j.event ∷ events js

events-middle :
    (before behind : List Job) (j : Job)
    → Perm (events (before ++ j ∷ behind)) (j.event ∷ events (before ++ behind))
events-middle [] behind j = Perm.rfl
events-middle (i ∷ before) behind j =
    Perm.trans (Perm.cons i.event (events-middle before behind j)) (Perm.swap _ _ _)

pub events-replace :
    (before behind : List Job) (i j : Job)
    → i.event ≡ j.event
    → events (before ++ i ∷ behind) ≡ events (before ++ j ∷ behind)
events-replace [] behind i j e = ap (λ x. x ∷ events behind) e
events-replace (k ∷ before) behind i j e = ap (◌∷◌ k.event) (events-replace before behind i j e)

-- An event at the end of one list, in front of the other.
move : (xs ys : List Event) (e : Event) → Perm (xs ++ e ∷ ys) ((xs ++ e ∷ []) ++ ys)
move xs ys e = subst (Perm (xs ++ e ∷ ys)) (sym (append_assoc xs (e ∷ []) ys)) Perm.rfl

snoc : (xs ys : List Event) (e : Event) → Perm xs ys → Perm (xs ++ e ∷ []) (e ∷ ys)
snoc xs ys e p =
    Perm.trans (subst (λ z. Perm (xs ++ e ∷ []) (e ∷ z)) (append-nil xs) (perm_middle xs []))
      (Perm.cons e p)

pub record IsSound (c : Config) (s : System) : Type 0 where
  -- what was accepted has been received, in this order, or is in the channel
  pub conserved : s.accepted ≡ s.received ++ s.bus.queue
  -- what was received is dispatched, in any order, or some worker is at it
  pub shared : Perm s.received (s.dispatched ++ events s.jobs)
  pub hands : length s.jobs ≤ s.bus.workers
  pub size : s.bus.buffer_size ≡ c.buffer_size
  pub bounded : length s.bus.queue ≤ c.buffer_size
  pub crew : s.bus.workers ≤ c.worker_count
  -- Close acts in this order
  pub cancelled_closed : s.bus.cancelled ≡ true → s.bus.closed ≡ true
  pub channel_cancelled : s.bus.channel_closed ≡ true → s.bus.cancelled ≡ true
  -- before it does, every worker runs and no publisher panics
  pub all_work : s.bus.cancelled ≡ false → s.bus.workers ≡ c.worker_count
  pub no_panic : s.bus.channel_closed ≡ false → s.panicked ≡ false

subscribe-subscribers :
    (id : String) (handler : Bool) (filters : List EventFilter) (b : Bus)
    → (m : Map Subscription) × ((subscribe id handler filters b).1 ≡ record b { subscribers = m })
unfolding subscribe
subscribe-subscribers id false filters b = (b.subscribers, refl)
subscribe-subscribers id true filters b = elim (Bool-cases b.closed) [
  | inl closed ↦ (b.subscribers, rw closed refl)
  | inr free ↦ (insert id (record { id = id; filters = filters }) b.subscribers, rw free refl)
]

unsubscribe-subscribers :
    (id : String) (b : Bus)
    → (m : Map Subscription) × ((unsubscribe id b).1 ≡ record b { subscribers = m })
unfolding unsubscribe
unsubscribe-subscribers id b = elim (Bool-cases (is_some (lookup id b.subscribers))) [
  | inl there ↦ (delete id b.subscribers, rw there refl)
  | inr missing ↦ (b.subscribers, rw missing refl)
]

module _ (c : Config) where
  start-IsSound : IsSound c (start c)
  start-IsSound = record {
    conserved = refl;
    shared = Perm.rfl;
    hands = omega arith;
    size = refl;
    bounded = omega arith;
    crew = omega arith;
    cancelled_closed = λ h. cc;
    channel_cancelled = λ h. cc;
    all_work = λ h. refl;
    no_panic = λ h. refl;
  }

  -- A job that goes on, or is done.
  job_changed :
      (s : System) (before behind : List Job) (i j : Job) (calls : List (String × Event))
      → s.jobs ≡ before ++ i ∷ behind
      → i.event ≡ j.event
      → IsSound c s
      → IsSound c (record s { jobs = before ++ j ∷ behind; calls = calls })
  job_changed s before behind i j calls at same v = record {
    conserved = v.conserved;
    shared =
        subst (λ ev. Perm s.received (s.dispatched ++ ev))
          (ap events at ∙ events-replace before behind i j same) v.shared;
    hands =
        subst (λ n. n ≤ s.bus.workers)
          (ap length at
            ∙ ground (arith, length-append before (i ∷ behind), length-append before (j ∷ behind)))
          v.hands;
    size = v.size;
    bounded = v.bounded;
    crew = v.crew;
    cancelled_closed = v.cancelled_closed;
    channel_cancelled = v.channel_cancelled;
    all_work = v.all_work;
    no_panic = v.no_panic;
  }

  Work-IsSound : {s t : System} → Work s t → IsSound c s → IsSound c t
  Work-IsSound (receive s e rest q free) v = record {
    conserved = ground (arith, v.conserved, append_assoc s.received (e ∷ []) rest);
    shared =
        Perm.trans (snoc s.received _ e v.shared)
          (Perm.symm (perm_middle s.dispatched (events s.jobs)));
    hands = free;
    size = v.size;
    bounded = ground (arith, v.bounded);
    crew = v.crew;
    cancelled_closed = v.cancelled_closed;
    channel_cancelled = v.channel_cancelled;
    all_work = v.all_work;
    no_panic = v.no_panic;
  }
  Work-IsSound (look_up s before behind e at) v = job_changed s before behind _ _ s.calls at refl v
  Work-IsSound (call s before behind e id ids at) v =
      job_changed s before behind _ _ (s.calls ++ (id, e) ∷ []) at refl v
  Work-IsSound (return s before behind e at) v = record {
    conserved = v.conserved;
    shared = Perm.trans (subst (λ js. Perm s.received (s.dispatched ++ events js)) at v.shared) (
        Perm.trans
          (Perm.append_left s.dispatched
            (events-middle before behind (record { event = e; handlers = some [] })))
          (move s.dispatched (events (before ++ behind)) e));
    hands = ground (
      arith,
      v.hands,
      ap length at,
      length-append before behind,
      length-append before (record { event = e; handlers = some [] } ∷ behind),
    );
    size = v.size;
    bounded = v.bounded;
    crew = v.crew;
    cancelled_closed = v.cancelled_closed;
    channel_cancelled = v.channel_cancelled;
    all_work = v.all_work;
    no_panic = v.no_panic;
  }

  subscribers_changed :
      (s : System) (m : Map Subscription)
      → IsSound c s
      → IsSound c (record s { bus = record s.bus { subscribers = m } })
  subscribers_changed s m v = record {
    conserved = v.conserved;
    shared = v.shared;
    hands = v.hands;
    size = v.size;
    bounded = v.bounded;
    crew = v.crew;
    cancelled_closed = v.cancelled_closed;
    channel_cancelled = v.channel_cancelled;
    all_work = v.all_work;
    no_panic = v.no_panic;
  }

  Step-IsSound : {s t : System} → Step s t → IsSound c s → IsSound c t
  Step-IsSound (work w) v = Work-IsSound w v
  Step-IsSound (subscribes s id handler filters) v =
      let (m, same) = subscribe-subscribers id handler filters s.bus in
      subst (λ b. IsSound c (record s { bus = b })) (sym same) (subscribers_changed s m v)
  Step-IsSound (unsubscribes s id) v =
      let (m, same) = unsubscribe-subscribers id s.bus in
      subst (λ b. IsSound c (record s { bus = b })) (sym same) (subscribers_changed s m v)
  Step-IsSound (check s e h) v = ground arith
  Step-IsSound (send s before behind e p h room) v =
      ground
        (arith, append_assoc s.received s.bus.queue (e ∷ []), length-append s.bus.queue (e ∷ []))
  Step-IsSound (give_up s before behind e p h) v = ground arith
  Step-IsSound (send_closed s before behind e p h) v = ground arith
  Step-IsSound (leave_closed s n q h w free) v = ground arith
  Step-IsSound (leave_done s n q h w free) v = ground arith
  Step-IsSound (close s h) v = ground arith
  Step-IsSound (cancel s h) v = ground arith
  Step-IsSound (close_channel s h) v = ground arith
  Step-IsSound (finish s h w) v = ground arith

  -- In every state that a new bus can come to, whatever publishers, subscribers, workers and Close do:
  -- the accepted events are those that workers have received, in order, and then those in the channel,
  -- which never holds more than its size; the received events are, each as often and in some order,
  -- those that are dispatched and those that a worker is at, no more of them than workers; and until
  -- Close cancels the context all workers run, and until it closes the channel no publisher panics.
  pub Reach-IsSound : {s : System} → Reach (start c) s → IsSound c s
  Reach-IsSound here = start-IsSound
  Reach-IsSound (next r st) = Step-IsSound st (Reach-IsSound r)
