-- ===== src/Infra/EventBus/Steps.antt =====
-- How the publishers, the workers and Close of pkg/infra/eventbus/eventbus.go interleave: one step for
-- each action between which another goroutine can run. Publish is two steps, the check of `closed`
-- under the mutex and the `select` behind it; a worker receives an event, looks up the subscribers under
-- the mutex, and calls one handler after the other; Close sets `closed`, cancels the context, closes the
-- channel and, when the workers have gone, clears the subscribers. A handler that does not return is one
-- whose `call` step is not taken.
use ai_inference_managed_by.Base.{
  ℕ, suc, ◌<◌, ◌≤◌, ◌≡◌, String, Bool, true, false, List, [], ◌∷◌, ◌++◌, Option, none, some, length,
}
use ai_inference_managed_by.Infra.EventBus.{
  Event, EventFilter, Bus, Config, new_bus, subscribe, unsubscribe, dispatch_event,
}

-- What a worker is at: an event that it has received, and the handlers still to be called once the
-- subscribers have been looked up.
pub record Job : Type 0 where
  pub event : Event
  pub handlers : Option (List String)

-- The bus with the goroutines about it: the publishers that have passed the check, the events whose
-- Publish has returned nil, those that a worker has received, the jobs of the workers that are at one,
-- the calls of handlers that have returned, the events that are dispatched, and whether a publisher
-- has sent on the closed channel, which panics.
pub record System : Type 0 where
  pub bus : Bus
  pub pending : List Event
  pub accepted : List Event
  pub received : List Event
  pub jobs : List Job
  pub calls : List (String × Event)
  pub dispatched : List Event
  pub panicked : Bool

-- The steps of the workers.
pub data Work : System → System → Type 0 where
  -- case event, ok := <-b.eventChan, by a worker that is at no job
  receive :
      (s : System) (e : Event) (rest : List Event)
      → s.bus.queue ≡ e ∷ rest
      → length s.jobs < s.bus.workers
      → Work s (record s {
        bus = record s.bus { queue = rest };
        received = s.received ++ e ∷ [];
        jobs = record { event = e; handlers = none } ∷ s.jobs;
      })
  -- the copy of the subscribers under the mutex, and those whose filters accept the event
  look_up :
      (s : System) (before behind : List Job) (e : Event)
      → s.jobs ≡ before ++ record { event = e; handlers = none } ∷ behind
      → Work s (record s {
        jobs =
            before
            ++ record { event = e; handlers = some (dispatch_event e s.bus.subscribers) } ∷ behind;
      })
  -- sub.handler(event) returns
  call :
      (s : System) (before behind : List Job) (e : Event) (id : String) (ids : List String)
      → s.jobs ≡ before ++ record { event = e; handlers = some (id ∷ ids) } ∷ behind
      → Work s (record s {
        jobs = before ++ record { event = e; handlers = some ids } ∷ behind;
        calls = s.calls ++ (id, e) ∷ [];
      })
  -- dispatchEvent returns
  return :
      (s : System) (before behind : List Job) (e : Event)
      → s.jobs ≡ before ++ record { event = e; handlers = some [] } ∷ behind
      → Work s (record s { jobs = before ++ behind; dispatched = s.dispatched ++ e ∷ [] })

pub data Step : System → System → Type 0 where
  work : {s t : System} → Work s t → Step s t
  subscribes :
      (s : System) (id : String) (handler : Bool) (filters : List EventFilter)
      → Step s (record s { bus = (subscribe id handler filters s.bus).1 })
  unsubscribes : (s : System) (id : String) → Step s (record s { bus = (unsubscribe id s.bus).1 })
  -- Publish: b.closed is read as false
  check :
      (s : System) (e : Event)
      → s.bus.closed ≡ false
      → Step s (record s { pending = e ∷ s.pending })
  -- case b.eventChan <- event
  send :
      (s : System) (before behind : List Event) (e : Event)
      → s.pending ≡ before ++ e ∷ behind
      → s.bus.channel_closed ≡ false
      → length s.bus.queue < s.bus.buffer_size
      → Step s (record s {
        pending = before ++ behind;
        bus = record s.bus { queue = s.bus.queue ++ e ∷ [] };
        accepted = s.accepted ++ e ∷ [];
      })
  -- case <-b.ctx.Done()
  give_up :
      (s : System) (before behind : List Event) (e : Event)
      → s.pending ≡ before ++ e ∷ behind
      → s.bus.cancelled ≡ true
      → Step s (record s { pending = before ++ behind })
  -- the send case of the select is ready on a closed channel, and panics
  send_closed :
      (s : System) (before behind : List Event) (e : Event)
      → s.pending ≡ before ++ e ∷ behind
      → s.bus.channel_closed ≡ true
      → Step s (record s { pending = before ++ behind; panicked = true })
  -- a worker at no job finds the channel closed and empty
  leave_closed :
      (s : System) (n : ℕ)
      → s.bus.queue ≡ []
      → s.bus.channel_closed ≡ true
      → s.bus.workers ≡ suc n
      → length s.jobs ≤ n
      → Step s (record s { bus = record s.bus { workers = n } })
  -- a worker at no job finds the context done and the channel empty
  leave_done :
      (s : System) (n : ℕ)
      → s.bus.queue ≡ []
      → s.bus.cancelled ≡ true
      → s.bus.workers ≡ suc n
      → length s.jobs ≤ n
      → Step s (record s { bus = record s.bus { workers = n } })
  close :
      (s : System)
      → s.bus.closed ≡ false
      → Step s (record s { bus = record s.bus { closed = true } })
  cancel :
      (s : System)
      → s.bus.closed ≡ true
      → Step s (record s { bus = record s.bus { cancelled = true } })
  close_channel :
      (s : System)
      → s.bus.cancelled ≡ true
      → Step s (record s { bus = record s.bus { channel_closed = true } })
  finish :
      (s : System)
      → s.bus.channel_closed ≡ true
      → s.bus.workers ≡ 0
      → Step s (record s { bus = record s.bus { subscribers = [] } })

pub data Reach (s : System) : System → Type 0 where
  here : Reach s s
  next : {t u : System} → Reach s t → Step t u → Reach s u

pub Reach-trans : {s t u : System} → Reach s t → Reach t u → Reach s u
Reach-trans r here = r
Reach-trans r (next r' st) = next (Reach-trans r r') st

abbrev pub start : Config → System
start c = record {
  bus = new_bus c;
  pending = [];
  accepted = [];
  received = [];
  jobs = [];
  calls = [];
  dispatched = [];
  panicked = false;
}
