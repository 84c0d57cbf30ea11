-- ===== src/Infra/EventBus.antt =====
-- InMemoryEventBus of pkg/infra/eventbus/eventbus.go: its data, its subscriptions and the dispatch of
-- one event. How publishers, workers and Close interleave is in Steps. An id that Subscribe draws is an
-- argument; a handler is known by its subscription's id.
pub mod Steps
pub mod Invariant
pub mod Races
pub mod Delivery
use ai_inference_managed_by.Base.{
  ℕ, zero, suc, String, Bool, true, false, not, ◌||◌, ◌&&◌, List, [], ◌∷◌, Option, none, some, ◌==◌,
  if◌then◌else◌, elem,
}
use ai_inference_managed_by.Base.Int.{ℤ, is_nonpos, pos_part}
use ai_inference_managed_by.Base.Result.{Result, ok, err}
use ai_inference_managed_by.Base.Map.{Map, is_some, lookup, insert, delete}

pub record Event : Type 0 where
  pub type : String
  pub domain : String

abbrev pub EventFilter : Type 0
EventFilter = Event → Bool

pub record Subscription : Type 0 where
  pub id : String
  pub filters : List EventFilter

-- The fields of the bus that its methods read and write. `workers` counts those that still run.
pub record Bus : Type 0 where
  pub subscribers : Map Subscription
  pub queue : List Event
  pub buffer_size : ℕ
  pub workers : ℕ
  pub closed : Bool
  pub cancelled : Bool
  pub channel_closed : Bool

pub record Config : Type 0 where
  pub buffer_size : ℕ
  pub worker_count : ℕ

abbrev pub default_config : Config
default_config = record { buffer_size = 1000; worker_count = 4 }

-- WithBufferSize and WithWorkerCount: a size that is not positive changes nothing.
abbrev pub with_buffer_size : ℤ → Config → Config
with_buffer_size n c = if is_nonpos n then c else record c { buffer_size = pos_part n }

abbrev pub with_worker_count : ℤ → Config → Config
with_worker_count n c = if is_nonpos n then c else record c { worker_count = pos_part n }

abbrev pub new_bus : Config → Bus
new_bus c = record {
  subscribers = [];
  queue = [];
  buffer_size = c.buffer_size;
  workers = c.worker_count;
  closed = false;
  cancelled = false;
  channel_closed = false;
}

pub data BusError : Type 0 where
  nil_event nil_handler bus_closed : BusError
  subscription_not_found : String → BusError

-- Subscribe; `false` stands for a nil handler.
unfoldable pub subscribe : String → Bool → List EventFilter → Bus → Result BusError String × Bus
subscribe id false filters b = (err nil_handler, b)
subscribe id true filters b = if b.closed then (err bus_closed, b) else (
  ok id,
  record b { subscribers = insert id (record { id = id; filters = filters }) b.subscribers },
)

unfoldable pub unsubscribe : String → Bus → Option BusError × Bus
unsubscribe id b =
    if is_some (lookup id b.subscribers)
    then (none, record b { subscribers = delete id b.subscribers })
    else (some (subscription_not_found id), b)

-- matchFilters; a subscription without filters takes every event.
unfoldable pub match_filters : Event → List EventFilter → Bool
match_filters e [] = true
match_filters e (f ∷ fs) = let rest = match_filters e fs in if not (f e) then false else rest

-- dispatchEvent: the subscriptions whose handlers are called, in the order in which the map is ranged
-- over.
unfoldable pub dispatch_event : Event → Map Subscription → List String
unfolding match_filters
dispatch_event e [] = []
dispatch_event e ((id, sub) ∷ subs) =
    let rest = dispatch_event e subs in
    if not (match_filters e sub.filters) then rest else id ∷ rest

abbrev pub filter_by_type : String → EventFilter
filter_by_type t e = e.type == t

abbrev pub filter_by_domain : String → EventFilter
filter_by_domain d e = e.domain == d

abbrev pub filter_by_types : List String → EventFilter
filter_by_types ts e = elem ts e.type

abbrev pub filter_by_domains : List String → EventFilter
filter_by_domains ds e = elem ds e.domain
