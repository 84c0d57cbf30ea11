-- ===== src/Infra/EventBus/Delivery.antt =====
-- Which subscriptions dispatchEvent of pkg/infra/eventbus/eventbus.go calls.
use ai_inference_managed_by.Infra.EventBus.{Event, Subscription, match_filters, dispatch_event}
use ai_inference_managed_by.Base.Map.{Map, keys, lookup, elem-keys}
use ai_inference_managed_by.Base.{
  ◌≡◌, refl, String, [], ◌∷◌, none, some, false, elem, Nodup, arith, eq_iff,
}

-- An event is given to a subscription exactly when the bus holds it and all its filters accept the
-- event, in whatever order the map of subscriptions is ranged over.
pub dispatch_event-elem :
    (e : Event) (subs : Map Subscription) (k : String)
    → Nodup (keys subs)
    → elem (dispatch_event e subs) k
      ≡ (elim (lookup k subs) [ none ↦ false | some sub ↦ match_filters e sub.filters ])
unfolding dispatch_event lookup
dispatch_event-elem e [] k h = refl
dispatch_event-elem e ((id, sub) ∷ subs) k h =
    ground (arith, dispatch_event-elem e subs k h.1, elem-keys k subs, eq_iff id k)
