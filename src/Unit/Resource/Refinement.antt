-- ===== src/Unit/Resource/Refinement.antt =====
-- The slot store (pkg/unit/resource/store.go) against a specification of it: a partial function from
-- ids to slots.
use ai_inference_managed_by.Base.{
  String, ◌≡◌, refl, ap, ◌∙◌, List, [], ◌∷◌, Option, none, some, ◌==◌, if◌then◌else◌, arith,
}
use ai_inference_managed_by.Base.Map.{lookup, is_some, lookup-insert, lookup-delete}
use ai_inference_managed_by.Unit.Resource.{
  ResourceSlot, SlotStore, SlotError, slot_not_found, slot_already_exists, create_slot, delete_slot,
  update_slot,
}

pub data SlotOp : Type 0 where
  create update : ResourceSlot → SlotOp
  remove : String → SlotOp

-- What the store promises: an operation on a function from ids to slots.
abbrev pub Slots : Type 0
Slots = String → Option ResourceSlot

abbrev pub put : ResourceSlot → Slots → Slots
put slot f k = if slot.id == k then some slot else f k

abbrev pub promise : SlotOp → Slots → Option SlotError × Slots
promise (create slot) f =
    if is_some (f slot.id) then (some slot_already_exists, f) else (none, put slot f)
promise (update slot) f =
    if is_some (f slot.id) then (none, put slot f) else (some slot_not_found, f)
promise (remove id) f =
    if is_some (f id) then (none, λ k. if id == k then none else f k) else (some slot_not_found, f)

-- The operations one after the other, with the error of each.
abbrev pub promises : List SlotOp → Slots → List (Option SlotError) × Slots
promises [] f = ([], f)
promises (op ∷ ops) f =
    let r = promise op f in let rest = promises ops r.1 in (r.0 ∷ rest.0, rest.1)

abbrev pub apply_op : SlotOp → SlotStore → Option SlotError × SlotStore
apply_op (create slot) = create_slot slot
apply_op (update slot) = update_slot slot
apply_op (remove id) = delete_slot id

abbrev pub apply_ops : List SlotOp → SlotStore → List (Option SlotError) × SlotStore
apply_ops [] s = ([], s)
apply_ops (op ∷ ops) s =
    let r = apply_op op s in let rest = apply_ops ops r.1 in (r.0 ∷ rest.0, rest.1)

-- What the store holds, as a function.
abbrev pub view : SlotStore → Slots
view s k = lookup k s.slots

module _ (s : SlotStore) where
  -- The store and the specification give the same error, and agree on each id.
  promise-view_error : (op : SlotOp) → (promise op (view s)).0 ≡ (apply_op op s).0
  unfolding create_slot update_slot delete_slot
  promise-view_error (create slot) = ground arith
  promise-view_error (update slot) = ground arith
  promise-view_error (remove id) = ground arith

  promise-view_slots :
      (op : SlotOp) (k : String) → (promise op (view s)).1 k ≡ view (apply_op op s).1 k
  unfolding create_slot update_slot delete_slot
  promise-view_slots (create slot) k = ground (arith, lookup-insert slot.id k slot s.slots)
  promise-view_slots (update slot) k = ground (arith, lookup-insert slot.id k slot s.slots)
  promise-view_slots (remove id) k = ground (arith, lookup-delete id k s.slots)

  promise-view : (op : SlotOp) → promise op (view s) ≡ ((apply_op op s).0, view (apply_op op s).1)
  promise-view op = λ i. (promise-view_error op i, λ k. promise-view_slots op k i)

-- Any sequence of operations on any store gives the errors, and leaves the slots, that the
-- specification says.
pub apply_ops-refines :
    (ops : List SlotOp) (s : SlotStore)
    → promises ops (view s) ≡ ((apply_ops ops s).0, view (apply_ops ops s).1)
apply_ops-refines [] s = refl
apply_ops-refines (op ∷ ops) s =
    ap (λ r. (r.0 ∷ (promises ops r.1).0, (promises ops r.1).1)) (promise-view s op)
    ∙ ap (λ r. ((apply_op op s).0 ∷ r.0, r.1)) (apply_ops-refines ops (apply_op op s).1)
