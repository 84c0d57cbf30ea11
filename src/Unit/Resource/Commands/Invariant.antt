-- ===== src/Unit/Resource/Commands/Invariant.antt =====
-- What the resource commands (pkg/unit/resource/commands.go) keep true of the store.
use ai_inference_managed_by.Base.{
  String, false, ◌≡◌, inl, inr, refl, sym, subst, Option, none, some, ◌==◌, if◌then◌else◌,
  Bool-cases, Option-cases, arith, if-holds,
}
use ai_inference_managed_by.Base.Int.{ℤ}
use ai_inference_managed_by.Base.Map.{lookup}
use ai_inference_managed_by.Workflow.Types.{Value, Fields, scalar, text, array, object}
use ai_inference_managed_by.Unit.Execution.{Ending, get_string}
use ai_inference_managed_by.Unit.Resource.{
  ResourceSlot, SlotStore, SlotError, delete_slot, get_slot,
}
use ai_inference_managed_by.Unit.Resource.Commands.{
  Provider, allocate_slot, release_slot, change_slot, change_by_id, execute_allocate,
  execute_release, execute_update_slot, with_slots,
}
use ai_inference_managed_by.Unit.Resource.Commands.Promise.{
  IsSlot, IsValid, IsValid-insert, IsValid-delete, allocate_slot-Allocated, resized, changed,
  bad_status, change_slot-bad, change_slot-good, change_by_id-eq,
}

allocate_slot-IsValid :
    (provider : Option Provider) (fresh : String) (now : ℤ) (m : Fields) (s : SlotStore)
    → IsValid s
    → IsValid (allocate_slot provider fresh now m s).1
allocate_slot-IsValid provider fresh now m s v =
    elim (allocate_slot-Allocated provider fresh now m s) [
      | inl (e, e', eq) ↦ subst (λ r. IsValid r.1) (sym eq) v
      | inr (slot, eq, free, good, sized, can) ↦
          subst (λ r. IsValid r.1) (sym eq) (IsValid-insert fresh slot s good v)
    ]

delete_slot-IsValid : (id : String) (s : SlotStore) → IsValid s → IsValid (delete_slot id s).1
unfolding delete_slot
delete_slot-IsValid id s v =
    if-holds (λ (r : Option SlotError × SlotStore). IsValid r.1) _ _ _ (IsValid-delete id s v) v

release_slot-store :
    (m : Fields) (s : SlotStore)
    → (release_slot m s).1
      ≡ (if get_string m "slot_id" == "" then s else (delete_slot (get_string m "slot_id") s).1)
unfolding release_slot
release_slot-store m s = elim (Option-cases (delete_slot (get_string m "slot_id") s).0) [
  | inl e ↦ ground (arith, e)
  | inr (x, e) ↦ ground (arith, e)
]

release_slot-IsValid : (m : Fields) (s : SlotStore) → IsValid s → IsValid (release_slot m s).1
release_slot-IsValid m s v =
    subst IsValid (sym (release_slot-store m s))
      (if-holds IsValid _ _ _ v (delete_slot-IsValid (get_string m "slot_id") s v))

changed-IsSlot :
    (now : ℤ) (m : Fields) (id : String) (slot : ResourceSlot)
    → IsSlot id slot
    → bad_status m slot ≡ false
    → IsSlot id (changed now m slot)
changed-IsSlot now m id slot good h = (good.0, good.1, ground (arith, h, good.2))

change_slot-IsValid :
    (now : ℤ) (m : Fields) (slot : ResourceSlot) (s : SlotStore)
    → IsSlot slot.id slot
    → IsValid s
    → IsValid (change_slot slot.id now m slot s).1
change_slot-IsValid now m slot s good v =
    let v1 = IsValid-insert slot.id (resized m slot) s good v in
    elim (Bool-cases (bad_status m slot)) [
      | inl h ↦ subst (λ r. IsValid r.1) (sym (change_slot-bad now m slot s h)) v1
      | inr h ↦
          let better = changed-IsSlot now m slot.id slot good h in
          subst (λ r. IsValid r.1) (sym (change_slot-good now m slot s h))
            (IsValid-insert slot.id (changed now m slot) _ better
              (IsValid-insert slot.id (changed now m slot) _ better v1))
    ]

change_by_id-IsValid :
    (now : ℤ) (m : Fields) (s : SlotStore) → IsValid s → IsValid (change_by_id now m s).1
unfolding change_by_id get_slot
change_by_id-IsValid now m s v = elim (Bool-cases (get_string m "slot_id" == "")) [
  | inl e ↦ subst IsValid (ground (arith, e)) v
  | inr ne ↦ elim (Option-cases (lookup (get_string m "slot_id") s.slots)) [
    | inl e ↦ subst IsValid (ground (arith, ne, e)) v
    | inr (slot, e) ↦
        let good = v _ slot e in
        subst (λ r. IsValid r.1) (sym (change_by_id-eq now m slot s _ ne refl e))
          (subst (λ j. IsValid (change_slot j now m slot s).1) good.0
            (change_slot-IsValid now m slot s (refl, good.1, good.2) v))
  ]
]

-- Of a command's store, which may be nil.
abbrev pub AllValid : Option SlotStore → Type 0
AllValid none = Unit
AllValid (some s) = IsValid s

with_slots-AllValid :
    (body : Fields → SlotStore → Ending × SlotStore) (input : Value) (store : Option SlotStore)
    → ((m : Fields) (s : SlotStore) → IsValid s → IsValid (body m s).1)
    → AllValid store
    → AllValid (with_slots body input store).1
with_slots-AllValid body input none h v = v
with_slots-AllValid body (scalar x) (some s) h v = v
with_slots-AllValid body (text t) (some s) h v = v
with_slots-AllValid body (array vs) (some s) h v = v
with_slots-AllValid body (object m) (some s) h v = h m s v

-- Whatever the input, the clock, the id that is drawn and the provider, every command keeps each slot
-- under its own id, with a type and a status that the package knows.
pub execute-AllValid :
    (provider : Option Provider) (fresh : String) (now : ℤ) (input : Value)
    (store : Option SlotStore)
    → AllValid store
    → AllValid (execute_allocate provider fresh now input store).1
      × AllValid (execute_release input store).1
      × AllValid (execute_update_slot now input store).1
unfolding execute_allocate execute_release execute_update_slot
execute-AllValid provider fresh now input store v = (
  with_slots-AllValid _ input store (λ m s h. allocate_slot-IsValid provider fresh now m s h) v,
  with_slots-AllValid _ input store (λ m s h. release_slot-IsValid m s h) v,
  with_slots-AllValid _ input store (λ m s h. change_by_id-IsValid now m s h) v,
)
