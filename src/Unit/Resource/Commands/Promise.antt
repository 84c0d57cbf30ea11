-- ===== src/Unit/Resource/Commands/Promise.antt =====
-- What the resource commands (pkg/unit/resource/commands.go) do to the store, and what a refused one
-- leaves.
use ai_inference_managed_by.Base.{
  String, Bool, true, false, ◌<◌, ◌≡◌, ◌⊎◌, inl, inr, refl, sym, subst, Option, none, some, ◌==◌,
  ◌&&◌, not, eqb, if◌then◌else◌, Bool-cases, eq_of_==, Option-cases, arith, eq_refl,
}
use ai_inference_managed_by.Base.Int.{ℤ}
use ai_inference_managed_by.Base.Map.{insert, delete, lookup, is_some, lookup-insert, lookup-delete}
use ai_inference_managed_by.Base.Result.{ok}
use ai_inference_managed_by.Workflow.Types.{Fields, text, object, field, end}
use ai_inference_managed_by.Workflow.Resolver.{get_field}
use ai_inference_managed_by.Unit.Errors.{GoError, wrapped}
use ai_inference_managed_by.Unit.Execution.{
  Ending, done, refused, refuse, as_text, or_else, get_string, success,
}
use ai_inference_managed_by.Unit.Resource.{
  ResourceSlot, SlotStore, create_slot, get_slot, update_slot, is_valid_slot_type,
  is_valid_slot_status,
}
use ai_inference_managed_by.Unit.Resource.Commands.{
  Provider, place_slot, requested, allocate_slot, change_slot, change_by_id,
  err_invalid_slot_status, to_uint64, cannot_allocate, write_slot, err_slot_already_exists,
}

-- A slot that the commands let into the store.
abbrev pub IsSlot : String → ResourceSlot → Type 0
IsSlot id slot =
    (slot.id ≡ id)
    × (is_valid_slot_type slot.type ≡ true)
    × (is_valid_slot_status slot.status ≡ true)

abbrev pub IsValid : SlotStore → Type 0
IsValid s = (k : String) (slot : ResourceSlot) → lookup k s.slots ≡ some slot → IsSlot k slot

pub IsValid-insert :
    (id : String) (slot : ResourceSlot) (s : SlotStore)
    → IsSlot id slot
    → IsValid s
    → IsValid (write_slot id slot s)
IsValid-insert id slot s good v k found h = elim (Bool-cases (id == k)) [
  | inl same ↦
      let eq : slot ≡ found = ground (arith, lookup-insert id k slot s.slots, h, same) in
      subst (IsSlot k) eq (subst (λ j. IsSlot j slot) (eq_of_== id k same) good)
  | inr other ↦ v k found (ground (arith, lookup-insert id k slot s.slots, h, other))
]

pub IsValid-delete :
    (id : String) (s : SlotStore) → IsValid s → IsValid (record s { slots = delete id s.slots })
IsValid-delete id s v k found h = v k found (ground (arith, lookup-delete id k s.slots, h))

-- How AllocateCommand ends: it refuses and the store is as it was, or a slot is added under the id that
-- was drawn, which was free. The slot is well formed, has memory, and the provider, if there is one, has
-- said that it can be allocated.
abbrev pub Allocated : Option Provider → String → SlotStore → Ending × SlotStore → Type 0
Allocated provider fresh s r =
    ((e : GoError) × (e' : GoError) × (r ≡ (refused e e', s)))
    ⊎ ((slot : ResourceSlot) × (r
          ≡ (done (object (field "slot_id" (text fresh) end)), write_slot fresh slot s))
        × (is_some (lookup fresh s.slots) ≡ false)
        × IsSlot fresh slot
        × (0 < slot.memory_limit)
        × (cannot_allocate provider slot.memory_limit slot.priority ≡ none))

check-Allocated :
    (provider : Option Provider) (fresh : String) (s : SlotStore) (b : Bool) (e : GoError)
    (rest : Ending × SlotStore)
    → (b ≡ false → Allocated provider fresh s rest)
    → Allocated provider fresh s (if b then (refuse e, s) else rest)
check-Allocated provider fresh s true e rest h = inl (e, e, refl)
check-Allocated provider fresh s false e rest h = h refl

place_slot-Allocated :
    (provider : Option Provider) (slot : ResourceSlot) (s : SlotStore)
    → IsSlot slot.id slot
    → 0 < slot.memory_limit
    → Allocated provider slot.id s (place_slot provider slot s)
unfolding place_slot create_slot
place_slot-Allocated provider slot s good sized =
    elim (Option-cases (cannot_allocate provider slot.memory_limit slot.priority)) [
      | inr ((x, y), e) ↦ inl (x, y, ground (arith, e))
      | inl can ↦ elim (Bool-cases (is_some (lookup slot.id s.slots))) [
        | inl e ↦ inl (
          err_slot_already_exists,
          wrapped "create slot" err_slot_already_exists,
          ground (arith, can, e),
        )
        | inr free ↦ inr (slot, ground (arith, can, free), free, good, sized, can)
      ]
    ]

pub allocate_slot-Allocated :
    (provider : Option Provider) (fresh : String) (now : ℤ) (m : Fields) (s : SlotStore)
    → Allocated provider fresh s (allocate_slot provider fresh now m s)
unfolding allocate_slot
allocate_slot-Allocated provider fresh now m s =
    let slot = requested fresh now m in
    let check = check-Allocated provider fresh s in
    check (slot.name == "") _ _ (λ named. check (not (is_valid_slot_type slot.type)) _ _ (λ typed.
      check (eqb slot.memory_limit 0) _ _ (λ sized.
        place_slot-Allocated provider slot s (refl, ground (arith, typed), refl)
          (ground (arith, sized)))))

-- What UpdateSlotCommand reads of its input for a slot.
abbrev pub resized : Fields → ResourceSlot → ResourceSlot
resized m slot = record slot {
  memory_limit = or_else slot.memory_limit (to_uint64 m "memory_limit");
}

abbrev pub changed : ℤ → Fields → ResourceSlot → ResourceSlot
changed now m slot = record slot {
  memory_limit = or_else slot.memory_limit (to_uint64 m "memory_limit");
  status = or_else slot.status (as_text (get_field "status" m));
  updated_at = now;
}

abbrev pub bad_status : Fields → ResourceSlot → Bool
bad_status m slot =
    let status = as_text (get_field "status" m) in
    is_some status && not (is_valid_slot_status (or_else slot.status status))

module _ (now : ℤ) (m : Fields) (slot : ResourceSlot) (s : SlotStore) where
  pub change_slot-bad :
      bad_status m slot ≡ true
      → change_slot slot.id now m slot s
        ≡ (refuse err_invalid_slot_status, write_slot slot.id (resized m slot) s)
  unfolding change_slot
  change_slot-bad h = ground (arith, h)

  pub change_slot-good :
      bad_status m slot ≡ false
      → let again = write_slot slot.id (changed now m slot) in
        change_slot slot.id now m slot s
        ≡ (done success, again (again (write_slot slot.id (resized m slot) s)))
  unfolding change_slot update_slot
  change_slot-good h = ground (
    arith,
    h,
    lookup-insert slot.id slot.id (changed now m slot)
        (write_slot slot.id (resized m slot) s).slots,
    eq_refl slot.id,
  )

  -- How UpdateSlotCommand ends on a slot, and what is then read.
  abbrev pub Changed : Ending × SlotStore → Type 0
  Changed r =
      (r.0 ≡ (if bad_status m slot then refuse err_invalid_slot_status else done success))
      × (get_slot slot.id r.1
          ≡ ok (if bad_status m slot then resized m slot else changed now m slot))
      × ((k : String) → (slot.id == k) ≡ false → get_slot k r.1 ≡ get_slot k s)

  change_slot-Changed : Changed (change_slot slot.id now m slot s)
  unfolding get_slot
  change_slot-Changed = elim (Bool-cases (bad_status m slot)) [
    | inl h ↦ subst Changed (sym (change_slot-bad h)) (
      ground (arith, h),
      ground (arith, h, lookup-insert slot.id slot.id (resized m slot) s.slots, eq_refl slot.id),
      λ k ne. ground (arith, lookup-insert slot.id k (resized m slot) s.slots, ne),
    )
    | inr h ↦ subst Changed (sym (change_slot-good h)) (
      ground (arith, h),
      ground (
        arith,
        h,
        lookup-insert slot.id slot.id (changed now m slot)
            (insert slot.id (changed now m slot) (insert slot.id (resized m slot) s.slots)),
        eq_refl slot.id,
      ),
      λ k ne. ground (
        arith,
        ne,
        lookup-insert slot.id k (changed now m slot)
            (insert slot.id (changed now m slot) (insert slot.id (resized m slot) s.slots)),
        lookup-insert slot.id k (changed now m slot) (insert slot.id (resized m slot) s.slots),
        lookup-insert slot.id k (resized m slot) s.slots,
      ),
    )
  ]

  pub change_by_id-eq :
      (id : String)
      → (id == "") ≡ false
      → get_string m "slot_id" ≡ id
      → lookup id s.slots ≡ some slot
      → change_by_id now m s ≡ change_slot id now m slot s
  unfolding change_by_id get_slot
  change_by_id-eq id ne named h = ground (arith, ne, named, h)

  -- UpdateSlotCommand on a slot that the store has under its own id. The memory limit of the input is
  -- stored whether the command succeeds or not: with a status that is not valid it refuses, and the
  -- limit is changed all the same. Otherwise the status and the time are stored too. The other slots
  -- are as they were.
  pub change_by_id-outcome :
      (slot.id == "") ≡ false
      → get_string m "slot_id" ≡ slot.id
      → lookup slot.id s.slots ≡ some slot
      → Changed (change_by_id now m s)
  change_by_id-outcome ne named h =
      subst Changed (sym (change_by_id-eq slot.id ne named h)) change_slot-Changed
