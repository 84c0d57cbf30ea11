-- ===== src/Unit/Resource.antt =====
-- Resource slots: pkg/unit/resource/types.go and the in-memory store of
-- pkg/unit/resource/store.go. The mutex makes each method one step.
pub mod Laws
pub mod Commands
pub mod Refinement
use ai_inference_managed_by.Base.Result.{ok, err, Result}
use ai_inference_managed_by.Base.{
  ◌||◌, ◌&&◌, not, length, elem, Bool, ℕ, String, List, [], ◌∷◌, Option, none, some, ◌==◌,
  if◌then◌else◌,
}
use ai_inference_managed_by.Base.Map.{insert, delete, lookup, values, is_some, Map}
use ai_inference_managed_by.Base.Int.{ℤ}

-- SlotType and SlotStatus are Go strings; a filter uses the empty one. `gpu_fraction`, a float, is left
-- out.
pub record ResourceSlot : Type 0 where
  pub id : String
  pub name : String
  pub type : String
  pub memory_limit : ℕ
  pub priority : ℤ
  pub status : String
  pub created_at : ℤ
  pub updated_at : ℤ

pub record SlotFilter : Type 0 where
  pub slot_id : String
  pub type : String

pub data SlotError : Type 0 where
  slot_not_found slot_already_exists : SlotError

pub record SlotStore : Type 0 where
  pub slots : Map ResourceSlot

abbrev pub new_slot_store : SlotStore
new_slot_store = record { slots = [] }

unfoldable pub create_slot : ResourceSlot → SlotStore → Option SlotError × SlotStore
create_slot slot s =
    if is_some (lookup slot.id s.slots)
    then (some slot_already_exists, s)
    else (none, record s { slots = insert slot.id slot s.slots })

unfoldable pub get_slot : String → SlotStore → Result SlotError ResourceSlot
get_slot id s = elim (lookup id s.slots) [ none ↦ err slot_not_found | some slot ↦ ok slot ]

-- The two `continue` guards of the loop of ListSlots.
abbrev pub is_passed_over : SlotFilter → ResourceSlot → Bool
is_passed_over f slot =
    (not (f.type == "") && not (slot.type == f.type))
    || (not (f.slot_id == "") && not (slot.id == f.slot_id))

unfoldable pub select_slots : SlotFilter → List ResourceSlot → List ResourceSlot
select_slots f [] = []
select_slots f (slot ∷ more) =
    let rest = select_slots f more in if is_passed_over f slot then rest else slot ∷ rest

unfoldable pub list_slots : SlotFilter → SlotStore → List ResourceSlot × ℕ
unfolding select_slots
list_slots f s = let result = select_slots f (values s.slots) in (result, length result)

unfoldable pub delete_slot : String → SlotStore → Option SlotError × SlotStore
delete_slot id s =
    if is_some (lookup id s.slots)
    then (none, record s { slots = delete id s.slots })
    else (some slot_not_found, s)

unfoldable pub update_slot : ResourceSlot → SlotStore → Option SlotError × SlotStore
update_slot slot s =
    if is_some (lookup slot.id s.slots)
    then (none, record s { slots = insert slot.id slot s.slots })
    else (some slot_not_found, s)

abbrev pub valid_slot_types : List String
valid_slot_types = "inference_native" ∷ "docker_container" ∷ "system_service" ∷ []

abbrev pub valid_slot_statuses : List String
valid_slot_statuses = "active" ∷ "idle" ∷ "preempted" ∷ []

abbrev pub is_valid_slot_type : String → Bool
is_valid_slot_type t = elem valid_slot_types t

abbrev pub is_valid_slot_status : String → Bool
is_valid_slot_status s = elem valid_slot_statuses s
