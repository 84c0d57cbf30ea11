-- ===== src/Unit/Resource/Laws.antt =====
-- What the slot store (pkg/unit/resource/store.go) gives back after it is changed.
use ai_inference_managed_by.Base.{◌≡◌, if◌then◌else◌, arith, eq_iff, ◌==◌, not, String}
use ai_inference_managed_by.Base.Map.{lookup-insert, lookup-delete, lookup, is_some}
use ai_inference_managed_by.Base.Result.{ok, err}
use ai_inference_managed_by.Unit.Resource.{
  ResourceSlot, SlotStore, slot_not_found, create_slot, update_slot, delete_slot, get_slot,
}

-- What `get_slot` gives for every id after a slot is created, updated or deleted, whether the slot
-- was there or not. A refused call changes nothing.
pub get_slot-after :
    (slot : ResourceSlot) (id k : String) (s : SlotStore)
    → (get_slot k (create_slot slot s).1 ≡ (
        if is_some (lookup slot.id s.slots)
        then get_slot k s
        else if slot.id == k
        then ok slot
        else get_slot k s))
      × (get_slot k (update_slot slot s).1 ≡ (
          if not (is_some (lookup slot.id s.slots))
          then get_slot k s
          else if slot.id == k
          then ok slot
          else get_slot k s))
      × (get_slot k (delete_slot id s).1 ≡ (if id == k then err slot_not_found else get_slot k s))
unfolding get_slot create_slot update_slot delete_slot
get_slot-after slot id k s = (
  ground (arith, lookup-insert slot.id k slot s.slots),
  ground (arith, lookup-insert slot.id k slot s.slots),
  ground (arith, lookup-delete id k s.slots, eq_iff id k),
)
