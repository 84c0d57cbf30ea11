-- ===== src/Unit/Resource/Commands.antt =====
-- The commands of pkg/unit/resource/commands.go. The state is the store that the command holds, `none`
-- when it is nil; the clock and the slot id that is drawn are arguments. A float of the input
-- (gpu_fraction) is left out.
--
-- GetSlot gives the store's own slot, so UpdateSlotCommand writes to the store as it goes: here it
-- carries the store along with each write.
pub mod Promise
pub mod Invariant
use Prim.Native.String.{◌++◌ as append}
use ai_inference_managed_by.Base.{
  String, Bool, ℕ, Option, none, some, ◌==◌, ◌&&◌, not, eqb, if◌then◌else◌,
}
use ai_inference_managed_by.Base.Int.{ℤ, pos}
use ai_inference_managed_by.Base.Map.{insert, is_some}
use ai_inference_managed_by.Base.Result.{Result, ok, err}
use ai_inference_managed_by.Workflow.Types.{Value, Fields, text, object, field, end}
use ai_inference_managed_by.Workflow.Resolver.{get_field}
use ai_inference_managed_by.Unit.Errors.{GoError, plain, wrapped, unit_error, new_error}
use ai_inference_managed_by.Unit.Errors.Codes.{
  err_code_resource_slot_not_found, err_code_invalid_input, err_code_resource_insufficient,
  err_code_internal_error, err_code_already_exists,
}
use ai_inference_managed_by.Unit.Execution.{
  Ending, done, refused, refuse, refuse_in, input_map, as_text, as_int, non_negative, or_else,
  get_string, success,
}
use ai_inference_managed_by.Unit.Resource.{
  ResourceSlot, SlotStore, SlotError, slot_not_found, slot_already_exists, create_slot, get_slot,
  delete_slot, update_slot, is_valid_slot_type, is_valid_slot_status,
}

-- A provider that can tell whether memory can be allocated at a priority: it answers with an error,
-- or whether it can and a reason.
abbrev pub Provider : Type 0
Provider = ℕ → ℤ → Result GoError (Bool × String)

abbrev pub err_slot_not_found : GoError
err_slot_not_found = unit_error (new_error err_code_resource_slot_not_found "slot not found")

abbrev pub err_invalid_slot_id : GoError
err_invalid_slot_id = unit_error (new_error err_code_invalid_input "invalid slot id")

abbrev pub err_insufficient_memory : GoError
err_insufficient_memory =
    unit_error (new_error err_code_resource_insufficient "insufficient memory")

abbrev pub err_invalid_memory_value : GoError
err_invalid_memory_value = unit_error (new_error err_code_invalid_input "invalid memory value")

abbrev pub err_provider_not_set : GoError
err_provider_not_set = unit_error (new_error err_code_internal_error "resource provider not set")

abbrev pub err_slot_already_exists : GoError
err_slot_already_exists = unit_error (new_error err_code_already_exists "slot already exists")

abbrev pub err_invalid_slot_type : GoError
err_invalid_slot_type = unit_error (new_error err_code_invalid_input "invalid slot type")

abbrev pub err_invalid_slot_status : GoError
err_invalid_slot_status = unit_error (new_error err_code_invalid_input "invalid slot status")

abbrev pub slot_error : SlotError → GoError
slot_error slot_not_found = err_slot_not_found
slot_error slot_already_exists = err_slot_already_exists

abbrev invalid_input_type : Ending
invalid_input_type = refuse (plain "invalid input type: expected map[string]any")

-- toUint64(m[key])
abbrev pub to_uint64 : Fields → String → Option ℕ
to_uint64 m key = non_negative (as_int (get_field key m))

-- toInt(m[key])
abbrev pub to_int : Fields → String → Option ℤ
to_int m key = as_int (get_field key m)

-- The answer of the provider, turned into the error that is published and the one that is returned, if
-- it stands in the way.
abbrev pub cannot_allocate : Option Provider → ℕ → ℤ → Option (GoError × GoError)
cannot_allocate none memory priority = none
cannot_allocate (some provider) memory priority = elim (provider memory priority) [
  | err e ↦ some (e, wrapped "check allocation" e)
  | ok answer ↦
      let reason = if answer.1 == "" then "insufficient resources" else answer.1 in
      let e = wrapped reason err_insufficient_memory in if not answer.0 then some (e, e) else none
]

-- The rest of AllocateCommand.Execute when the input is in order: the provider is asked, and the slot is
-- created.
unfoldable pub place_slot : Option Provider → ResourceSlot → SlotStore → Ending × SlotStore
unfolding create_slot
place_slot provider slot s = elim (cannot_allocate provider slot.memory_limit slot.priority) [
  | some (e, wrapping) ↦ (refused e wrapping, s)
  | none ↦
      let r = create_slot slot s in
      elim (r.0) [
        | some e ↦ (refuse_in "create slot" (slot_error e), r.1)
        | none ↦ (done (object (field "slot_id" (text slot.id) end)), r.1)
      ]
]

-- The slot that AllocateCommand.Execute makes of its input.
abbrev pub requested : String → ℤ → Fields → ResourceSlot
requested fresh now m = record {
  id = fresh;
  name = get_string m "name";
  type = get_string m "type";
  memory_limit = or_else 0 (to_uint64 m "memory_bytes");
  priority = or_else (pos 5) (to_int m "priority");
  status = "active";
  created_at = now;
  updated_at = now;
}

-- AllocateCommand.Execute, from the point where the input is a map.
unfoldable pub allocate_slot :
    Option Provider → String → ℤ → Fields → SlotStore → Ending × SlotStore
unfolding place_slot
allocate_slot provider fresh now m s =
    let slot = requested fresh now m in
    if slot.name == ""
    then (refuse (plain "name is required"), s)
    else if not (is_valid_slot_type slot.type)
    then (refuse err_invalid_slot_type, s)
    else if eqb slot.memory_limit 0
    then (refuse err_invalid_memory_value, s)
    else place_slot provider slot s

-- ReleaseCommand.Execute, from the point where the input is a map.
unfoldable pub release_slot : Fields → SlotStore → Ending × SlotStore
unfolding delete_slot
release_slot m s =
    let slot_id = get_string m "slot_id" in
    if slot_id == ""
    then (refuse err_invalid_slot_id, s)
    else (let r = delete_slot slot_id s in
        elim (r.0) [
          | some e ↦ (refuse_in (append "release slot " slot_id) (slot_error e), r.1)
          | none ↦ (done success, r.1)
        ])

-- A write through the pointer that GetSlot gave for the id.
abbrev pub write_slot : String → ResourceSlot → SlotStore → SlotStore
write_slot id slot s = record s { slots = insert id slot s.slots }

-- UpdateSlotCommand.Execute after GetSlot. The writes of the memory limit, the status and the time each go to the
-- store at once.
unfoldable pub change_slot : String → ℤ → Fields → ResourceSlot → SlotStore → Ending × SlotStore
unfolding update_slot
change_slot slot_id now m slot s =
    let limit = or_else slot.memory_limit (to_uint64 m "memory_limit") in
    let resized = record slot { memory_limit = limit } in
    let status = or_else slot.status (as_text (get_field "status" m)) in
    let stored = write_slot slot_id resized s in
    let changed = record resized { status = status; updated_at = now } in
    if is_some (as_text (get_field "status" m)) && not (is_valid_slot_status status)
    then (refuse err_invalid_slot_status, stored)
    else (let r = update_slot changed (write_slot slot_id changed stored) in
        elim (r.0) [
          | some e ↦ (refuse_in (append "update slot " slot_id) (slot_error e), r.1)
          | none ↦ (done success, r.1)
        ])

unfoldable pub change_by_id : ℤ → Fields → SlotStore → Ending × SlotStore
unfolding get_slot change_slot
change_by_id now m s =
    let slot_id = get_string m "slot_id" in
    if slot_id == "" then (refuse err_invalid_slot_id, s) else elim (get_slot slot_id s) [
      | err e ↦ (refuse_in (append "get slot " slot_id) (slot_error e), s)
      | ok slot ↦ change_slot slot_id now m slot s
    ]

-- What every Execute of the file starts with: the store must be set and the input a map.
abbrev pub with_slots :
    (Fields → SlotStore → Ending × SlotStore) → Value → Option SlotStore → Ending × Option SlotStore
with_slots body input none = (refuse err_provider_not_set, none)
with_slots body input (some s) = elim (input_map input) [
  | none ↦ (invalid_input_type, some s)
  | some m ↦ let r = body m s in (r.0, some r.1)
]

unfoldable pub execute_allocate :
    Option Provider → String → ℤ → Value → Option SlotStore → Ending × Option SlotStore
unfolding allocate_slot
execute_allocate provider fresh now = with_slots (allocate_slot provider fresh now)

unfoldable pub execute_release : Value → Option SlotStore → Ending × Option SlotStore
unfolding release_slot
execute_release = with_slots release_slot

unfoldable pub execute_update_slot : ℤ → Value → Option SlotStore → Ending × Option SlotStore
unfolding change_by_id
execute_update_slot now = with_slots (change_by_id now)
