-- ===== src/Agent/Commands/Reset.antt =====
-- What a reset of pkg/unit/agent/commands.go leaves to be read.
use ai_inference_managed_by.Base.{
  String, false, ◌≡◌, [], ◌∷◌, ◌==◌, if◌then◌else◌, none, some, arith, eq_iff,
}
use ai_inference_managed_by.Base.Map.{lookup, is_some, lookup-delete}
use ai_inference_managed_by.Base.Result.{err}
use ai_inference_managed_by.Workflow.Types.{Value, object, field, text, end}
use ai_inference_managed_by.Workflow.Resolver.{get_field}
use ai_inference_managed_by.Agent.Store.{ConversationStore, get_conversation, delete_conversation}
use ai_inference_managed_by.Agent.{Agent}
use ai_inference_managed_by.Agent.Commands.{
  execute_reset, execute_history, err_conversation_not_found, conversation_reset,
}

-- Resetting a conversation under an id that is not empty forgets it and no other: its history is not found afterwards,
-- the other conversations are as they were; it announces the reset exactly when the conversation was there, and
-- is refused otherwise.
pub reset-forgets :
    (type_name : Value → String) (quote : String → String) {W : Type 0} (a : Agent W)
    (id k : String) (s : ConversationStore)
    → (id == "") ≡ false
    → let input = object (field "conversation_id" (text id) end) in
      let r = execute_reset type_name quote (some a) input s in
      (execute_history type_name quote (some a) input r.2
        ≡ err (err_conversation_not_found type_name quote id))
      × (get_conversation k r.2 ≡ (if id == k then none else get_conversation k s))
      × (r.1 ≡ (if is_some (lookup id s.conversations) then conversation_reset id ∷ [] else []))
unfolding execute_reset execute_history get_conversation delete_conversation get_field
reset-forgets type_name quote a id k s given = (
  ground (arith, given, lookup-delete id id s.conversations, eq_iff id id),
  ground (arith, given, lookup-delete id k s.conversations, eq_iff id k),
  ground (arith, given),
)
