-- ===== src/Agent/Commands.antt =====
-- The commands of pkg/unit/agent/commands.go, the queries of queries.go and the errors of errors.go beside
-- them. `type_name` stands for fmt's %T on an input, `quote` for %q on a text. The agent is `none`
-- where it is not enabled.
pub mod Reset
use Prim.Native.String.{◌++◌ as append}
use ai_inference_managed_by.Base.{
  String, Bool, true, false, not, ℕ, ◌+◌, ◌-◌, List, [], ◌∷◌, ◌++◌, Option, none, some, ◌==◌,
  length, drop, ltb, if◌then◌else◌,
}
use ai_inference_managed_by.Base.Int.{ℤ, pos, negsuc, pos_part}
use ai_inference_managed_by.Base.Result.{Result, ok, err}
use ai_inference_managed_by.Workflow.Types.{
  Value, Fields, Items, scalar, text, array, object, nil, cons, boolean, int, field, end,
}
use ai_inference_managed_by.Workflow.Resolver.{get_field}
use ai_inference_managed_by.Unit.Errors.{GoError, unit_error, new_error, error_text}
use ai_inference_managed_by.Unit.Errors.Codes.{
  err_code_invalid_input, err_code_agent_not_enabled, err_code_agent_llm_error,
  err_code_conversation_not_found,
}
use ai_inference_managed_by.Unit.Execution.{input_map, get_string, as_int, or_else}
use ai_inference_managed_by.Unit.Skill.{Skill}
use ai_inference_managed_by.Agent.Store.{
  Message, ToolCall, ConversationStore, get_conversation, delete_conversation, count_conversations,
}
use ai_inference_managed_by.Agent.{Agent, answered, gave_up, chat}

abbrev pub err_agent_not_enabled : GoError
err_agent_not_enabled = unit_error (
    new_error err_code_agent_not_enabled
      "agent operator is not enabled (LLM client not configured)")

abbrev pub err_agent_llm_error : GoError → GoError
err_agent_llm_error cause =
    unit_error (new_error err_code_agent_llm_error (append "LLM error: " (error_text cause)))

abbrev pub err_required : String → GoError
err_required key = unit_error (new_error err_code_invalid_input (append key " is required"))

-- The events of the domain: a tool's event carries the conversation and the tool's name.
pub data AgentEvent : Type 0 where
  conversation_created conversation_reset : String → AgentEvent
  tool_called : String → String → AgentEvent
  message_sent : String → String → String → AgentEvent

abbrev pub call_events : String → List ToolCall → List AgentEvent
call_events id [] = []
call_events id (call ∷ calls) = tool_called id call.name ∷ call_events id calls

abbrev pub tool_events : String → List Message → List AgentEvent
tool_events id [] = []
tool_events id (m ∷ ms) = call_events id m.tool_calls ++ tool_events id ms

abbrev pub count_calls : List Message → ℕ
count_calls [] = 0
count_calls (m ∷ ms) = length m.tool_calls + count_calls ms

-- The messages of a conversation that may have gone.
abbrev pub messages_of : String → ConversationStore → List Message
messages_of id s = elim (get_conversation id s) [ none ↦ [] | some conv ↦ conv.messages ]

pub record AgentStatus : Type 0 where
  pub enabled : Bool
  pub active_conversations : ℕ

-- StatusQuery, without the names of the client.
abbrev pub agent_status : {W : Type 0} → Option (Agent W) → ConversationStore → AgentStatus
agent_status none s = record { enabled = false; active_conversations = 0 }
agent_status (some a) s = record { enabled = true; active_conversations = count_conversations s }

-- messageToView
abbrev pub message_to_view : Message → Value
message_to_view m = object (
    field "role" (text m.role)
      (field "content" (text m.content) (field "tool_call_id" (text m.tool_call_id) end)))

abbrev pub views : List Message → Items
views [] = nil
views (m ∷ ms) = cons (message_to_view m) (views ms)

-- msgs[len(msgs)-limit:], for a limit that is positive and below the length
abbrev pub last_messages : ℤ → List Message → List Message
last_messages (negsuc n) ms = ms
last_messages (pos n) ms =
    if ltb 0 n then (if ltb n (length ms) then drop (length ms - n) ms else ms) else ms

module _ (type_name : Value → String) (quote : String → String) where
  abbrev pub err_invalid_type : Value → GoError
  err_invalid_type input = unit_error (
      new_error err_code_invalid_input
        (append "invalid input type: expected map[string]any, got " (type_name input)))

  abbrev pub err_conversation_not_found : String → GoError
  err_conversation_not_found id = unit_error (
      new_error err_code_conversation_not_found
        (append "conversation " (append (quote id) " not found")))

  -- ResetCommand, with the events that it publishes.
  unfoldable pub execute_reset :
      {W : Type 0}
      → Option (Agent W)
      → Value
      → ConversationStore
      → Result GoError Value × List AgentEvent × ConversationStore
  unfolding delete_conversation get_field
  execute_reset none input s = (err err_agent_not_enabled, [], s)
  execute_reset (some a) input s = elim (input_map input) [
    | none ↦ (err (err_invalid_type input), [], s)
    | some m ↦
        let id = get_string m "conversation_id" in
        let r = delete_conversation id s in
        if id == ""
        then (err (err_required "conversation_id"), [], s)
        else if not r.0
        then (err (err_conversation_not_found id), [], r.1)
        else (
          ok (
              object
                (field "success" (scalar (boolean true)) (field "conversation_id" (text id) end))),
          conversation_reset id ∷ [],
          r.1,
        )
  ]

  -- HistoryQuery
  unfoldable pub execute_history :
      {W : Type 0} → Option (Agent W) → Value → ConversationStore → Result GoError Value
  unfolding get_conversation get_field
  execute_history a input s = elim (input_map input) [
    | none ↦ err (err_invalid_type input)
    | some m ↦
        let id = get_string m "conversation_id" in
        if id == "" then err (err_required "conversation_id") else elim a [
          | none ↦ err err_agent_not_enabled
          | some agent ↦ elim (get_conversation id s) [
            | none ↦ err (err_conversation_not_found id)
            | some conv ↦
                let limit = or_else (pos 0) (as_int (get_field "limit" m)) in
                ok (
                  object (
                    field "conversation_id" (text id)
                      (field "messages" (array (views (last_messages limit conv.messages))) end)))
          ]
        ]
  ]

  module _ {W : Type 0} (marshal : Fields → Result GoError String) (now : W → ℕ)
      (sort : List Skill → List Skill) (lower : String → String) (base : String) where
    -- ChatCommand, once the message is there.
    unfoldable pub send :
        String
        → Agent W
        → String
        → String
        → ConversationStore
        → W
        → Result GoError Value × List AgentEvent × ConversationStore × W
    unfolding chat get_conversation
    send fresh a id message s w =
        let r = chat marshal now sort lower base fresh a id message s w in
        let conv_id = r.0.conversation_id in
        let ms = messages_of conv_id r.1 in
        elim (r.0.reply) [
          | gave_up e ↦ (err (err_agent_llm_error e), [], r.1, r.2)
          | answered reply ↦ (
            ok (
                object (
                  field "response" (text reply) (
                    field "conversation_id" (text conv_id)
                      (field "tool_calls_count" (scalar (int (pos (count_calls ms)))) end)))),
            (if id == "" then conversation_created conv_id ∷ [] else [])
                ++ tool_events conv_id ms
                ++ message_sent conv_id message reply ∷ [],
            r.1,
            r.2,
          )
        ]

    unfoldable pub execute_chat :
        String
        → Option (Agent W)
        → Value
        → ConversationStore
        → W
        → Result GoError Value × List AgentEvent × ConversationStore × W
    unfolding send get_field
    execute_chat fresh none input s w = (err err_agent_not_enabled, [], s, w)
    execute_chat fresh (some a) input s w = elim (input_map input) [
      | none ↦ (err (err_invalid_type input), [], s, w)
      | some m ↦
          let message = get_string m "message" in
          if message == ""
          then (err (err_required "message"), [], s, w)
          else send fresh a (get_string m "conversation_id") message s w
    ]
