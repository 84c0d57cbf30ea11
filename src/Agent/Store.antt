-- ===== src/Agent/Store.antt =====
-- Messages (pkg/agent/llm/types.go) and conversations with their store (pkg/agent/conversation.go). Times
-- count nanoseconds.
use ai_inference_managed_by.Base.{
  String, Bool, ℕ, ◌+◌, ◌-◌, List, [], ◌∷◌, ◌++◌, Option, none, some, ◌==◌, length, drop, ltb,
  if◌then◌else◌,
}
use ai_inference_managed_by.Base.Map.{Map, lookup, insert, delete, values, is_some}
use ai_inference_managed_by.Workflow.Types.{Fields}

pub record ToolCall : Type 0 where
  pub id : String
  pub name : String
  pub arguments : Fields

pub record Message : Type 0 where
  pub role : String
  pub content : String
  pub tool_calls : List ToolCall
  pub tool_call_id : String
  pub reasoning_content : String

-- A message with a role and a content only.
abbrev pub said : String → String → Message
said role content = record {
  role = role;
  content = content;
  tool_calls = [];
  tool_call_id = "";
  reasoning_content = "";
}

pub record Conversation : Type 0 where
  pub id : String
  pub messages : List Message
  pub created_at : ℕ
  pub updated_at : ℕ

abbrev pub max_conversation_messages : ℕ
max_conversation_messages = 100

-- Two hours.
abbrev pub conversation_ttl : ℕ
conversation_ttl = 7200000000000

-- addMessage: the oldest messages are cut off.
unfoldable pub add_message : ℕ → Message → Conversation → Conversation
add_message now m c =
    let all = c.messages ++ m ∷ [] in
    record c {
      messages =
          if ltb max_conversation_messages (length all)
          then drop (length all - max_conversation_messages) all
          else all;
      updated_at = now;
    }

pub record ConversationStore : Type 0 where
  pub conversations : Map Conversation

abbrev pub new_conversation_store : ConversationStore
new_conversation_store = record { conversations = [] }

-- GetOrCreate, with the id that it would draw.
unfoldable pub get_or_create :
    String → ℕ → String → ConversationStore → Conversation × ConversationStore
get_or_create fresh now id s = elim (lookup id s.conversations) [
  | some conv ↦ (conv, s)
  | none ↦
      let key = if id == "" then fresh else id in
      let conv : Conversation = record {
        id = key;
        messages = [];
        created_at = now;
        updated_at = now;
      } in
      (conv, record s { conversations = insert key conv s.conversations })
]

unfoldable pub get_conversation : String → ConversationStore → Option Conversation
get_conversation id s = lookup id s.conversations

-- Inject; `none` is a nil pointer.
unfoldable pub inject : Option Conversation → ConversationStore → ConversationStore
inject none s = s
inject (some conv) s = record s { conversations = insert conv.id conv s.conversations }

unfoldable pub delete_conversation : String → ConversationStore → Bool × ConversationStore
delete_conversation id s =
    (is_some (lookup id s.conversations), record s { conversations = delete id s.conversations })

abbrev pub list_conversations : ConversationStore → List Conversation
list_conversations s = values s.conversations

abbrev pub count_conversations : ConversationStore → ℕ
count_conversations s = length s.conversations

-- The loop of cleanup.
abbrev pub drop_idle : ℕ → Map Conversation → Map Conversation
drop_idle now [] = []
drop_idle now ((id, conv) ∷ more) =
    let rest = drop_idle now more in
    if ltb (conv.updated_at + conversation_ttl) now then rest else (id, conv) ∷ rest

abbrev pub cleanup : ℕ → ConversationStore → ConversationStore
cleanup now s = record s { conversations = drop_idle now s.conversations }
