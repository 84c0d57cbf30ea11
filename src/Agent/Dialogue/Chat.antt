-- ===== src/Agent/Dialogue/Chat.antt =====
-- Chat of pkg/agent/agent.go as a dialogue.
use ai_inference_managed_by.Base.{
  if◌then◌else◌, none, ◌⊎◌, String, false, ℕ, ◌≡◌, refl, List, [], ◌++◌, some, ◌==◌, arith,
}
use ai_inference_managed_by.Base.Map.{insert, lookup}
use ai_inference_managed_by.Base.Result.{Result}
use ai_inference_managed_by.Workflow.Types.{Fields}
use ai_inference_managed_by.Unit.Errors.{GoError}
use ai_inference_managed_by.Unit.Skill.{Skill}
use ai_inference_managed_by.Agent.Store.{
  Message, Conversation, ConversationStore, get_or_create, get_conversation,
}
use ai_inference_managed_by.Agent.Recent.{recent}
use ai_inference_managed_by.Agent.Dialogue.{Dialogue, Detaches}
use ai_inference_managed_by.Agent.{Agent, Llm, ChatResult, chat, converse, max_tool_call_rounds}

-- The outcome of a chat that goes on from a conversation and the user's message: a dialogue of at
-- most 30 rounds, whose messages the store has behind the earlier ones, as far as they are kept.
abbrev pub Continues :
    {W : Type 0}
    → Llm W
    → Agent W
    → String
    → Conversation
    → List Message
    → ChatResult × ConversationStore × W
    → Type 0
Continues llm a prompt old h r =
    (new : List Message) × Dialogue llm a prompt max_tool_call_rounds h new r.0.reply
    × (r.0.conversation_id ≡ old.id)
    × (((conv : Conversation) × (get_conversation old.id r.1 ≡ some conv)
          × (conv.messages ≡ recent (h ++ new)))
        ⊎ Detaches a.tool_executor)

module _ (fresh : String) (now : ℕ) (id : String) (s : ConversationStore) where
  pub get_or_create_found :
      (conv : Conversation)
      → lookup id s.conversations ≡ some conv
      → get_or_create fresh now id s ≡ (conv, s)
  unfolding get_or_create
  get_or_create_found conv there = rw (there, get_or_create) refl

  -- The conversation that is made, and the store with it.
  abbrev pub made : Conversation × ConversationStore
  made =
      let key = if id == "" then fresh else id in
      let conv : Conversation = record {
        id = key;
        messages = [];
        created_at = now;
        updated_at = now;
      } in
      (conv, record s { conversations = insert key conv s.conversations })

  pub get_or_create_missing : lookup id s.conversations ≡ none → get_or_create fresh now id s ≡ made
  unfolding get_or_create
  get_or_create_missing missing = rw (missing, get_or_create) refl

-- The store has the conversation that stands with it.
abbrev HasOwn : Conversation × ConversationStore → Type 0
HasOwn (conv, s) = lookup conv.id s.conversations ≡ some conv

module _ {W : Type 0} (marshal : Fields → Result GoError String) (now : W → ℕ)
    (sort : List Skill → List Skill) (lower : String → String) (base : String) (llm : Llm W)
    (fresh : String) (a : Agent W) (id message : String) (s : ConversationStore) (w : W) where
  -- The conversation that the chat finds or makes.
  abbrev pub found : Conversation
  found = (get_or_create fresh (now w) id s).0

  pub chat-converse :
      a.llm ≡ some llm
      → (message == "") ≡ false
      → chat marshal now sort lower base fresh a id message s w
        ≡ converse marshal now sort lower base llm fresh a id message s w
  unfolding chat
  chat-converse set given = ground (arith, set, given)
