-- ===== src/Agent/Dialogue.antt =====
-- What a chat of pkg/agent/agent.go adds to a conversation, and what the LLM is asked.
pub mod Rounds
pub mod Chat
use ai_inference_managed_by.Base.Map.{lookup, lookup-insert_self}
use ai_inference_managed_by.Base.{
  true, false, String, ℕ, zero, suc, ◌+◌, ◌-◌, ◌≤◌, ◌<◌, ◌≡◌, ◌≢◌, refl, subst, sym, ap, ◌∙◌, List,
  [], ◌∷◌, ◌++◌, append_assoc, append-nil, Option, none, some, arith, length, length-append, drop,
  ltb, if◌then◌else◌, inl, inr, Bool-cases, ◌⊎◌,
}
use ai_inference_managed_by.Base.Result.{Result, ok, err, Result-cases}
use ai_inference_managed_by.Workflow.Types.{Fields}
use ai_inference_managed_by.Unit.Errors.{GoError, wrapped}
use ai_inference_managed_by.Agent.Store.{
  ToolCall, Message, Conversation, said, add_message, max_conversation_messages,
}
use ai_inference_managed_by.Agent.Recent.{recent, add_message-recent}
use ai_inference_managed_by.Agent.{
  Agent, Held, say, Llm, ToolExecutor, ChatResponse, Reply, answered, gave_up, err_exceeded,
  run_tools, rounds, tool_definitions, execute_tool, tool_message,
}

-- One message of the tools for each call, in order, each behind what the call itself has said in the
-- conversation, if it has.
pub data Answers : List ToolCall → List Message → Type 0 where
  no_calls : Answers [] []
  answer :
      (c : ToolCall) (cs : List ToolCall) (own : List Message) (m : Message) (ms : List Message)
      → m.role ≡ "tool"
      → m.tool_call_id ≡ c.id
      → Answers cs ms
      → Answers (c ∷ cs) (own ++ m ∷ ms)

-- What the store has of a conversation that it still has is that conversation.
abbrev pub IsHeld : Held → Type 0
IsHeld h = h.stored ≡ true → lookup h.conv.id h.store.conversations ≡ some h.conv

-- The documented use of a conversation by tools: whatever they do with the store, they only add messages
-- to a conversation, of which the last 100 are kept, or take it out of the store.
abbrev pub Appends : {W : Type 0} → Option (ToolExecutor W) → Type 0
Appends none = Unit
Appends (some tools) =
    (name arguments : String) (h : Held) (w : _) (history : List Message)
    → h.conv.messages ≡ recent history
    → IsHeld h
    → let r = tools.run name arguments h w in
      (r.1.conv.id ≡ h.conv.id)
      × IsHeld r.1
      × ((own : List Message) × (r.1.conv.messages ≡ recent (history ++ own)))

-- Some call takes a conversation out of the store.
abbrev pub Detaches : {W : Type 0} → Option (ToolExecutor W) → Type 0
Detaches none = ⊥
Detaches (some tools) =
    (name : String) × (arguments : String) × (h : Held) × (w : _) × (h.stored ≡ true)
    × ((tools.run name arguments h w).1.stored ≡ false)

-- A dialogue of at most `n` rounds that goes on from a history: the messages that it adds, and how it
-- ends. In each round the LLM is asked with the prompt and the last 100 messages so far.
module _ {W : Type 0} (llm : Llm W) (a : Agent W) (prompt : String) where
  abbrev pub Says : List Message → Result GoError ChatResponse → Type 0
  Says h r =
      (w : W) × ((llm.ask (said "system" prompt ∷ recent h) (tool_definitions a.tool_executor)
          a.max_tokens w).0
        ≡ r)

  pub data Dialogue : ℕ → List Message → List Message → Reply → Type 0 where
    spent : (h : List Message) → Dialogue 0 h [] (gave_up err_exceeded)
    lost :
        (n : ℕ) (h : List Message) (e : GoError)
        → Says h (err e)
        → Dialogue (suc n) h [] (gave_up (wrapped "LLM error" e))
    last :
        (n : ℕ) (h : List Message) (r : ChatResponse)
        → Says h (ok r)
        → r.tool_calls ≡ []
        → Dialogue (suc n) h (r.message ∷ []) (answered r.message.content)
    turn :
        (n : ℕ) (h : List Message) (r : ChatResponse) (answers more : List Message) (reply : Reply)
        → Says h (ok r)
        → r.tool_calls ≢ []
        → Answers r.tool_calls answers
        → Dialogue n (h ++ r.message ∷ answers) more reply
        → Dialogue (suc n) h (r.message ∷ answers ++ more) reply

pub List-cases : {A : Type 0} (xs : List A) → (xs ≡ []) ⊎ ((x : A) × (ys : List A) × (xs ≡ x ∷ ys))
List-cases [] = inl refl
List-cases (x ∷ xs) = inr (x, xs, refl)
