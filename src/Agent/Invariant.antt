-- ===== src/Agent/Invariant.antt =====
-- What every conversation of the store (pkg/agent/conversation.go) keeps to.
use ai_inference_managed_by.Base.{
  true, String, ℕ, zero, suc, ◌≤◌, ◌≡◌, refl, subst, sym, List, [], ◌∷◌, ◌++◌, Option, none, some,
  ◌==◌, arith, length, All, Bool-cases, inl, inr, if-holds, Option-cases, eq_iff,
}
use ai_inference_managed_by.Base.Map.{Map, lookup, insert, delete}
use ai_inference_managed_by.Base.Result.{Result, Result-cases}
use ai_inference_managed_by.Workflow.Types.{Fields}
use ai_inference_managed_by.Unit.Errors.{GoError}
use ai_inference_managed_by.Unit.Skill.{Skill}
use ai_inference_managed_by.Agent.Store.{
  Message, ToolCall, Conversation, ConversationStore, said, add_message, get_or_create, inject,
  delete_conversation, cleanup, drop_idle, max_conversation_messages, new_conversation_store,
}
use ai_inference_managed_by.Agent.Recent.{length-recent, cut_if_long}
use ai_inference_managed_by.Agent.Dialogue.{List-cases}
use ai_inference_managed_by.Agent.Dialogue.Rounds.{
  execute_tool_refused, execute_tool_run, asked, rounds_failed, rounds_quiet, rounds_busy,
}
use ai_inference_managed_by.Agent.Dialogue.Chat.{
  chat-converse, made, get_or_create_found, get_or_create_missing,
}
use ai_inference_managed_by.Agent.{
  Held, say, execute_tool, tool_message, build_system_prompt, max_tool_call_rounds, Agent, Llm,
  ToolExecutor, chat, converse, rounds, run_tools,
}

-- A conversation has at most 100 messages, and stands under its own id.
abbrev pub IsShort : Conversation → Type 0
IsShort conv = length conv.messages ≤ max_conversation_messages

abbrev pub AllShort : ConversationStore → Type 0
AllShort s = All (λ e. (e.1.id ≡ e.0) × IsShort e.1) s.conversations

module _ {V : Type 0} (P : String × V → Type 0) where
  All-insert : (k : String) (v : V) (m : Map V) → P (k, v) → All P m → All P (insert k v m)
  unfolding insert
  All-insert k v [] h rest = (h, tt)
  All-insert k v ((j, w) ∷ m) h rest = elim (Bool-cases (j == k)) [
    | inl same ↦ rw same (subst (λ i. P (i, v)) (sym ((eq_iff j k).0 same)) h, rest.1)
    | inr other ↦ rw other (rest.0, All-insert k v m h rest.1)
  ]

  pub All-delete : (k : String) (m : Map V) → All P m → All P (delete k m)
  unfolding delete
  All-delete k [] h = tt
  All-delete k ((j, w) ∷ m) h = elim (Bool-cases (j == k)) [
    | inl same ↦ rw same (All-delete k m h.1)
    | inr other ↦ rw other (h.0, All-delete k m h.1)
  ]

  All-lookup : (k : String) (v : V) (m : Map V) → lookup k m ≡ some v → All P m → P (k, v)
  unfolding lookup
  All-lookup k v [] e h = absurd (cc)
  All-lookup k v ((j, w) ∷ m) e h = elim (Bool-cases (j == k)) [
    | inl same ↦
        subst P (let pair : (j, w) ≡ (k, v) = ground (arith, e, same, eq_iff j k) in pair) h.0
    | inr other ↦ All-lookup k v m (ground (arith, e, other)) h.1
  ]

drop_idle-All :
    (P : String × Conversation → Type 0) (now : ℕ) (m : Map Conversation)
    → All P m
    → All P (drop_idle now m)
drop_idle-All P now [] h = tt
drop_idle-All P now ((id, conv) ∷ m) h =
    if-holds (All P) _ (drop_idle now m) ((id, conv) ∷ drop_idle now m) (drop_idle-All P now m h.1)
      (h.0, drop_idle-All P now m h.1)

add_message-IsShort :
    (now : ℕ) (m : Message) (conv : Conversation) → IsShort (add_message now m conv)
unfolding add_message
add_message-IsShort now m conv =
    subst (λ xs. length xs ≤ max_conversation_messages)
      (sym (cut_if_long (conv.messages ++ m ∷ []))) (length-recent (conv.messages ++ m ∷ []))

-- The conversation that a chat holds is short, with the id that it had, and so are those of the store.
abbrev pub IsKept : String → Held → Type 0
IsKept id h = (h.conv.id ≡ id) × IsShort h.conv × AllShort h.store

-- The documented use of conversations by tools: they write to them through the agent only, so they leave
-- them so.
abbrev pub KeepShort : {W : Type 0} → Option (ToolExecutor W) → Type 0
KeepShort none = Unit
KeepShort (some tools) =
    (name arguments : String) (h : Held) (w : _) (id : String)
    → IsKept id h
    → IsKept id (tools.run name arguments h w).1

say-IsKept :
    (time : ℕ) (m : Message) (h : Held) (id : String) → IsKept id h → IsKept id (say time m h)
unfolding say add_message
say-IsKept time m h id v =
    let conv = add_message time m h.conv in
    let short = add_message-IsShort time m h.conv in
    (
      v.0,
      short,
      elim (Bool-cases h.stored) [
        | inr detached ↦ rw detached v.2
        | inl stored ↦ rw stored (
            All-insert (λ e. (e.1.id ≡ e.0) × IsShort e.1) conv.id conv h.store.conversations
              (refl, short) v.2)
      ],
    )

module _ {W : Type 0} (marshal : Fields → Result GoError String) (now : W → ℕ) where
  execute_tool-IsKept :
      (tools : Option (ToolExecutor W)) (call : ToolCall) (h : Held) (w : W) (id : String)
      → KeepShort tools
      → IsKept id h
      → IsKept id (execute_tool marshal now tools call h w).1
  unfolding execute_tool
  execute_tool-IsKept none call h w id keeps v = v
  execute_tool-IsKept (some tools) call h w id keeps v =
      elim (Result-cases (marshal call.arguments)) [
        | inr (e, failed) ↦
            subst (IsKept id) (sym (execute_tool_refused marshal now tools call h w e failed)) v
        | inl (arguments, good) ↦
            subst (IsKept id) (sym (execute_tool_run marshal now tools call h w arguments good))
              (keeps call.name arguments h w id v)
      ]

  run_tools-IsKept :
      (tools : Option (ToolExecutor W)) (calls : List ToolCall) (h : Held) (w : W) (id : String)
      → KeepShort tools
      → IsKept id h
      → IsKept id (run_tools marshal now tools calls h w).0
  unfolding run_tools
  run_tools-IsKept tools [] h w id keeps v = v
  run_tools-IsKept tools (call ∷ calls) h w id keeps v =
      let r = execute_tool marshal now tools call h w in
      let m = tool_message r.0 call in
      run_tools-IsKept tools calls (say (now r.2) m r.1) r.2 id keeps
        (say-IsKept (now r.2) m r.1 id (execute_tool-IsKept tools call h w id keeps v))

  module _ (llm : Llm W) (a : Agent W) (prompt : String) where
    rounds-IsKept :
        (n : ℕ) (h : Held) (w : W) (id : String)
        → KeepShort a.tool_executor
        → IsKept id h
        → IsKept id (rounds marshal now llm a prompt n h w).1
    unfolding rounds
    rounds-IsKept zero h w id keeps v = v
    rounds-IsKept (suc n) h w id keeps v =
        let w' = (asked marshal now llm a prompt n h w).1 in
        elim (Result-cases (asked marshal now llm a prompt n h w).0) [
          | inr (problem, failed) ↦
              subst (λ r. IsKept id r.1)
                (sym (rounds_failed marshal now llm a prompt n h w problem failed)) v
          | inl (r, replied) ↦
              let heard = say (now w') r.message h in
              let short = say-IsKept (now w') r.message h id v in
              elim (List-cases r.tool_calls) [
                | inl quiet ↦
                    subst (λ r. IsKept id r.1)
                      (sym (rounds_quiet marshal now llm a prompt n h w r replied quiet)) short
                | inr (call, calls, busy) ↦
                    let done = run_tools marshal now a.tool_executor (call ∷ calls) heard w' in
                    subst (λ r. IsKept id r.1)
                      (sym (rounds_busy marshal now llm a prompt n h w r call calls replied busy))
                      (rounds-IsKept n done.0 done.1 id keeps
                        (run_tools-IsKept a.tool_executor (call ∷ calls) heard w' id keeps short))
              ]
        ]

module _ (fresh : String) (now : ℕ) (id : String) (s : ConversationStore) where
  -- What GetOrCreate gives and leaves is short.
  get_or_create-AllShort :
      AllShort s
      → IsShort (get_or_create fresh now id s).0 × AllShort (get_or_create fresh now id s).1
  get_or_create-AllShort h = elim (Option-cases (lookup id s.conversations)) [
    | inr (conv, there) ↦
        subst (λ r. IsShort r.0 × AllShort r.1)
          (sym (get_or_create_found fresh now id s conv there))
          ((All-lookup (λ e. (e.1.id ≡ e.0) × IsShort e.1) id conv s.conversations there h).1, h)
    | inl missing ↦
        let empty : IsShort (made fresh now id s).0 = omega arith in
        subst (λ r. IsShort r.0 × AllShort r.1) (sym (get_or_create_missing fresh now id s missing))
          (
            empty,
            All-insert (λ e. (e.1.id ≡ e.0) × IsShort e.1) (made fresh now id s).0.id
                (made fresh now id s).0 s.conversations (refl, empty) h,
          )
  ]

-- A call of the agent. An injected conversation is short.
pub data AgentOp : Type 0 where
  chats : (fresh id message : String) → AgentOp
  injects : (conv : Conversation) → IsShort conv → AgentOp
  resets : (id : String) → AgentOp
  cleans : AgentOp

module _ {W : Type 0} (marshal : Fields → Result GoError String) (now : W → ℕ)
    (sort : List Skill → List Skill) (lower : String → String) (base : String) (a : Agent W) where
  converse-AllShort :
      (llm : Llm W) (fresh id message : String) (s : ConversationStore) (w : W)
      → KeepShort a.tool_executor
      → AllShort s
      → AllShort (converse marshal now sort lower base llm fresh a id message s w).1
  unfolding converse
  converse-AllShort llm fresh id message s w keeps h =
      let (found, store) = get_or_create fresh (now w) id s in
      let (short, all) = get_or_create-AllShort fresh (now w) id s h in
      let start : Held = record { conv = found; stored = true; store = store } in
      let prompt = build_system_prompt sort lower base a.skills message in
      (rounds-IsKept marshal now llm a prompt max_tool_call_rounds
        (say (now w) (said "user" message) start) w found.id keeps
        (say-IsKept (now w) (said "user" message) start found.id (refl, short, all))).2

  abbrev pub apply_agent : AgentOp → ConversationStore × W → ConversationStore × W
  apply_agent (chats fresh id message) (s, w) =
      let r = chat marshal now sort lower base fresh a id message s w in (r.1, r.2)
  apply_agent (injects conv short) (s, w) = (inject (some conv) s, w)
  apply_agent (resets id) (s, w) = ((delete_conversation id s).1, w)
  apply_agent cleans (s, w) = (cleanup (now w) s, w)

  abbrev pub apply_agent_all : List AgentOp → ConversationStore × W → ConversationStore × W
  apply_agent_all [] s = s
  apply_agent_all (op ∷ ops) s = apply_agent_all ops (apply_agent op s)

  chat-AllShort :
      (fresh id message : String) (s : ConversationStore) (w : W)
      → KeepShort a.tool_executor
      → AllShort s
      → AllShort (chat marshal now sort lower base fresh a id message s w).1
  unfolding chat
  chat-AllShort fresh id message s w keeps h = elim (Option-cases a.llm) [
    | inl unset ↦
        subst AllShort
          (let same : s ≡ (chat marshal now sort lower base fresh a id message s w).1 =
              ground (arith, unset) in
            same)
          h
    | inr (llm, set) ↦ elim (Bool-cases (message == "")) [
      | inl empty ↦
          subst AllShort
            (let same : s ≡ (chat marshal now sort lower base fresh a id message s w).1 =
                ground (arith, set, empty) in
              same)
            h
      | inr given ↦
          subst (λ r. AllShort r.1)
            (sym (chat-converse marshal now sort lower base llm fresh a id message s w set given))
            (converse-AllShort llm fresh id message s w keeps h)
    ]
  ]

  apply_agent-AllShort :
      (op : AgentOp) (s : ConversationStore × W)
      → KeepShort a.tool_executor
      → AllShort s.0
      → AllShort (apply_agent op s).0
  unfolding inject delete_conversation
  apply_agent-AllShort (chats fresh id message) (s, w) keeps h =
      chat-AllShort fresh id message s w keeps h
  apply_agent-AllShort (injects conv short) (s, w) keeps h =
      All-insert (λ e. (e.1.id ≡ e.0) × IsShort e.1) conv.id conv s.conversations (refl, short) h
  apply_agent-AllShort (resets id) (s, w) keeps h =
      All-delete (λ e. (e.1.id ≡ e.0) × IsShort e.1) id s.conversations h
  apply_agent-AllShort cleans (s, w) keeps h = drop_idle-All _ (now w) s.conversations h

  -- Whatever chats, resets, clean-ups and injections of conversations within the bound there are on a
  -- new store, with any client, and with tools that may do anything to the conversations but lengthen
  -- one past the bound or move one to another id: every conversation has at most 100 messages and
  -- stands under its own id.
  pub apply_agent_all-AllShort :
      KeepShort a.tool_executor
      → (ops : List AgentOp) (w : W) → AllShort (apply_agent_all ops (new_conversation_store, w)).0
  apply_agent_all-AllShort keeps ops w = from ops (new_conversation_store, w) tt
    where
      from :
          (ops : List AgentOp) (s : ConversationStore × W)
          → AllShort s.0
          → AllShort (apply_agent_all ops s).0
      from [] s h = h
      from (op ∷ ops) s h = from ops (apply_agent op s) (apply_agent-AllShort op s keeps h)
