-- ===== src/Agent.antt =====
-- The agent of pkg/agent/agent.go. The LLM and the executor of tools act on a world `W`, which they may
-- change, and from which the clock is read. A tool is any unit (MCPAdapter in pkg/gateway/mcp_tools.go),
-- those of the agent too, so it acts on the conversations as well. `marshal` stands for json.Marshal on
-- a call's arguments; the temperature, a float, and the logger are left out.
--
-- GetOrCreate gives a pointer to the store's own conversation, through which Chat writes: a conversation
-- that a chat holds stands with the store and with whether the store still has this very one.
pub mod Store
pub mod Recent
pub mod Dialogue
pub mod Prompt
pub mod Invariant
pub mod Commands
pub mod Examples
use Prim.Native.String.{◌++◌ as append}
use ai_inference_managed_by.Base.{
  String, Bool, true, ℕ, zero, suc, List, [], ◌∷◌, ◌++◌, Option, none, some, ◌==◌, elem,
  if◌then◌else◌,
}
use ai_inference_managed_by.Base.Int.{ℤ, pos, is_nonpos}
use ai_inference_managed_by.Base.Map.{insert}
use ai_inference_managed_by.Base.Result.{Result, ok, err}
use ai_inference_managed_by.Workflow.Types.{Fields}
use ai_inference_managed_by.Unit.Errors.{GoError, plain, wrapped, error_text}
use ai_inference_managed_by.Unit.Skill.{Skill, SkillStore}
use ai_inference_managed_by.Unit.Skill.Registry.{
  get_always_on_skills, match_skills, format_for_system_prompt,
}
use ai_inference_managed_by.Agent.Store.{
  Message, ToolCall, Conversation, ConversationStore, said, add_message, get_or_create,
}

pub record ToolDef : Type 0 where
  pub name : String
  pub description : String
  pub input_schema : Fields

pub record ContentBlock : Type 0 where
  pub type : String
  pub text : String

pub record ChatResponse : Type 0 where
  pub message : Message
  pub tool_calls : List ToolCall

-- LLMClient and ToolExecutor. A nil result of a tool has no content here, and a client is asked with
-- the limit on tokens.
pub record Llm (W : Type 0) : Type 0 where
  pub ask : List Message → List ToolDef → ℤ → W → Result GoError ChatResponse × W

-- The conversation that a chat has a pointer to, and whether the store has this one under its id. A tool
-- can take it out of the store (agent.reset) or write to it (agent.chat).
pub record Held : Type 0 where
  pub conv : Conversation
  pub stored : Bool
  pub store : ConversationStore

pub record ToolExecutor (W : Type 0) : Type 0 where
  pub definitions : List ToolDef
  pub run : String → String → Held → W → Result GoError (List ContentBlock) × Held × W

pub record Agent (W : Type 0) : Type 0 where
  pub llm : Option (Llm W)
  pub tool_executor : Option (ToolExecutor W)
  pub skills : Option SkillStore
  pub max_tokens : ℤ

-- NewAgent
abbrev pub new_agent :
    {W : Type 0} → Option (Llm W) → Option (ToolExecutor W) → Option SkillStore → ℤ → Agent W
new_agent llm tool_executor skills max_tokens = record {
  llm = llm;
  tool_executor = tool_executor;
  skills = skills;
  max_tokens = if is_nonpos max_tokens then pos 4096 else max_tokens;
}

abbrev pub max_tool_call_rounds : ℕ
max_tool_call_rounds = 30

-- The loops of buildSystemPrompt, with the ids that have been seen.
unfoldable pub unseen : List String → List Skill → List Skill
unseen seen [] = []
unseen seen (sk ∷ more) =
    let skip = unseen seen more in
    let keep = sk ∷ unseen (sk.id ∷ seen) more in if elem seen sk.id then skip else keep

-- The texts of the blocks that are not empty, joined by line ends.
unfoldable pub join_lines : List String → String
join_lines [] = ""
join_lines (t ∷ []) = t
join_lines (t ∷ u ∷ ts) = append t (append "\n" (join_lines (u ∷ ts)))

abbrev pub block_texts : List ContentBlock → List String
block_texts [] = []
block_texts (b ∷ blocks) =
    let rest = block_texts blocks in if b.text == "" then rest else b.text ∷ rest

abbrev pub tool_text : Result GoError (List ContentBlock) → String
tool_text (err e) = append "{\"error\": \"" (append (error_text e) "\"}")
tool_text (ok []) = "{}"
tool_text (ok (b ∷ blocks)) = join_lines (block_texts (b ∷ blocks))

-- How the loop of Chat ends.
pub data Reply : Type 0 where
  answered : String → Reply
  gave_up : GoError → Reply

abbrev pub err_exceeded : GoError
err_exceeded = plain "exceeded maximum tool call rounds (30)"

pub record ChatResult : Type 0 where
  pub reply : Reply
  pub conversation_id : String

abbrev pub tool_message : String → ToolCall → Message
tool_message content call = record (said "tool" content) { tool_call_id = call.id }

abbrev pub tool_definitions : {W : Type 0} → Option (ToolExecutor W) → List ToolDef
tool_definitions none = []
tool_definitions (some tools) = tools.definitions

abbrev pub refusal : String → ChatResult
refusal problem = record { reply = gave_up (plain problem); conversation_id = "" }

-- conv.addMessage through the pointer
unfoldable pub say : ℕ → Message → Held → Held
unfolding add_message
say now m h =
    let conv = add_message now m h.conv in
    let written = record h.store { conversations = insert conv.id conv h.store.conversations } in
    record h { conv = conv; store = if h.stored then written else h.store }

module _ {W : Type 0} (marshal : Fields → Result GoError String) (now : W → ℕ) where
  unfoldable pub execute_tool : Option (ToolExecutor W) → ToolCall → Held → W → String × Held × W
  unfolding error_text join_lines
  execute_tool none call h w = ("{\"error\": \"tool executor not available\"}", h, w)
  execute_tool (some tools) call h w = elim (marshal call.arguments) [
    | err e ↦
        (append "{\"error\": \"failed to marshal arguments: " (append (error_text e) "\"}"), h, w)
    | ok arguments ↦ let r = tools.run call.name arguments h w in (tool_text r.0, r.1, r.2)
  ]

  -- The loop over the calls of a response.
  unfoldable pub run_tools : Option (ToolExecutor W) → List ToolCall → Held → W → Held × W
  unfolding execute_tool say
  run_tools tools [] h w = (h, w)
  run_tools tools (call ∷ calls) h w =
      let r = execute_tool tools call h w in
      run_tools tools calls (say (now r.2) (tool_message r.0 call) r.1) r.2

  -- The conversation loop, with the rounds that are left.
  unfoldable pub rounds : Llm W → Agent W → String → ℕ → Held → W → Reply × Held × W
  unfolding run_tools say
  rounds llm a prompt zero h w = (gave_up err_exceeded, h, w)
  rounds llm a prompt (suc left) h w =
      let r =
        llm.ask (said "system" prompt ∷ h.conv.messages) (tool_definitions a.tool_executor)
          a.max_tokens w in
      elim (r.0) [
        | err e ↦ (gave_up (wrapped "LLM error" e), h, r.1)
        | ok response ↦
            let heard = say (now r.1) response.message h in
            elim (response.tool_calls) [
              | [] ↦ (answered response.message.content, heard, r.1)
              | call ∷ calls ↦
                  let done = run_tools a.tool_executor (call ∷ calls) heard r.1 in
                  rounds llm a prompt left done.0 done.1
            ]
      ]

module _ (sort : List Skill → List Skill) (lower : String → String) where
  -- The skills of a prompt: those that are always on, then the triggered ones, each id once.
  unfoldable pub prompt_skills : String → SkillStore → List Skill
  unfolding unseen get_always_on_skills match_skills
  prompt_skills message skills =
      unseen [] (get_always_on_skills sort skills ++ match_skills sort lower message [] skills)

  -- `base` is the constant with which every prompt starts.
  unfoldable pub build_system_prompt : String → Option SkillStore → String → String
  unfolding prompt_skills format_for_system_prompt
  build_system_prompt base none message = append base "\n\n"
  build_system_prompt base (some skills) message =
      append (append base "\n\n") (format_for_system_prompt (prompt_skills message skills))

module _ {W : Type 0} (marshal : Fields → Result GoError String) (now : W → ℕ)
    (sort : List Skill → List Skill) (lower : String → String) (base : String) where
  -- Chat, once the client and the message are there.
  unfoldable pub converse :
      Llm W
      → String
      → Agent W
      → String
      → String
      → ConversationStore
      → W
      → ChatResult × ConversationStore × W
  unfolding get_or_create say rounds build_system_prompt
  converse llm fresh a id message s w =
      let found = get_or_create fresh (now w) id s in
      let held =
        say (now w) (said "user" message)
          (record { conv = found.0; stored = true; store = found.1 }) in
      let prompt = build_system_prompt sort lower base a.skills message in
      let r = rounds marshal now llm a prompt max_tool_call_rounds held w in
      (record { reply = r.0; conversation_id = (r.1).conv.id }, (r.1).store, r.2)

  unfoldable pub chat :
      String
      → Agent W
      → String
      → String
      → ConversationStore
      → W
      → ChatResult × ConversationStore × W
  unfolding converse
  chat fresh a id message s w = elim (a.llm) [
    | none ↦ (refusal "LLM client is not configured", s, w)
    | some llm ↦
        if message == ""
        then (refusal "message is required", s, w)
        else converse llm fresh a id message s w
  ]
