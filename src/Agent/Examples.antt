-- ===== src/Agent/Examples.antt =====
-- A client, tools and skills on which the theorems about pkg/agent, the skills and the authentication are
-- applied.
use mathlib.Core.List.Perm
use ai_inference_managed_by.Base.{
  Bool-cases, inl, inr, ℕ, suc, String, true, false, ◌≡◌, refl, List, [], ◌∷◌, none, some, arith,
  if◌then◌else◌, eqb, eq_iff, elem, ◌==◌, Nodup,
}
use ai_inference_managed_by.Base.Int.{pos}
use ai_inference_managed_by.Base.Map.{lookup, is_some, insert, delete}
use ai_inference_managed_by.Base.Result.{Result, ok, err}
use ai_inference_managed_by.Workflow.Types.{Fields, Value, end, object, field, text}
use ai_inference_managed_by.Unit.Errors.{GoError}
use ai_inference_managed_by.Base.Text.{cut, strip_prefix}
use ai_inference_managed_by.Unit.Skill.{
  SkillTrigger, Skill, SkillStore, FrontMatter, parse_skill_file,
}
use ai_inference_managed_by.Unit.Skill.Parse.{skill_file, skill_of, parse_skill_file-skill_file}
use ai_inference_managed_by.Unit.Skill.Commands.{
  remove_command, disable_command, execute_all_skills,
}
use ai_inference_managed_by.Unit.Skill.Commands.Immutable.{
  IsKeyed, builtins, execute_all_skills-builtins,
}
use ai_inference_managed_by.Unit.Skill.Registry.Active.{ids, holds_of, is_active}
use ai_inference_managed_by.Agent.Store.{
  ToolCall, ConversationStore, new_conversation_store, said, get_conversation,
}
use ai_inference_managed_by.Agent.Prompt.{prompt_skills-active}
use ai_inference_managed_by.Agent.Invariant.{
  chats, resets, KeepShort, IsShort, All-delete, AllShort, apply_agent_all,
  apply_agent_all-AllShort,
}
use ai_inference_managed_by.Agent.Commands.{
  execute_reset, execute_history, err_conversation_not_found, conversation_reset,
}
use ai_inference_managed_by.Agent.Commands.Reset.{reset-forgets}
use ai_inference_managed_by.Agent.{Agent, Held, Llm, ToolExecutor, chat, prompt_skills}

abbrev list_models : ToolCall
list_models = record { id = "call-1"; name = "model_list"; arguments = end }

-- It asks for the models, and then it answers.
abbrev client : Llm ℕ
client = record {
  ask = λ ms tools limit w. (
    ok (record {
      message = said "assistant" "two models";
      tool_calls = if eqb w 0 then list_models ∷ [] else [];
    }),
    suc w,
  );
}

-- The held conversation is taken out of the store.
abbrev reset_held : Held → Held
reset_held h = record h {
  stored = false;
  store = record h.store { conversations = delete h.conv.id h.store.conversations };
}

-- Tools of the platform, agent.reset on the conversation of the chat among them.
abbrev acted : String → Held → Held
acted name h = if name == "agent_reset" then reset_held h else h

abbrev platform : ToolExecutor ℕ
platform = record {
  definitions = [];
  run =
      λ name arguments h w. (ok (record { type = "text"; text = "[]" } ∷ []), acted name h, suc w);
}

platform-KeepShort : KeepShort (some platform)
platform-KeepShort name arguments h w id v = elim (Bool-cases (name == "agent_reset")) [
  | inl reset ↦
      rw reset (
        v.0,
        v.1,
        All-delete (λ e. (e.1.id ≡ e.0) × IsShort e.1) h.conv.id h.store.conversations v.2,
      )
  | inr other ↦ rw other v
]

abbrev no_tools : SkillTrigger
no_tools = record { keywords = "model" ∷ []; tool_names = []; always_on = false }

abbrev guide : Skill
guide = record {
  id = "setup";
  name = "Setup";
  category = "setup";
  description = "";
  trigger = no_tools;
  content = "Pull the model first.";
  priority = pos 1;
  enabled = true;
  source = "builtin";
}

abbrev guides : SkillStore
guides = record { skills = ("setup", guide) ∷ [] }

guides-IsKeyed : IsKeyed guides
unfolding lookup
guides-IsKeyed k sk found = ground (arith, found, eq_iff "setup" k)

abbrev operator : Agent ℕ
operator = record {
  llm = some client;
  tool_executor = some platform;
  skills = some guides;
  max_tokens = pos 4096;
}

abbrev marshal : Fields → Result GoError String
marshal m = ok "{}"

abbrev same_order : List Skill → List Skill
same_order xs = xs

abbrev keep_case : String → String
keep_case t = t

abbrev clock : ℕ → ℕ
clock w = w

-- A client that asks for agent.reset first.
abbrev forgetful : Llm ℕ
forgetful = record {
  ask = λ ms tools limit w. (
    ok (record {
      message = said "assistant" "forgotten";
      tool_calls = if eqb w 0 then record list_models { name = "agent_reset" } ∷ [] else [];
    }),
    suc w,
  );
}

-- A chat whose tool call resets the conversation answers, and leaves nothing in the store.
chat_forgotten :
    get_conversation "conv-1"
      (chat marshal clock same_order keep_case "base" "conv-1"
        (record operator { llm = some forgetful })
        ""
        "forget this"
        new_conversation_store
        0).1
    ≡ none
unfolding chat get_conversation lookup insert delete
chat_forgotten = refl

apply_agent_all-AllShort_example :
    AllShort
      (apply_agent_all marshal clock same_order keep_case "base" operator
        (chats "conv-1" "" "which models" ∷ resets "conv-1" ∷ [])
        (new_conversation_store, 0)).0
apply_agent_all-AllShort_example =
    apply_agent_all-AllShort marshal clock same_order keep_case "base" operator platform-KeepShort
      (chats "conv-1" "" "which models" ∷ resets "conv-1" ∷ []) 0

prompt_skills-active_example :
    Nodup (ids (prompt_skills same_order keep_case "which model" guides))
    × ((k : String)
        → elem (ids (prompt_skills same_order keep_case "which model" guides)) k
          ≡ holds_of (is_active keep_case "which model") (lookup k guides.skills))
prompt_skills-active_example =
    prompt_skills-active same_order keep_case "which model" guides (λ xs. Perm.rfl) (refl, tt)
      guides-IsKeyed

abbrev plain_name : Value → String
plain_name v = "string"

abbrev talks : ConversationStore
talks = record {
  conversations =
      ("c", record { id = "c"; messages = said "user" "hi" ∷ []; created_at = 0; updated_at = 0 })
      ∷ [];
}

reset-forgets_example :
    let input = object (field "conversation_id" (text "c") end) in
    let r = execute_reset plain_name keep_case (some operator) input talks in
    (execute_history plain_name keep_case (some operator) input r.2
      ≡ err (err_conversation_not_found plain_name keep_case "c"))
    × (get_conversation "d" r.2 ≡ (if "c" == "d" then none else get_conversation "d" talks))
    × (r.1 ≡ (if is_some (lookup "c" talks.conversations) then conversation_reset "c" ∷ [] else []))
reset-forgets_example = reset-forgets plain_name keep_case operator "c" "d" talks refl

abbrev front_matter : FrontMatter
front_matter = record {
  id = "setup";
  name = "Setup";
  category = "setup";
  description = "";
  trigger = no_tools;
  priority = pos 1;
  enabled = true;
  source = "user";
}

parse_skill_file-skill_file_example :
    parse_skill_file (λ t. some front_matter) (skill_file "\nid: setup" "Pull the model first.")
    ≡ ok (skill_of front_matter "Pull the model first.")
unfolding cut strip_prefix
parse_skill_file-skill_file_example =
    parse_skill_file-skill_file (λ t. some front_matter) "\nid: setup" "Pull the model first."
      front_matter refl refl (ground (arith, eq_iff "setup" "")) (ground (arith, eq_iff "Setup" ""))

abbrev named_input : String → Value
named_input id = object (field "skill_id" (text id) end)

execute_all_skills-builtins_example :
    let cs = disable_command (named_input "setup") ∷ remove_command (named_input "setup") ∷ [] in
    let t = execute_all_skills (λ t. none) cs (record { store = guides; events = [] }) in
    ((k : String) → builtins t.store k ≡ builtins guides k) × IsKeyed t.store
execute_all_skills-builtins_example =
    execute_all_skills-builtins (λ t. none)
      (disable_command (named_input "setup") ∷ remove_command (named_input "setup") ∷ [])
      (record { store = guides; events = [] }) guides-IsKeyed
