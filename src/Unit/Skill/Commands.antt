-- ===== src/Unit/Skill/Commands.antt =====
-- pkg/unit/skill/commands.go. The id that uuid.New draws is an argument, and it is not empty.
--
-- Get gives the store's own skill, and Enable and Disable write to it and put it back at once, which is one step here.
pub mod Immutable
use ai_inference_managed_by.Base.{
  String, Bool, true, false, not, ◌&&◌, List, [], ◌∷◌, ◌++◌, Option, none, some, ◌==◌,
  if◌then◌else◌,
}
use ai_inference_managed_by.Base.Int.{ℤ, pos}
use ai_inference_managed_by.Base.Result.{Result, ok, err}
use ai_inference_managed_by.Base.Text.{has_prefix, strip_prefix}
use ai_inference_managed_by.Workflow.Types.{
  Value, Fields, Items, nil, cons, scalar, text, array, object, field, end,
}
use ai_inference_managed_by.Workflow.Resolver.{get_field}
use ai_inference_managed_by.Unit.Errors.{GoError, plain, unit_error, new_error, new_domain_error}
use ai_inference_managed_by.Unit.Errors.Codes.{
  err_code_invalid_input, err_code_skill_not_found, err_code_skill_already_exists,
  err_code_skill_invalid, err_code_builtin_skill_immutable,
}
use ai_inference_managed_by.Unit.Execution.{
  Ending, done, refuse, refuse_in, input_map, as_text, or_else, get_string, success,
}
use ai_inference_managed_by.Unit.Alert.Commands.{channels_of}
use ai_inference_managed_by.Unit.Skill.{
  Skill, SkillTrigger, FrontMatter, SkillStore, SkillError, skill_not_found, skill_already_exists,
  skill_invalid, builtin_skill_immutable, source_builtin, source_user, add_skill, get_skill,
  remove_skill, update_skill, parse_skill_file,
}

abbrev pub err_invalid_skill_input : GoError
err_invalid_skill_input = unit_error (new_error err_code_invalid_input "invalid input")

abbrev pub skill_error : SkillError → GoError
skill_error skill_not_found =
    unit_error (new_domain_error "skill" err_code_skill_not_found "skill not found")
skill_error skill_already_exists =
    unit_error (new_domain_error "skill" err_code_skill_already_exists "skill already exists")
skill_error skill_invalid =
    unit_error (new_domain_error "skill" err_code_skill_invalid "skill is invalid")
skill_error builtin_skill_immutable =
    unit_error
      (new_domain_error "skill" err_code_builtin_skill_immutable "builtin skill cannot be modified")

-- The events of the domain, which a command publishes beside those of its execution.
pub data SkillEvent : Type 0 where
  added_event : Skill → SkillEvent
  removed_event enabled_event disabled_event : String → SkillEvent

-- The store, and what has been published.
pub record SkillSystem : Type 0 where
  pub store : SkillStore
  pub events : List SkillEvent

-- How a call of the store ends a command.
abbrev pub settle_skill :
    String
    → SkillEvent
    → Value
    → List SkillEvent
    → Option SkillError × SkillStore
    → Ending × SkillSystem
settle_skill context e output events (none, s) =
    (done output, record { store = s; events = events ++ e ∷ [] })
settle_skill context e output events (some problem, s) =
    (refuse_in context (skill_error problem), record { store = s; events = events })

-- buildSkillFromFields
abbrev pub build_skill_from_fields : Fields → Skill
build_skill_from_fields m = record {
  id = "";
  name = get_string m "name";
  category = get_string m "category";
  description = get_string m "description";
  trigger = record {
    keywords = channels_of (get_field "keywords" m);
    tool_names = [];
    always_on = false;
  };
  content = get_string m "content";
  priority = pos 0;
  enabled = true;
  source = "";
}

-- The source that the input gives replaces the skill's own; without either it is the user's.
abbrev pub source_of : Fields → Skill → String
source_of m sk =
    let own = if get_string m "source" == "" then sk.source else get_string m "source" in
    if own == "" then source_user else own

-- Execute of the add command, once the skill is built.
unfoldable pub place_skill : String → Fields → Skill → SkillSystem → Ending × SkillSystem
unfolding add_skill get_field
place_skill fresh m sk s =
    let id = if sk.id == "" then fresh else sk.id in
    let placed = record sk { id = id; source = source_of m sk } in
    if source_of m sk == source_builtin
    then (refuse (plain "cannot add skill with builtin source via API"), s)
    else settle_skill "add skill" (added_event placed) (object (field "skill_id" (text id) end))
        s.events (add_skill placed s.store)

-- The skill that an enabling or disabling command writes.
abbrev pub switched : Bool → Skill → Skill
switched on sk = record sk { enabled = on }

-- What Execute of the enabling and the disabling command share.
unfoldable pub switch_skill :
    Bool → String → (String → SkillEvent) → Fields → SkillSystem → Ending × SkillSystem
unfolding get_skill update_skill get_field
switch_skill on context e m s =
    let id = get_string m "skill_id" in
    if id == "" then (refuse err_invalid_skill_input, s) else elim (get_skill id s.store) [
      | err problem ↦ (refuse_in "get skill" (skill_error problem), s)
      | ok sk ↦ settle_skill context (e id) success s.events (update_skill (switched on sk) s.store)
    ]

unfoldable pub drop_skill : Fields → SkillSystem → Ending × SkillSystem
unfolding remove_skill get_field
drop_skill m s =
    let id = get_string m "skill_id" in
    if id == ""
    then (refuse err_invalid_skill_input, s)
    else settle_skill "remove skill" (removed_event id) success s.events (remove_skill id s.store)

-- What every Execute of the file starts with.
abbrev pub with_skill_map :
    (Fields → SkillSystem → Ending × SkillSystem) → Value → SkillSystem → Ending × SkillSystem
with_skill_map body input s = elim (input_map input) [
  | none ↦ (refuse (plain "invalid input type: expected map[string]any"), s)
  | some m ↦ body m s
]

-- The end of the branch that parses the content.
abbrev pub place_parsed :
    String → Fields → SkillSystem → Result SkillError Skill → Ending × SkillSystem
place_parsed fresh m s (err problem) = (refuse_in "parse skill" (skill_error problem), s)
place_parsed fresh m s (ok sk) = place_skill fresh m sk s

module _ (decode : String → Option FrontMatter) where
  unfoldable pub add_from_map : String → Fields → SkillSystem → Ending × SkillSystem
  unfolding place_skill parse_skill_file
  add_from_map fresh m s =
      let content = get_string m "content" in
      if not (get_string m "name" == "")
      then place_skill fresh m (build_skill_from_fields m) s
      else if not (content == "") && has_prefix "---" content
      then place_parsed fresh m s (parse_skill_file decode content)
      else (refuse err_invalid_skill_input, s)

  unfoldable pub execute_add : String → Value → SkillSystem → Ending × SkillSystem
  unfolding add_from_map
  execute_add fresh = with_skill_map (add_from_map fresh)

unfoldable pub execute_remove : Value → SkillSystem → Ending × SkillSystem
unfolding drop_skill
execute_remove = with_skill_map drop_skill

unfoldable pub execute_enable : Value → SkillSystem → Ending × SkillSystem
unfolding switch_skill
execute_enable = with_skill_map (switch_skill true "enable skill" enabled_event)

unfoldable pub execute_disable : Value → SkillSystem → Ending × SkillSystem
unfolding switch_skill
execute_disable = with_skill_map (switch_skill false "disable skill" disabled_event)

-- A call of one of the four commands.
pub data SkillCommand : Type 0 where
  add_command : (fresh : String) (input : Value) → SkillCommand
  remove_command enable_command disable_command : (input : Value) → SkillCommand

module _ (decode : String → Option FrontMatter) where
  abbrev pub execute_skill : SkillCommand → SkillSystem → Ending × SkillSystem
  execute_skill (add_command fresh input) = execute_add decode fresh input
  execute_skill (remove_command input) = execute_remove input
  execute_skill (enable_command input) = execute_enable input
  execute_skill (disable_command input) = execute_disable input

  -- The commands one after the other.
  abbrev pub execute_all_skills : List SkillCommand → SkillSystem → SkillSystem
  execute_all_skills [] s = s
  execute_all_skills (c ∷ cs) s = execute_all_skills cs (execute_skill c s).1
