-- ===== src/Unit/Skill/Queries.antt =====
-- pkg/unit/skill/queries.go. A trigger, a struct, stands in an output as the object of its JSON form; `none`
-- is a slice expression out of bounds.
use ai_inference_managed_by.Base.{
  String, Bool, false, List, [], ◌∷◌, Option, none, some, ◌==◌, if◌then◌else◌,
}
use ai_inference_managed_by.Base.Int.{pos}
use ai_inference_managed_by.Base.Result.{ok, err}
use ai_inference_managed_by.Workflow.Types.{
  Value, Items, Fields, scalar, text, array, object, nil, cons, boolean, int, field, end,
}
use ai_inference_managed_by.Workflow.Resolver.{get_field}
use ai_inference_managed_by.Unit.Errors.{plain}
use ai_inference_managed_by.Unit.Execution.{
  Ending, done, refuse, refuse_in, input_map, as_bool, or_else, get_string,
}
use ai_inference_managed_by.Unit.Alert.Commands.{get_int}
use ai_inference_managed_by.Unit.Skill.{
  Skill, SkillTrigger, SkillFilter, SkillStore, get_skill, list_skills, search_skills,
}
use ai_inference_managed_by.Unit.Skill.Commands.{err_invalid_skill_input, skill_error}

abbrev pub texts : List String → Items
texts [] = nil
texts (t ∷ ts) = cons (text t) (texts ts)

abbrev pub trigger_to_map : SkillTrigger → Value
trigger_to_map t = object (
    field "keywords" (array (texts t.keywords)) (
      field "tool_names" (array (texts t.tool_names))
        (field "always_on" (scalar (boolean t.always_on)) end)))

abbrev pub skill_to_map : Skill → Value
skill_to_map sk = object (
    field "id" (text sk.id) (
      field "name" (text sk.name) (
        field "category" (text sk.category) (
          field "description" (text sk.description) (
            field "trigger" (trigger_to_map sk.trigger) (
              field "content" (text sk.content) (
                field "priority" (scalar (int sk.priority)) (
                  field "enabled" (scalar (boolean sk.enabled))
                    (field "source" (text sk.source) end)))))))))

abbrev pub skills_to_maps : List Skill → Items
skills_to_maps [] = nil
skills_to_maps (sk ∷ skills) = cons (skill_to_map sk) (skills_to_maps skills)

abbrev pub get_bool : Fields → String → Bool
get_bool m key = or_else false (as_bool (get_field key m))

unfoldable pub execute_list : Value → SkillStore → Option Ending
unfolding list_skills get_field
execute_list input s =
    let m = or_else end (input_map input) in
    let filter : SkillFilter = record {
      category = get_string m "category";
      source = get_string m "source";
      enabled_only = get_bool m "enabled_only";
      limit = get_int m "limit";
      offset = get_int m "offset";
    } in
    elim (list_skills filter s) [
      | none ↦ none
      | some (skills, total) ↦ some (
          done (
            object (
              field "skills" (array (skills_to_maps skills))
                (field "total" (scalar (int (pos total))) end))))
    ]

unfoldable pub execute_get : Value → SkillStore → Ending
unfolding get_skill get_field
execute_get input s = elim (input_map input) [
  | none ↦ refuse (plain "invalid input type: expected map[string]any")
  | some m ↦
      if get_string m "skill_id" == ""
      then refuse err_invalid_skill_input
      else elim (get_skill (get_string m "skill_id") s) [
        | err problem ↦ refuse_in "get skill" (skill_error problem)
        | ok sk ↦ done (object (field "skill" (skill_to_map sk) end))
      ]
]

module _ (lower : String → String) where
  unfoldable pub execute_search : Value → SkillStore → Ending
  unfolding search_skills get_field
  execute_search input s = elim (input_map input) [
    | none ↦ refuse (plain "invalid input type: expected map[string]any")
    | some m ↦
        if get_string m "query" == ""
        then refuse err_invalid_skill_input
        else done (
            object (
              field "skills"
                (array (
                  skills_to_maps
                    (search_skills lower (get_string m "query") (get_string m "category") s)))
                end))
  ]
