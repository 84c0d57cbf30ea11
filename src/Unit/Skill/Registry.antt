-- ===== src/Unit/Skill/Registry.antt =====
-- SkillRegistry of pkg/unit/skill/registry.go over the store in memory. `sort` stands for sort.Slice by
-- falling priority, which may put equals in any order; `lower` for strings.ToLower.
pub mod Active
use Prim.Native.String.{◌++◌ as append}
use ai_inference_managed_by.Base.{
  String, Bool, true, false, not, ◌||◌, ◌&&◌, List, [], ◌∷◌, Option, none, some, elem,
  if◌then◌else◌,
}
use ai_inference_managed_by.Base.Int.{pos}
use ai_inference_managed_by.Base.Text.{contains, cut}
use ai_inference_managed_by.Unit.Skill.{Skill, SkillFilter, SkillStore, list_skills}

-- SkillFilter{EnabledOnly: true}
abbrev pub enabled_skills : SkillFilter
enabled_skills = record {
  category = "";
  source = "";
  enabled_only = true;
  limit = pos 0;
  offset = pos 0;
}

-- The first result of the store's List. Without limit and offset its slice is in bounds: `none` does
-- not come up.
unfoldable pub enabled_list : SkillStore → List Skill
unfolding list_skills
enabled_list s = elim (list_skills enabled_skills s) [ none ↦ [] | some (skills, total) ↦ skills ]

abbrev pub always_on_skills : List Skill → List Skill
always_on_skills [] = []
always_on_skills (sk ∷ more) =
    let rest = always_on_skills more in if sk.trigger.always_on then sk ∷ rest else rest

-- A set of names is a list here.
abbrev pub tool_names_match : List String → List String → Bool
tool_names_match [] active = false
tool_names_match (t ∷ tools) active = elem active t || tool_names_match tools active

module _ (lower : String → String) where
  abbrev pub keywords_match : List String → String → Bool
  keywords_match [] message = false
  keywords_match (kw ∷ keywords) message =
      contains message (lower kw) || keywords_match keywords message

  -- What makes MatchSkills take a skill.
  abbrev pub is_triggered : String → List String → Skill → Bool
  is_triggered message tools sk =
      not sk.trigger.always_on
      && (keywords_match sk.trigger.keywords (lower message)
          || tool_names_match sk.trigger.tool_names tools)

  abbrev pub triggered_skills : String → List String → List Skill → List Skill
  triggered_skills message tools [] = []
  triggered_skills message tools (sk ∷ more) =
      let rest = triggered_skills message tools more in
      if is_triggered message tools sk then sk ∷ rest else rest

module _ (sort : List Skill → List Skill) where
  unfoldable pub get_always_on_skills : SkillStore → List Skill
  unfolding enabled_list
  get_always_on_skills s = sort (always_on_skills (enabled_list s))

  unfoldable pub match_skills : (String → String) → String → List String → SkillStore → List Skill
  unfolding enabled_list cut
  match_skills lower message tools s = sort (triggered_skills lower message tools (enabled_list s))

-- The loop of FormatForSystemPrompt.
unfoldable pub format_skills : List Skill → String
format_skills [] = ""
format_skills (sk ∷ skills) =
    append (append "### " (append sk.name (append " (" (append sk.category ")\n\n"))))
      (append sk.content (append "\n\n" (format_skills skills)))

unfoldable pub format_for_system_prompt : List Skill → String
unfolding format_skills
format_for_system_prompt [] = ""
format_for_system_prompt (sk ∷ skills) = append "## Active Skills\n\n" (
    append "The following skills provide guidance for this conversation:\n\n"
      (format_skills (sk ∷ skills)))
