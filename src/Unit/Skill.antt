-- ===== src/Unit/Skill.antt =====
-- Skills: pkg/unit/skill/types.go and store.go. The mutex makes each method one step. `lower` stands for
-- strings.ToLower, and `decode` for the YAML decoder on the text of a front matter.
pub mod Commands
pub mod Queries
pub mod Registry
pub mod Parse
use ai_inference_managed_by.Base.{
  String, Bool, true, false, not, ◌&&◌, ◌||◌, ℕ, List, [], ◌∷◌, Option, none, some, ◌==◌, length,
  if◌then◌else◌,
}
use ai_inference_managed_by.Base.Int.{ℤ}
use ai_inference_managed_by.Base.Map.{Map, lookup, insert, delete, values, is_some}
use ai_inference_managed_by.Base.Result.{Result, ok, err}
use ai_inference_managed_by.Base.Text.{cut, contains, strip_prefix, trim_prefix}
use ai_inference_managed_by.Unit.Page.{page}

pub record SkillTrigger : Type 0 where
  pub keywords : List String
  pub tool_names : List String
  pub always_on : Bool

-- skillFrontMatter has the same fields but `content`.
pub record FrontMatter : Type 0 where
  pub id : String
  pub name : String
  pub category : String
  pub description : String
  pub trigger : SkillTrigger
  pub priority : ℤ
  pub enabled : Bool
  pub source : String

pub record Skill : Type 0 where
  pub id : String
  pub name : String
  pub category : String
  pub description : String
  pub trigger : SkillTrigger
  pub content : String
  pub priority : ℤ
  pub enabled : Bool
  pub source : String

pub record SkillFilter : Type 0 where
  pub category : String
  pub source : String
  pub enabled_only : Bool
  pub limit : ℤ
  pub offset : ℤ

pub data SkillError : Type 0 where
  skill_not_found skill_already_exists skill_invalid builtin_skill_immutable : SkillError

pub record SkillStore : Type 0 where
  pub skills : Map Skill

abbrev pub new_skill_store : SkillStore
new_skill_store = record { skills = [] }

abbrev pub source_builtin : String
source_builtin = "builtin"

abbrev pub source_user : String
source_user = "user"

unfoldable pub add_skill : Skill → SkillStore → Option SkillError × SkillStore
add_skill skill s =
    if is_some (lookup skill.id s.skills)
    then (some skill_already_exists, s)
    else (none, record s { skills = insert skill.id skill s.skills })

unfoldable pub get_skill : String → SkillStore → Result SkillError Skill
get_skill id s = elim (lookup id s.skills) [ none ↦ err skill_not_found | some sk ↦ ok sk ]

-- The `continue` guards of the loop of List.
abbrev pub is_left_out : SkillFilter → Skill → Bool
is_left_out f sk =
    (not (f.category == "") && not (sk.category == f.category))
    || (not (f.source == "") && not (sk.source == f.source))
    || (f.enabled_only && not sk.enabled)

unfoldable pub select_skills : SkillFilter → List Skill → List Skill
select_skills f [] = []
select_skills f (sk ∷ more) =
    let rest = select_skills f more in if is_left_out f sk then rest else sk ∷ rest

-- `none` is a slice expression out of bounds.
unfoldable pub list_skills : SkillFilter → SkillStore → Option (List Skill × ℕ)
unfolding select_skills
list_skills f s =
    let result = select_skills f (values s.skills) in
    elim (page f.offset f.limit result) [ none ↦ none | some window ↦ some (window, length result) ]

unfoldable pub remove_skill : String → SkillStore → Option SkillError × SkillStore
remove_skill id s = elim (lookup id s.skills) [
  | none ↦ (some skill_not_found, s)
  | some sk ↦
      if sk.source == source_builtin
      then (some builtin_skill_immutable, s)
      else (none, record s { skills = delete id s.skills })
]

unfoldable pub update_skill : Skill → SkillStore → Option SkillError × SkillStore
update_skill skill s =
    if not (is_some (lookup skill.id s.skills))
    then (some skill_not_found, s)
    else (none, record s { skills = insert skill.id skill s.skills })

module _ (lower : String → String) where
  -- The tests of the loop of Search, on the query in lower case.
  abbrev pub is_hit : String → String → Skill → Bool
  is_hit q category sk =
      sk.enabled
      && (category == "" || sk.category == category)
      && (contains (lower sk.name) q
          || contains (lower sk.description) q
          || contains (lower sk.content) q)

  unfoldable pub select_hits : String → String → List Skill → List Skill
  unfolding cut
  select_hits q category [] = []
  select_hits q category (sk ∷ more) =
      let rest = select_hits q category more in if is_hit q category sk then sk ∷ rest else rest

  unfoldable pub search_skills : String → String → SkillStore → List Skill
  unfolding select_hits
  search_skills query category s = select_hits (lower query) category (values s.skills)

module _ (decode : String → Option FrontMatter) where
  -- The end of ParseSkillFile, on the front matter and what stands behind its closing line.
  unfoldable pub read_skill : String → String → Result SkillError Skill
  read_skill front_matter behind = elim (decode front_matter) [
    | none ↦ err skill_invalid
    | some fm ↦
        if fm.id == "" || fm.name == ""
        then err skill_invalid
        else ok (record {
          id = fm.id;
          name = fm.name;
          category = fm.category;
          description = fm.description;
          trigger = fm.trigger;
          content = trim_prefix "\n" behind;
          priority = fm.priority;
          enabled = fm.enabled;
          source = fm.source;
        })
  ]

  unfoldable pub parse_skill_file : String → Result SkillError Skill
  unfolding read_skill strip_prefix cut
  parse_skill_file content = elim (strip_prefix "---" content) [
    | none ↦ err skill_invalid
    | some rest ↦ elim (cut "\n---" rest) [
      | none ↦ err skill_invalid
      | some (front_matter, behind) ↦ read_skill front_matter behind
    ]
  ]
