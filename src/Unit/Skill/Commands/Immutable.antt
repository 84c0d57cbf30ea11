-- ===== src/Unit/Skill/Commands/Immutable.antt =====
-- What the skill commands (pkg/unit/skill/commands.go) leave of the builtin skills.
use ai_inference_managed_by.Base.{
  String, Bool, true, false, not, ◌&&◌, ◌≡◌, refl, ◌∙◌, List, [], ◌∷◌, Option, none, some, ◌==◌,
  arith, eq_iff, if◌then◌else◌, if-holds, Option-cases, Bool-cases, inl, inr,
}
use ai_inference_managed_by.Base.Map.{lookup, lookup-insert, lookup-delete}
use ai_inference_managed_by.Base.Text.{has_prefix}
use ai_inference_managed_by.Base.Result.{Result, ok, err}
use ai_inference_managed_by.Workflow.Types.{Value, Fields, scalar, text, array, object}
use ai_inference_managed_by.Unit.Execution.{Ending, get_string}
use ai_inference_managed_by.Unit.Skill.{
  Skill, FrontMatter, SkillStore, SkillError, source_builtin, add_skill, get_skill, remove_skill,
  update_skill, parse_skill_file,
}
use ai_inference_managed_by.Unit.Skill.Commands.{
  SkillSystem, SkillEvent, SkillCommand, add_command, remove_command, enable_command,
  disable_command, switched, settle_skill, source_of, place_skill, place_parsed, enabled_event,
  disabled_event, with_skill_map, switch_skill, drop_skill, add_from_map, build_skill_from_fields,
  execute_skill, execute_all_skills, execute_add, execute_remove, execute_enable, execute_disable,
}

-- Every skill stands under its own id.
abbrev pub IsKeyed : SkillStore → Type 0
IsKeyed s = (k : String) (sk : Skill) → lookup k s.skills ≡ some sk → sk.id ≡ k

-- A builtin skill, whether it is enabled left out.
abbrev pub builtin_part : Option Skill → Option Skill
builtin_part none = none
builtin_part (some sk) = if sk.source == source_builtin then some (switched true sk) else none

-- The builtin skill under each id.
abbrev pub builtins : SkillStore → String → Option Skill
builtins s k = builtin_part (lookup k s.skills)

-- The builtin skills are the same, and every skill still stands under its own id.
abbrev Kept : SkillStore → SkillStore → Type 0
Kept s t = ((k : String) → builtins t k ≡ builtins s k) × IsKeyed t

module _ (s : SkillStore) (keyed : IsKeyed s) where
  add_skill-Kept : (sk : Skill) → (sk.source == source_builtin) ≡ false → Kept s (add_skill sk s).1
  unfolding add_skill
  add_skill-Kept sk user = (
    (λ k. ground (arith, user, lookup-insert sk.id k sk s.skills, eq_iff sk.id k)),
    (λ k other found.
        ground (arith, found, lookup-insert sk.id k sk s.skills, eq_iff sk.id k, keyed k other)),
  )

  remove_skill-Kept : (id : String) → Kept s (remove_skill id s).1
  unfolding remove_skill
  remove_skill-Kept id = (
    (λ k. ground (arith, lookup-delete id k s.skills, eq_iff id k)),
    (λ k other found.
        ground (arith, found, lookup-delete id k s.skills, eq_iff id k, keyed k other)),
  )

  update_skill-Kept :
      (on : Bool) (id : String) (sk : Skill)
      → lookup id s.skills ≡ some sk
      → Kept s (update_skill (switched on sk) s).1
  unfolding update_skill
  update_skill-Kept on id sk found = (
    (λ k. ground (
      arith,
      found,
      keyed id sk found,
      lookup-insert sk.id k (switched on sk) s.skills,
      eq_iff sk.id k,
    )),
    (λ k other there. ground (
      arith,
      there,
      found,
      keyed id sk found,
      lookup-insert sk.id k (switched on sk) s.skills,
      eq_iff sk.id k,
      keyed k other,
    )),
  )

-- What `settle_skill` does to the store is what the call did.
settle_skill-Kept :
    (s : SkillStore) (context : String) (e : SkillEvent) (output : Value) (events : List SkillEvent)
    → (r : Option SkillError × SkillStore) → Kept s r.1
    → Kept s (settle_skill context e output events r).1.store
settle_skill-Kept s context e output events (none, t) h = h
settle_skill-Kept s context e output events (some problem, t) h = h

module _ (s : SkillSystem) (keyed : IsKeyed s.store) where
  unchanged : Kept s.store s.store
  unchanged = ((λ k. refl), keyed)

  place_skill-Kept :
      (fresh : String) (m : Fields) (sk : Skill) → Kept s.store (place_skill fresh m sk s).1.store
  unfolding place_skill
  place_skill-Kept fresh m sk = elim (Bool-cases (source_of m sk == source_builtin)) [
    | inl builtin ↦ rw builtin unchanged
    | inr user ↦
        rw user (settle_skill-Kept s.store _ _ _ s.events _ (add_skill-Kept s.store keyed _ user))
  ]

  drop_skill-Kept : (m : Fields) → Kept s.store (drop_skill m s).1.store
  unfolding drop_skill
  drop_skill-Kept m = elim (Bool-cases (get_string m "skill_id" == "")) [
    | inl e ↦ rw e unchanged
    | inr e ↦ rw e (
        settle_skill-Kept s.store _ _ _ s.events _
          (remove_skill-Kept s.store keyed (get_string m "skill_id")))
  ]

  switch_skill-Kept :
      (on : Bool) (context : String) (e : String → SkillEvent) (m : Fields)
      → Kept s.store (switch_skill on context e m s).1.store
  unfolding switch_skill get_skill
  switch_skill-Kept on context e m =
      let id = get_string m "skill_id" in
      elim (Bool-cases (id == "")) [
        | inl named ↦ rw named unchanged
        | inr named ↦ rw named (elim (Option-cases (lookup id s.store.skills)) [
          | inl missing ↦ rw missing unchanged
          | inr (sk, found) ↦ rw found (
              settle_skill-Kept s.store _ _ _ s.events _
                (update_skill-Kept s.store keyed on id sk found))
        ])
      ]

  place_parsed-Kept :
      (fresh : String) (m : Fields) (r : Result SkillError Skill)
      → Kept s.store (place_parsed fresh m s r).1.store
  place_parsed-Kept fresh m (err problem) = unchanged
  place_parsed-Kept fresh m (ok sk) = place_skill-Kept fresh m sk

  with_skill_map-Kept :
      (body : Fields → SkillSystem → Ending × SkillSystem)
      → ((m : Fields) → Kept s.store (body m s).1.store)
      → (input : Value) → Kept s.store (with_skill_map body input s).1.store
  with_skill_map-Kept body h (scalar x) = unchanged
  with_skill_map-Kept body h (text t) = unchanged
  with_skill_map-Kept body h (array vs) = unchanged
  with_skill_map-Kept body h (object m) = h m

  module _ (decode : String → Option FrontMatter) where
    add_from_map-Kept :
        (fresh : String) (m : Fields) → Kept s.store (add_from_map decode fresh m s).1.store
    unfolding add_from_map
    add_from_map-Kept fresh m =
        if-holds (λ (r : Ending × SkillSystem). Kept s.store r.1.store)
          (not (get_string m "name" == "")) _ _
          (place_skill-Kept fresh m (build_skill_from_fields m))
          (if-holds (λ (r : Ending × SkillSystem). Kept s.store r.1.store)
            (not (get_string m "content" == "") && has_prefix "---" (get_string m "content")) _ _
            (place_parsed-Kept fresh m (parse_skill_file decode (get_string m "content")))
            unchanged)

    execute_skill-Kept : (c : SkillCommand) → Kept s.store (execute_skill decode c s).1.store
    unfolding execute_add execute_remove execute_enable execute_disable
    execute_skill-Kept (add_command fresh input) =
        with_skill_map-Kept (add_from_map decode fresh) (add_from_map-Kept fresh) input
    execute_skill-Kept (remove_command input) = with_skill_map-Kept drop_skill drop_skill-Kept input
    execute_skill-Kept (enable_command input) =
        with_skill_map-Kept (switch_skill true "enable skill" enabled_event)
          (switch_skill-Kept true _ enabled_event) input
    execute_skill-Kept (disable_command input) =
        with_skill_map-Kept (switch_skill false "disable skill" disabled_event)
          (switch_skill-Kept false _ disabled_event) input

-- Where every skill stands under its own id, no sequence of skill commands, whatever their inputs, adds a builtin skill, removes one,
-- or changes anything of one but whether it is enabled; and every skill still stands under its own id.
pub execute_all_skills-builtins :
    (decode : String → Option FrontMatter) (cs : List SkillCommand) (s : SkillSystem)
    → IsKeyed s.store
    → ((k : String) → builtins (execute_all_skills decode cs s).store k ≡ builtins s.store k)
      × IsKeyed (execute_all_skills decode cs s).store
execute_all_skills-builtins decode [] s keyed = ((λ k. refl), keyed)
execute_all_skills-builtins decode (c ∷ cs) s keyed =
    let here = execute_skill-Kept s keyed decode c in
    let later = execute_all_skills-builtins decode cs (execute_skill decode c s).1 here.1 in
    ((λ k. later.0 k ∙ here.0 k), later.1)
