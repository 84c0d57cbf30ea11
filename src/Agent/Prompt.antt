-- ===== src/Agent/Prompt.antt =====
-- The skills in the prompt that buildSystemPrompt of pkg/agent/agent.go makes.
use mathlib.Core.List.{Perm}
use ai_inference_managed_by.Base.{
  String, not, ◌&&◌, ◌≡◌, ◌∙◌, List, [], ◌∷◌, ◌++◌, elem, Nodup, arith, eq_iff, Bool-cases, inl,
  inr,
}
use ai_inference_managed_by.Base.Map.{keys, lookup}
use ai_inference_managed_by.Unit.Skill.{Skill, SkillStore}
use ai_inference_managed_by.Unit.Skill.Commands.Immutable.{IsKeyed}
use ai_inference_managed_by.Unit.Skill.Registry.{get_always_on_skills, match_skills}
use ai_inference_managed_by.Unit.Skill.Registry.Active.{ids, holds_of, is_active, elem-active}
use ai_inference_managed_by.Agent.{unseen, prompt_skills}

elem-unseen :
    (seen : List String) (xs : List Skill) (k : String)
    → elem (ids (unseen seen xs)) k ≡ (not (elem seen k) && elem (ids xs) k)
unfolding unseen
elem-unseen seen [] k = ground arith
elem-unseen seen (sk ∷ xs) k =
    ground (arith, elem-unseen seen xs k, elem-unseen (sk.id ∷ seen) xs k, eq_iff sk.id k)

Nodup-unseen : (seen : List String) (xs : List Skill) → Nodup (ids (unseen seen xs))
unfolding unseen
Nodup-unseen seen [] = tt
Nodup-unseen seen (sk ∷ xs) = elim (Bool-cases (elem seen sk.id)) [
  | inl old ↦ rw old (Nodup-unseen seen xs)
  | inr new ↦ rw new (
    ground (arith, elem-unseen (sk.id ∷ seen) xs sk.id, eq_iff sk.id sk.id),
    Nodup-unseen (sk.id ∷ seen) xs,
  )
]

-- With a sort that gives a permutation, and a store that has each id once and each skill under its own:
-- a prompt holds no skill twice, and it holds the skill under an id exactly when that skill is enabled and
-- always on or triggered by the message.
pub prompt_skills-active :
    (sort : List Skill → List Skill) (lower : String → String) (message : String) (s : SkillStore)
    → ((xs : List Skill) → Perm (sort xs) xs)
    → Nodup (keys s.skills)
    → IsKeyed s
    → Nodup (ids (prompt_skills sort lower message s))
      × ((k : String)
          → elem (ids (prompt_skills sort lower message s)) k
            ≡ holds_of (is_active lower message) (lookup k s.skills))
unfolding prompt_skills
prompt_skills-active sort lower message s sorts once keyed =
    let all = get_always_on_skills sort s ++ match_skills sort lower message [] s in
    (
      Nodup-unseen [] all,
      (λ k. elem-unseen [] all k ∙ elem-active sort lower message k s sorts once keyed),
    )
