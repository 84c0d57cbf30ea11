-- ===== src/Unit/Skill/Registry/Active.antt =====
-- Which skills come into the prompt of a message (pkg/unit/skill/registry.go and buildSystemPrompt of pkg/agent/agent.go).
use mathlib.Core.Path.{ap₂}
use mathlib.Core.List.{Perm}
use mathlib.Core.List.Perm
use ai_inference_managed_by.Base.{
  String, Bool, false, ◌&&◌, ◌||◌, ◌≡◌, refl, ◌∙◌, sym, ap, List, [], ◌∷◌, ◌++◌, Option, none, some,
  ◌==◌, elem, Nodup, All, arith, eq_iff, eq_refl, if◌then◌else◌, Bool-cases, inl, inr,
}
use ai_inference_managed_by.Base.Map.{Map, lookup, keys, values, elem-keys}
use ai_inference_managed_by.Base.Perm.{All-of_perm}
use ai_inference_managed_by.Unit.Page.{page-unlimited}
use ai_inference_managed_by.Unit.Skill.{Skill, SkillStore, list_skills, select_skills}
use ai_inference_managed_by.Unit.Skill.Commands.Immutable.{IsKeyed}
use ai_inference_managed_by.Unit.Skill.Registry.{
  enabled_skills, enabled_list, always_on_skills, triggered_skills, is_triggered,
  get_always_on_skills, match_skills,
}

abbrev pub ids : List Skill → List String
ids [] = []
ids (sk ∷ skills) = sk.id ∷ ids skills

abbrev chosen : (Skill → Bool) → List Skill → List Skill
chosen p [] = []
chosen p (sk ∷ more) = let rest = chosen p more in if p sk then sk ∷ rest else rest

abbrev pub holds_of : (Skill → Bool) → Option Skill → Bool
holds_of p none = false
holds_of p (some sk) = p sk

enabled_list-eq : (s : SkillStore) → enabled_list s ≡ select_skills enabled_skills (values s.skills)
unfolding enabled_list list_skills
enabled_list-eq s =
    ground (arith, (page-unlimited 0 0 (select_skills enabled_skills (values s.skills))).0)

always_on-chosen :
    (xs : List Skill)
    → always_on_skills (select_skills enabled_skills xs)
      ≡ chosen (λ sk. sk.enabled && sk.trigger.always_on) xs
unfolding select_skills
always_on-chosen [] = refl
always_on-chosen (sk ∷ xs) = ground (arith, always_on-chosen xs)

triggered-chosen :
    (lower : String → String) (message : String) (tools : List String) (xs : List Skill)
    → triggered_skills lower message tools (select_skills enabled_skills xs)
      ≡ chosen (λ sk. sk.enabled && is_triggered lower message tools sk) xs
unfolding select_skills
triggered-chosen lower message tools [] = refl
triggered-chosen lower message tools (sk ∷ xs) =
    ground (arith, triggered-chosen lower message tools xs)

-- In a map that has each key once and every skill under its own id, the ids of the chosen skills are
-- those that lead to a skill that is chosen.
elem-chosen :
    (p : Skill → Bool) (m : Map Skill) (k : String)
    → Nodup (keys m)
    → All (λ e. e.1.id ≡ e.0) m
    → elem (ids (chosen p (values m))) k ≡ holds_of p (lookup k m)
unfolding lookup
elem-chosen p [] k once own = refl
elem-chosen p ((i, sk) ∷ m) k once own =
    ground (arith, elem-chosen p m k once.1 own.1, elem-keys k m, eq_iff i k, own.0, once.0)

elem-ids-All :
    (xs : List Skill) (k : String) → elem (ids xs) k ≡ false → All (λ sk. (sk.id == k) ≡ false) xs
elem-ids-All [] k h = tt
elem-ids-All (sk ∷ xs) k h = (ground arith, elem-ids-All xs k (ground arith))

All-elem-ids :
    (xs : List Skill) (k : String) → All (λ sk. (sk.id == k) ≡ false) xs → elem (ids xs) k ≡ false
All-elem-ids [] k h = refl
All-elem-ids (sk ∷ xs) k h = ground (arith, h.0, All-elem-ids xs k h.1)

elem-ids-perm : (xs ys : List Skill) (k : String) → Perm xs ys → elem (ids xs) k ≡ elem (ids ys) k
elem-ids-perm xs ys k p = elim (Bool-cases (elem (ids ys) k)) [
  | inr out ↦
      All-elem-ids xs k (All-of_perm _ (λ sk. hlevel) xs ys p (elem-ids-All ys k out)) ∙ sym out
  | inl has ↦ elim (Bool-cases (elem (ids xs) k)) [
    | inl also ↦ also ∙ sym has
    | inr out ↦ cc (
        All-elem-ids ys k
          (All-of_perm _ (λ sk. hlevel) ys xs (Perm.symm p) (elem-ids-All xs k out)))
  ]
]

pub elem-ids-append :
    (xs ys : List Skill) (k : String)
    → elem (ids (xs ++ ys)) k ≡ (elem (ids xs) k || elem (ids ys) k)
elem-ids-append [] ys k = refl
elem-ids-append (sk ∷ xs) ys k = ground (arith, elem-ids-append xs ys k)

own_ids :
    (m : Map Skill)
    → Nodup (keys m)
    → ((k : String) (sk : Skill) → lookup k m ≡ some sk → sk.id ≡ k)
    → All (λ e. e.1.id ≡ e.0) m
unfolding lookup
own_ids [] once keyed = tt
own_ids ((i, sk) ∷ m) once keyed = (
  keyed i sk (ground (arith, eq_refl i)),
  own_ids m once.1
      (λ k other found. keyed k other (ground (arith, found, elem-keys k m, eq_iff i k, once.0))),
)

-- What makes a skill come into the prompt.
abbrev pub is_active : (String → String) → String → Skill → Bool
is_active lower message sk =
    sk.enabled && (sk.trigger.always_on || is_triggered lower message [] sk)

holds_of-or :
    (lower : String → String) (message : String) (o : Option Skill)
    → (holds_of (λ sk. sk.enabled && sk.trigger.always_on) o
        || holds_of (λ sk. sk.enabled && is_triggered lower message [] sk) o)
      ≡ holds_of (is_active lower message) o
holds_of-or lower message none = refl
holds_of-or lower message (some sk) = ground arith

-- With a sort that gives a permutation, an id is that of a skill that is always on or triggered exactly when the store has an active skill
-- under it.
pub elem-active :
    (sort : List Skill → List Skill) (lower : String → String) (message k : String) (s : SkillStore)
    → ((xs : List Skill) → Perm (sort xs) xs)
    → Nodup (keys s.skills)
    → IsKeyed s
    → elem (ids (get_always_on_skills sort s ++ match_skills sort lower message [] s)) k
      ≡ holds_of (is_active lower message) (lookup k s.skills)
unfolding get_always_on_skills match_skills
elem-active sort lower message k s sorts once keyed =
    let own = own_ids s.skills once keyed in
    let on = λ (sk : Skill). sk.enabled && sk.trigger.always_on in
    let hit = λ (sk : Skill). sk.enabled && is_triggered lower message [] sk in
    elem-ids-append (sort (always_on_skills (enabled_list s)))
      (sort (triggered_skills lower message [] (enabled_list s))) k
    ∙ ap₂ ◌||◌
        (elem-ids-perm _ _ k (sorts (always_on_skills (enabled_list s)))
          ∙ ap (λ xs. elem (ids (always_on_skills xs)) k) (enabled_list-eq s)
          ∙ ap (λ xs. elem (ids xs) k) (always_on-chosen (values s.skills))
          ∙ elem-chosen on s.skills k once own)
        (elem-ids-perm _ _ k (sorts (triggered_skills lower message [] (enabled_list s)))
          ∙ ap (λ xs. elem (ids (triggered_skills lower message [] xs)) k) (enabled_list-eq s)
          ∙ ap (λ xs. elem (ids xs) k) (triggered-chosen lower message [] (values s.skills))
          ∙ elem-chosen hit s.skills k once own)
    ∙ holds_of-or lower message (lookup k s.skills)
