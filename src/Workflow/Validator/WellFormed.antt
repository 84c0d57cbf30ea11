-- ===== src/Workflow/Validator/WellFormed.antt =====
-- Validate of pkg/workflow/validator.go accepts exactly the well-formed definitions.
use ai_inference_managed_by.Workflow.Schedule.{All-both, find_step, All-found}
use ai_inference_managed_by.Base.{
  ap, All-imp, eq_refl, apart, All-intro, All-elem, ℕ, suc, ◌≡◌, ◌≢◌, ◌⊎◌, inl, inr, refl, String,
  Bool, true, false, not, ◌&&◌, List, [], ◌∷◌, Option, none, some, arith, elem, All, Nodup, eq_iff,
  Bool-cases, and_left, and_right, ◌∙◌, sym, ◌↔◌, subst,
}
use ai_inference_managed_by.Workflow.Validator.{
  circular, ValidationResult, validate_steps, validate_dependencies, check_parts, validate_var_ref,
  validate_variable_references, validate_output_references, validate, no_errors, extract_fields,
  validate_all_deps, add_error,
}
use mathlib.Core.Option
use mathlib.Core.Option.{some-injective}
use ai_inference_managed_by.Base.Map.{Map, lookup, insert, is_some, lookup-insert}
use ai_inference_managed_by.Workflow.Types.{fields_of, WorkflowStep, WorkflowDef}
use ai_inference_managed_by.Workflow.Dsl.{step_ids, is_empty}
use ai_inference_managed_by.Workflow.Refs.{split_dots}
use ai_inference_managed_by.Workflow.Cycles.{CycleError, detect_cycles}
use ai_inference_managed_by.Workflow.Cycles.Fuel.{detect_cycles_terminates}
use ai_inference_managed_by.Workflow.Cycles.Path.{IsClosed, HasCycle}
use ai_inference_managed_by.Workflow.Cycles.Verdict.{detect_cycles_iff}
use ai_inference_managed_by.Workflow.Validator.Accumulate.{
  all, step_ok, fresh_ids, dep_ok, ref_ok, validate_steps-Keeps, validate_all_deps-Keeps,
  validate_variable_references-Keeps, validate_output_references-Keeps,
}

-- A reference names the input, the configuration or a step that exists, and a part of it.
abbrev pub IsRefPath : List String → List String → Type 0
IsRefPath ids [] = ⊥
IsRefPath ids (source ∷ []) = ⊥
IsRefPath ids (source ∷ name ∷ rest) =
    (source ≡ "input") ⊎ (source ≡ "config") ⊎ ((source ≡ "steps") × (elem ids name ≡ true))

abbrev pub IsRef : List String → String → Type 0
IsRef ids ref = IsRefPath ids (split_dots "" ref)

pub record IsStep (ids : List String) (s : WorkflowStep) : Type 0 where
  pub has_id : s.id ≢ ""
  pub has_type : s.type ≢ ""
  pub on_failure :
      (s.on_failure ≡ "")
      ⊎ (s.on_failure ≡ "abort")
      ⊎ (s.on_failure ≡ "continue")
      ⊎ (s.on_failure ≡ "retry")
  pub deps : All (λ d. (elem ids d ≡ true) × (d ≢ s.id)) s.depends_on
  pub refs : All (IsRef ids) (extract_fields (fields_of s.input))

pub record IsWellFormed (def : WorkflowDef) : Type 0 where
  pub nonempty : def.steps ≢ []
  pub unique : Nodup (step_ids def.steps)
  pub steps : All (IsStep (step_ids def.steps)) def.steps
  pub acyclic : ¬ HasCycle def.steps
  pub output : All (IsRef (step_ids def.steps)) (extract_fields (fields_of def.output))

module _ {ℓ κ} {A : Type ℓ} (P : A → Type κ) (p : A → Bool) where
  All-of_all : ((x : A) → p x ≡ true → P x) → (xs : List A) → all p xs ≡ true → All P xs
  All-of_all f [] h = tt
  All-of_all f (x ∷ xs) h =
      (f x (and_left (p x) (all p xs) h), All-of_all f xs (and_right (p x) (all p xs) h))

  all_of_All : ((x : A) → P x → p x ≡ true) → (xs : List A) → All P xs → all p xs ≡ true
  all_of_All f [] h = refl
  all_of_All f (x ∷ xs) h = rw (f x h.0) (all_of_All f xs h.1)

check_parts_iff :
    (ids : List String) (ref : String) (parts : List String)
    → (not (is_some (check_parts ids ref parts)) ≡ true) ↔ IsRefPath ids parts
unfolding check_parts
check_parts_iff ids ref [] = ((λ h. absurd (cc)), (λ h. elim h [ ]))
check_parts_iff ids ref (source ∷ []) = ((λ h. absurd (cc)), (λ h. elim h [ ]))
check_parts_iff ids ref (source ∷ name ∷ rest) = (
  (λ h. ground (arith, eq_iff source "input", eq_iff source "config", eq_iff source "steps")),
  (λ h. ground (arith, eq_iff source "input", eq_iff source "config", eq_iff source "steps")),
)

ref_ok_iff : (ids : List String) (ref : String) → (ref_ok ids ref ≡ true) ↔ IsRef ids ref
unfolding validate_var_ref
ref_ok_iff ids ref = check_parts_iff ids ref (split_dots "" ref)

fresh_ids-Nodup :
    (seen : Map ℕ) (i : ℕ) (ss : List WorkflowStep)
    → fresh_ids seen i ss ≡ true
    → Nodup (step_ids ss) × All (λ k. is_some (lookup k seen) ≡ false) (step_ids ss)
fresh_ids-Nodup seen i [] h = (tt, tt)
fresh_ids-Nodup seen i (s ∷ ss) h =
    let r = fresh_ids-Nodup (insert s.id i seen) (suc i) ss (and_right _ _ h) in
    (
      (alone r.1, r.0),
      (
        ground arith,
        All-imp _ _ (step_ids ss) (λ k e. ground (arith, lookup-insert s.id k i seen)) r.1,
      ),
    )
  where
    alone :
        All (λ k. is_some (lookup k (insert s.id i seen)) ≡ false) (step_ids ss)
        → elem (step_ids ss) s.id ≡ false
    alone absent = elim (Bool-cases (elem (step_ids ss) s.id)) [
      | inr e ↦ e
      | inl e ↦
          let a = All-elem _ (step_ids ss) s.id absent e in
          absurd (ground (arith, a, lookup-insert s.id s.id i seen, eq_refl s.id))
    ]

Nodup-fresh_ids :
    (seen : Map ℕ) (i : ℕ) (ss : List WorkflowStep)
    → Nodup (step_ids ss)
    → All (λ k. is_some (lookup k seen) ≡ false) (step_ids ss)
    → fresh_ids seen i ss ≡ true
Nodup-fresh_ids seen i [] u h = refl
Nodup-fresh_ids seen i (s ∷ ss) u h = rw h.0 (
    Nodup-fresh_ids (insert s.id i seen) (suc i) ss u.1 (
      All-intro _ (step_ids ss) λ k e.
        let a = All-elem _ (step_ids ss) k h.1 e in
        ground (arith, a, lookup-insert s.id k i seen, apart (step_ids ss) s.id k u.0 e)))

step_ok_iff :
    (s : WorkflowStep)
    → (step_ok s ≡ true) ↔ (
        (s.id ≢ "")
        × (s.type ≢ "")
        × ((s.on_failure ≡ "")
            ⊎ (s.on_failure ≡ "abort")
            ⊎ (s.on_failure ≡ "continue")
            ⊎ (s.on_failure ≡ "retry")))
step_ok_iff s = (
  (λ h. ground (
    arith,
    eq_iff s.id "",
    eq_iff s.type "",
    eq_iff s.on_failure "",
    eq_iff s.on_failure "abort",
    eq_iff s.on_failure "continue",
    eq_iff s.on_failure "retry",
  )),
  (λ h. ground (
    arith,
    eq_iff s.id "",
    eq_iff s.type "",
    eq_iff s.on_failure "",
    eq_iff s.on_failure "abort",
    eq_iff s.on_failure "continue",
    eq_iff s.on_failure "retry",
  )),
)

-- What the flag says at the end, as one condition.
abbrev steps_ok : WorkflowDef → Bool
steps_ok def = not (is_empty def.steps) && all step_ok def.steps && fresh_ids [] 0 def.steps

abbrev deps_ok : WorkflowDef → Bool
deps_ok def = all (λ s. all (dep_ok (step_ids def.steps) s.id) s.depends_on) def.steps

abbrev inputs_ok : WorkflowDef → Bool
inputs_ok def =
    all (λ s. all (ref_ok (step_ids def.steps)) (extract_fields (fields_of s.input))) def.steps

abbrev output_ok : WorkflowDef → Bool
output_ok def = all (ref_ok (step_ids def.steps)) (extract_fields (fields_of def.output))

module _ (def : WorkflowDef) (found : Option CycleError) (e : detect_cycles def ≡ some found) where
  abbrev after_deps : ValidationResult
  after_deps = validate_all_deps (step_ids def.steps) def.steps (validate_steps def no_errors)

  abbrev after_cycles : ValidationResult
  after_cycles = elim found [ none ↦ after_deps | some c ↦ add_error (circular c) after_deps ]

  abbrev after_refs : ValidationResult
  after_refs = validate_variable_references (step_ids def.steps) def.steps after_cycles

  dependencies-eq : validate_dependencies def (validate_steps def no_errors) ≡ some after_cycles
  unfolding validate_dependencies
  dependencies-eq = ground (arith, e)

  validate-eq : validate def ≡ some (validate_output_references def after_refs)
  unfolding validate
  validate-eq =
      ap
        (Option.map (λ r.
          validate_output_references def
            (validate_variable_references (step_ids def.steps) def.steps r)))
        dependencies-eq

  after_cycles-valid : after_cycles.valid ≡ (after_deps.valid && not (is_some found))
  unfolding add_error
  after_cycles-valid = ground arith

  valid-eq :
      (validate_output_references def after_refs).valid
      ≡ (steps_ok def && deps_ok def && not (is_some found) && inputs_ok def && output_ok def)
  valid-eq =
      validate_output_references-Keeps def after_refs
      ∙ ground (
        arith,
        validate_variable_references-Keeps (step_ids def.steps) def.steps after_cycles,
        after_cycles-valid,
        validate_all_deps-Keeps (step_ids def.steps) def.steps (validate_steps def no_errors),
        validate_steps-Keeps def no_errors,
      )

-- The definition is accepted: there is a verdict, and its flag is set.
abbrev pub IsAccepted : WorkflowDef → Type 0
IsAccepted def = (r : ValidationResult) × (validate def ≡ some r) × (r.valid ≡ true)

and_parts :
    (a b c d e : Bool)
    → (a && b && c && d && e) ≡ true
    → (a ≡ true) × (b ≡ true) × (c ≡ true) × (d ≡ true) × (e ≡ true)
and_parts a b c d e h = ground arith

absent : (k : String) → is_some (lookup {V = ℕ} k []) ≡ false
unfolding lookup
absent k = refl

module _ (def : WorkflowDef) where
  pub deps-IsClosed :
      All (λ s. All (λ d. (elem (step_ids def.steps) d ≡ true) × (d ≢ s.id)) s.depends_on) def.steps
      → IsClosed def.steps
  deps-IsClosed h a b e =
      let here = All-found a _ def.steps e.step h e.found in
      find_step b def.steps (All-elem _ e.step.depends_on b here e.listed).0

  deps_of_All :
      deps_ok def ≡ true
      → All
          (λ s. All (λ d. (elem (step_ids def.steps) d ≡ true) × (d ≢ s.id)) s.depends_on)
          def.steps
  deps_of_All =
      All-of_all _ _ (λ s. All-of_all _ _ (λ d h. ground (arith, eq_iff d s.id)) s.depends_on)
        def.steps

  flag_of_deps :
      All (λ s. All (λ d. (elem (step_ids def.steps) d ≡ true) × (d ≢ s.id)) s.depends_on) def.steps
      → deps_ok def ≡ true
  flag_of_deps =
      all_of_All _ _ (λ s. all_of_All _ _ (λ d h. ground (arith, eq_iff d s.id)) s.depends_on)
        def.steps

  all_steps :
      all step_ok def.steps ≡ true
      → deps_ok def ≡ true
      → inputs_ok def ≡ true
      → All (IsStep (step_ids def.steps)) def.steps
  all_steps good deps inputs =
      All-imp _ _ def.steps
        (λ s h. record {
          has_id = h.0.0;
          has_type = h.0.1;
          on_failure = h.0.2;
          deps = h.1.0;
          refs = h.1.1;
        })
        (All-both _ _ def.steps (All-of_all _ _ (λ s. (step_ok_iff s).0) def.steps good) (
          All-both _ _ def.steps (deps_of_All deps) (
            All-of_all _ _
              (λ s.
                All-of_all _ _ (λ ref. (ref_ok_iff (step_ids def.steps) ref).0)
                  (extract_fields (fields_of s.input)))
              def.steps inputs)))

  -- An accepted definition is well-formed: it has steps, each with an id of its own and a type, a known
  -- failure mode or none, dependencies that exist and references to the input, the configuration or a
  -- step that exists, and no step depends on itself, directly or through others.
  pub validate-IsWellFormed : IsAccepted def → IsWellFormed def
  validate-IsWellFormed (r, run, good) = judge (detect_cycles_terminates def)
    where
      judge : ((found : Option CycleError) × (detect_cycles def ≡ some found)) → IsWellFormed def
      judge (found, e) =
          let same : r ≡ validate_output_references def (after_refs def found e) =
            some-injective r _ (sym run ∙ validate-eq def found e) in
          let flags =
            and_parts (steps_ok def) (deps_ok def) (not (is_some found)) (inputs_ok def)
              (output_ok def)
              (sym (valid-eq def found e)
                ∙ (subst (λ (x : ValidationResult). x.valid ≡ true) same good)) in
          let fresh = fresh_ids-Nodup [] 0 def.steps (ground (arith, flags.0)) in
          record {
            nonempty = λ z. ground (arith, flags.0);
            unique = fresh.0;
            steps = all_steps (ground (arith, flags.0)) flags.1 flags.3;
            acyclic =
                (detect_cycles_iff def fresh.0 (deps-IsClosed (deps_of_All flags.1))).0
                  (ground (arith, e, flags.2));
            output = All-of_all _ _ (λ ref. (ref_ok_iff (step_ids def.steps) ref).0) _ flags.4;
          }

  -- Every well-formed definition is accepted.
  pub validate-IsAccepted : IsWellFormed def → IsAccepted def
  validate-IsAccepted w = (_, validate-eq def none e, valid-eq def none e ∙ flags)
    where
      deps :
          All
            (λ s. All (λ d. (elem (step_ids def.steps) d ≡ true) × (d ≢ s.id)) s.depends_on)
            def.steps
      deps = All-imp _ _ def.steps (λ s h. h.deps) w.steps

      e : detect_cycles def ≡ some none
      e = (detect_cycles_iff def w.unique (deps-IsClosed deps)).1 w.acyclic

      nonempty_flag : (ss : List WorkflowStep) → ss ≢ [] → not (is_empty ss) ≡ true
      nonempty_flag [] h = absurd (h refl)
      nonempty_flag (s ∷ ss) h = refl

      steps_flag : all step_ok def.steps ≡ true
      steps_flag =
          all_of_All (IsStep (step_ids def.steps)) step_ok
            (λ s h. (step_ok_iff s).1 (h.has_id, h.has_type, h.on_failure)) def.steps w.steps

      fresh_flag : fresh_ids [] 0 def.steps ≡ true
      fresh_flag = Nodup-fresh_ids [] 0 def.steps w.unique (
          All-intro (λ k. is_some (lookup {V = ℕ} k []) ≡ false) (step_ids def.steps)
            (λ k h. absent k))

      deps_flag : deps_ok def ≡ true
      deps_flag = flag_of_deps deps

      inputs_flag : inputs_ok def ≡ true
      inputs_flag =
          all_of_All (IsStep (step_ids def.steps))
            (λ s. all (ref_ok (step_ids def.steps)) (extract_fields (fields_of s.input)))
            (λ s h.
              all_of_All (IsRef (step_ids def.steps)) (ref_ok (step_ids def.steps))
                (λ ref. (ref_ok_iff (step_ids def.steps) ref).1)
                (extract_fields (fields_of s.input)) h.refs)
            def.steps w.steps

      output_flag : output_ok def ≡ true
      output_flag =
          all_of_All (IsRef (step_ids def.steps)) (ref_ok (step_ids def.steps))
            (λ ref. (ref_ok_iff (step_ids def.steps) ref).1) (extract_fields (fields_of def.output))
            w.output

      flags :
          (steps_ok def
            && deps_ok def
            && not (is_some {A = CycleError} none)
            && inputs_ok def
            && output_ok def)
          ≡ true
      flags = rw (
        nonempty_flag def.steps w.nonempty,
        steps_flag,
        fresh_flag,
        deps_flag,
        inputs_flag,
        output_flag,
      )

-- There is a verdict on every definition.
pub validate_total : (def : WorkflowDef) → (r : ValidationResult) × (validate def ≡ some r)
validate_total def =
    let (found, e) = detect_cycles_terminates def in
    (validate_output_references def (after_refs def found e), validate-eq def found e)
