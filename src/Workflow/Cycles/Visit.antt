-- ===== src/Workflow/Cycles/Visit.antt =====
-- The search of detectCycles (pkg/workflow/validator.go): what has left the recursion stack is a
-- schedule, and what stands on it leads to the step that is being visited.
use ai_inference_managed_by.Base.{
  eq_of_==, ◌||◌, eq_refl, elem-append, All-intro, ℕ, zero, suc, ◌≡◌, ◌⊎◌, String, Bool, true,
  false, List, [], ◌∷◌, ◌++◌, some, ◌==◌, if◌then◌else◌, arith, elem, eq_iff, Bool-cases,
  Option-cases, inl, inr, subst, sym,
}
use mathlib.Core.Option.{some-injective}
use ai_inference_managed_by.Base.Map.{Map, lookup}
use ai_inference_managed_by.Workflow.Types.{WorkflowStep}
use ai_inference_managed_by.Workflow.Dsl.{get_step_by_id}
use ai_inference_managed_by.Workflow.Schedule.{IsSchedule, IsSchedule-snoc}
use ai_inference_managed_by.Workflow.Cycles.{Search, flag, enter, leave, Outcome, visit_deps, visit}
use ai_inference_managed_by.Workflow.Cycles.Fuel.{flag-insert}
use ai_inference_managed_by.Workflow.Cycles.Path.{Edge, Reaches, one, more, IsClosed, HasCycle}

module _ (steps : List WorkflowStep) where
  -- `fin` lists the steps that have been left, in that order.
  pub record Valid (fin : List String) (st : Search) : Type 0 where
    pub schedule : IsSchedule steps [] fin
    pub settled :
        (k : String) → flag st.visited k ≡ true → flag st.rec_stack k ≡ false → elem fin k ≡ true
    pub stacked : (k : String) → flag st.rec_stack k ≡ true → flag st.visited k ≡ true

  -- What a visit that found no cycle leaves behind, with the flag of `id` on the stack.
  pub record Done (fin : List String) (st st' : Search) (id : String) (on : Bool) : Type 0 where
    pub fin' : List String
    pub valid : Valid fin' st'
    pub grown : (k : String) → elem fin k ≡ true → elem fin' k ≡ true
    pub same : (k : String) → flag st'.rec_stack k ≡ (if id == k then on else flag st.rec_stack k)
    pub here : elem fin' id ≡ true

  abbrev pub Judged : List String → Search → String → Bool → Bool × Search → Type 0
  Judged fin st id on (true, st') = HasCycle steps
  Judged fin st id on (false, st') = Done fin st st' id on

  abbrev pub Leads : Search → String → Type 0
  Leads st id = (k : String) → flag st.rec_stack k ≡ true → Reaches steps k id

  -- The contract of `dfs` at one fuel.
  abbrev pub Contract : (String → Search → Outcome) → Type 0
  Contract call =
      (dep : String) (fin : List String) (st : Search) (o : Bool × Search) (s : WorkflowStep)
      → get_step_by_id dep steps ≡ some s
      → Valid fin st
      → flag st.visited dep ≡ false
      → Leads st dep
      → call dep st ≡ some o
      → Judged fin st dep false o

  module _ (id : String) (s : WorkflowStep) (g : get_step_by_id id steps ≡ some s) where
    -- Leaving a step whose dependencies have all been left.
    leave-Done :
        (fin : List String) (st : Search)
        → Valid fin st
        → flag st.rec_stack id ≡ true
        → ((d : String) → elem s.depends_on d ≡ true → elem fin d ≡ true)
        → Done fin st (leave id st) id false
    unfolding leave
    leave-Done fin st v on deps = record {
      fin' = fin ++ id ∷ [];
      valid = record {
        schedule = IsSchedule-snoc steps [] fin id s v.schedule g (All-intro _ s.depends_on deps);
        settled = λ k a b. ground (
          arith,
          v.settled k,
          flag-insert id k false st.rec_stack,
          elem-append fin (id ∷ []) k,
          eq_iff id k,
        );
        stacked = λ k a. ground (arith, v.stacked k, flag-insert id k false st.rec_stack);
      };
      grown = λ k h. ground (arith, elem-append fin (id ∷ []) k);
      same = λ k. flag-insert id k false st.rec_stack;
      here = ground (arith, elem-append fin (id ∷ []) id, eq_refl id);
    }

    -- The stack while the dependencies of `id` are visited.
    abbrev Above : Search → Type 0
    Above st = (k : String) → flag st.rec_stack k ≡ true → (k ≡ id) ⊎ Reaches steps k id

    Edge-to : (dep : String) → elem s.depends_on dep ≡ true → Edge steps id dep
    Edge-to dep e = record { step = s; found = g; listed = e }

    Above-Leads : (st : Search) (dep : String) → Edge steps id dep → Above st → Leads st dep
    Above-Leads st dep e above k on = elim (above k on) [
      | inl eq ↦ subst (λ j. Reaches steps j dep) (sym eq) (one e)
      | inr r ↦ more r e
    ]

    -- The flag of `id` is set before and cleared after, and a call in between leaves the others.
    then_Done :
        (fin : List String) (st st1 st2 : Search) (dep : String)
        → flag st.rec_stack dep ≡ false
        → (d : Done fin st st1 dep false) → Done d.fin' st1 st2 id false
        → Done fin st st2 id false
    then_Done fin st st1 st2 dep off d e = record {
      fin' = e.fin';
      valid = e.valid;
      grown = λ k h. e.grown k (d.grown k h);
      same = λ k. ground (arith, e.same k, d.same k, eq_iff dep k, off);
      here = e.here;
    }

    then_Judged :
        (fin : List String) (st st1 : Search) (dep : String) (o : Bool × Search)
        → flag st.rec_stack dep ≡ false
        → (d : Done fin st st1 dep false) → Judged d.fin' st1 id false o
        → Judged fin st id false o
    then_Judged fin st st1 dep (true, st2) off d j = j
    then_Judged fin st st1 dep (false, st2) off d j = then_Done fin st st1 st2 dep off d j

    back :
        (dep : String)
        → (dep ≡ id) ⊎ Reaches steps dep id
        → elem s.depends_on dep ≡ true
        → HasCycle steps
    back dep (inl e) h = (id, one (Edge-to id (subst (λ j. elem s.depends_on j ≡ true) e h)))
    back dep (inr r) h = (dep, more r (Edge-to dep h))

    visit_deps-Judged :
        (call : String → Search → Outcome) (closed : IsClosed steps) (contract : Contract call)
        (deps fin : List String) (st : Search) (o : Bool × Search)
        → Valid fin st
        → flag st.rec_stack id ≡ true
        → Above st
        → ((d : String) → elem deps d ≡ true → elem s.depends_on d ≡ true)
        → ((d : String) → elem s.depends_on d ≡ true → (elem fin d || elem deps d) ≡ true)
        → visit_deps call id deps st ≡ some o
        → Judged fin st id false o
    unfolding visit_deps
    visit_deps-Judged call closed contract [] fin st o v on above sub cover e =
        subst (Judged fin st id false) (some-injective _ o e)
          (leave-Done fin st v on (λ d h. ground (arith, cover d h)))
    visit_deps-Judged call closed contract (dep ∷ deps) fin st o v on above sub cover e =
        elim (Bool-cases (flag st.visited dep)) [
          | inl old ↦ elim (Bool-cases (flag st.rec_stack dep)) [
            | inl r ↦
                subst (Judged fin st id false)
                  (some-injective (true, record st { cycle_path = st.cycle_path ++ dep ∷ [] }) o
                    (ground (arith, old, r, e)))
                  (back dep (above dep r) (sub dep (ground (arith, eq_refl dep))))
            | inr r ↦
                visit_deps-Judged call closed contract deps fin st o v on above
                  (λ d h. sub d (ground arith))
                  (λ d h. ground (arith, cover d h, v.settled dep old r, eq_iff dep d))
                  (ground (arith, old, r, e))
          ]
          | inr new ↦ elim (Option-cases (call dep st)) [
            | inl stop ↦ cc (rw (new, stop) at e)
            | inr ((true, st1), run) ↦
                let edge = Edge-to dep (sub dep (ground (arith, eq_refl dep))) in
                let (t, h) = closed id dep edge in
                subst (Judged fin st id false)
                  (some-injective (true, st1) o (ground (arith, new, run, e)))
                  (contract dep fin st (true, st1) t h v new (Above-Leads st dep edge above) run)
            | inr ((false, st1), run) ↦
                let edge = Edge-to dep (sub dep (ground (arith, eq_refl dep))) in
                let (t, h) = closed id dep edge in
                let d =
                  contract dep fin st (false, st1) t h v new (Above-Leads st dep edge above) run in
                let off : flag st.rec_stack dep ≡ false = ground (arith, v.stacked dep) in
                then_Judged fin st st1 dep o off d (
                  visit_deps-Judged call closed contract deps d.fin' st1 o d.valid
                    (ground (arith, d.same id, eq_iff dep id))
                    (λ k r. above k (ground (arith, d.same k))) (λ j h. sub j (ground arith))
                    (λ j h. ground (arith, cover j h, d.grown j, d.here, eq_iff dep j))
                    (ground (arith, new, run, e)))
          ]
        ]

  enter-Done :
      (fin : List String) (st st' : Search) (id : String)
      → Done fin (enter id st) st' id false
      → Done fin st st' id false
  unfolding enter
  enter-Done fin st st' id d = record {
    fin' = d.fin';
    valid = d.valid;
    grown = d.grown;
    same = λ k. ground (arith, d.same k, flag-insert id k true st.rec_stack);
    here = d.here;
  }

  enter-Judged :
      (fin : List String) (st : Search) (id : String) (o : Bool × Search)
      → Judged fin (enter id st) id false o
      → Judged fin st id false o
  enter-Judged fin st id (true, st') j = j
  enter-Judged fin st id (false, st') j = enter-Done fin st st' id j

  enter-Valid :
      (fin : List String) (st : Search) (id : String) → Valid fin st → Valid fin (enter id st)
  unfolding enter
  enter-Valid fin st id v = record {
    schedule = v.schedule;
    settled = λ k a b.
        ground (
          arith,
          v.settled k,
          flag-insert id k true st.visited,
          flag-insert id k true st.rec_stack,
        );
    stacked = λ k a.
        ground (
          arith,
          v.stacked k,
          flag-insert id k true st.visited,
          flag-insert id k true st.rec_stack,
        );
  }

  enter_on : (st : Search) (id : String) → flag (enter id st).rec_stack id ≡ true
  unfolding enter
  enter_on st id = ground (arith, flag-insert id id true st.rec_stack, eq_refl id)

  enter_above :
      (st : Search) (id k : String)
      → (flag st.rec_stack k ≡ true → Reaches steps k id)
      → flag (enter id st).rec_stack k ≡ true
      → (k ≡ id) ⊎ Reaches steps k id
  unfolding enter
  enter_above st id k leads h = elim (Bool-cases (id == k)) [
    | inl e ↦ inl (sym (eq_of_== id k e))
    | inr e ↦ inr (leads (ground (arith, flag-insert id k true st.rec_stack)))
  ]

  pub visit-Judged :
      (m : Map WorkflowStep) (closed : IsClosed steps)
      → ((k : String) → lookup k m ≡ get_step_by_id k steps)
      → (fuel : ℕ) → Contract (visit fuel m)
  unfolding visit
  visit-Judged m closed same zero dep fin st o s g v new leads e = absurd (cc)
  visit-Judged m closed same (suc fuel) dep fin st o s g v new leads e = enter-Judged fin st dep o (
      visit_deps-Judged dep s g (visit fuel m) closed (visit-Judged m closed same fuel) s.depends_on
        fin (enter dep st) o (enter-Valid fin st dep v) (enter_on st dep)
        (λ k. enter_above st dep k (leads k)) (λ d h. h) (λ d h. ground arith)
        (ground (arith, same dep, g, e)))
