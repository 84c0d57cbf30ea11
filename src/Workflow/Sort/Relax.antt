-- ===== src/Workflow/Sort/Relax.antt =====
-- What one round of TopologicalSort (pkg/workflow/validator.go) does to the in-degrees and the queue,
-- where the step ids differ: it takes the edges of one id away.
use ai_inference_managed_by.Base.{
  ℕ, suc, ◌+◌, ◌≡◌, refl, String, true, false, List, [], ◌∷◌, ◌++◌, ◌==◌, arith, if◌then◌else◌, All,
  elem, count, Nodup, eq_iff, eqb, eq_refl, elem-append, subst, apart, or_left, or_right, ◌∙◌,
}
use ai_inference_managed_by.Base.Int.{pos, pred_ℤ}
use ai_inference_managed_by.Workflow.Types.{WorkflowStep}
use ai_inference_managed_by.Workflow.Dsl.{step_ids}
use ai_inference_managed_by.Workflow.Sort.{Frontier, degree, relax_dep, relax_deps, relax_steps}
use ai_inference_managed_by.Workflow.Sort.Fuel.{degree-insert}

-- The dependencies that are not done yet, each as often as it is listed.
abbrev pub remaining : List String → List String → ℕ
remaining done [] = 0
remaining done (d ∷ ds) = if elem done d then remaining done ds else suc (remaining done ds)

pub remaining-snoc :
    (done : List String) (id : String) (deps : List String)
    → elem done id ≡ false
    → remaining done deps ≡ remaining (done ++ id ∷ []) deps + count id deps
remaining-snoc done id [] h = refl
remaining-snoc done id (d ∷ ds) h =
    ground
      (arith, remaining-snoc done id ds h, elem-append done (id ∷ []) d, eq_iff id d, eq_iff d id)

split_count :
    (id d : String) (ds : List String) (n : ℕ)
    → n + count id (d ∷ ds) ≡ (if d == id then suc (n + count id ds) else n + count id ds)
split_count id d ds n = ground arith

module _ (base : List String) where
  -- The degree of an id is `n`, and the id is done or queued exactly if that is zero.
  pub record Tracks (k : String) (n : ℕ) (f : Frontier) : Type 0 where
    pub degree_eq : degree f.in_degree k ≡ pos n
    pub elem_eq : elem (base ++ f.queue) k ≡ eqb n 0

  -- An id on which two frontiers agree.
  pub record Same (k : String) (f g : Frontier) : Type 0 where
    pub degree_eq : degree g.in_degree k ≡ degree f.in_degree k
    pub elem_eq : elem (base ++ g.queue) k ≡ elem (base ++ f.queue) k

  pub Tracks-Same : {k : String} {n : ℕ} {f g : Frontier} → Same k f g → Tracks k n f → Tracks k n g
  Tracks-Same s t = record {
    degree_eq = s.degree_eq ∙ t.degree_eq;
    elem_eq = s.elem_eq ∙ t.elem_eq;
  }

  pub Same-trans : {k : String} {f g h : Frontier} → Same k f g → Same k g h → Same k f h
  Same-trans s t = record { degree_eq = t.degree_eq ∙ s.degree_eq; elem_eq = t.elem_eq ∙ s.elem_eq }

  relax_dep-Same :
      (id sid dep k : String) (f : Frontier)
      → (sid == k) ≡ false
      → Same k f (relax_dep id sid dep f)
  unfolding relax_dep
  relax_dep-Same id sid dep k f ne = ground (
    arith,
    degree-insert sid k (pred_ℤ (degree f.in_degree sid)) f.in_degree,
    elem-append base f.queue k,
    elem-append base (f.queue ++ sid ∷ []) k,
    elem-append f.queue (sid ∷ []) k,
  )

  relax_deps-Same :
      (id sid : String) (deps : List String) (k : String) (f : Frontier)
      → (sid == k) ≡ false
      → Same k f (relax_deps id sid deps f)
  unfolding relax_deps
  relax_deps-Same id sid [] k f ne = record { degree_eq = refl; elem_eq = refl }
  relax_deps-Same id sid (d ∷ ds) k f ne =
      Same-trans (relax_dep-Same id sid d k f ne)
        (relax_deps-Same id sid ds k (relax_dep id sid d f) ne)

  relax_dep-Tracks :
      (id sid dep : String) (n : ℕ) (f : Frontier)
      → Tracks sid (if dep == id then suc n else n) f
      → Tracks sid n (relax_dep id sid dep f)
  unfolding relax_dep
  relax_dep-Tracks id sid dep n f t = ground (
    arith,
    eq_refl sid,
    degree-insert sid sid (pred_ℤ (degree f.in_degree sid)) f.in_degree,
    elem-append base f.queue sid,
    elem-append base (f.queue ++ sid ∷ []) sid,
    elem-append f.queue (sid ∷ []) sid,
  )

  relax_deps-Tracks :
      (id sid : String) (deps : List String) (n : ℕ) (f : Frontier)
      → Tracks sid (n + count id deps) f
      → Tracks sid n (relax_deps id sid deps f)
  unfolding relax_deps
  relax_deps-Tracks id sid [] n f t = subst (λ m. Tracks sid m f) (omega arith) t
  relax_deps-Tracks id sid (d ∷ ds) n f t = relax_deps-Tracks id sid ds n (relax_dep id sid d f) (
      relax_dep-Tracks id sid d (n + count id ds) f
        (subst (λ m. Tracks sid m f) (split_count id d ds n) t))

  -- Steps that are not `k` leave `k` alone.
  relax_steps-Same :
      (id : String) (ss : List WorkflowStep) (k : String) (f : Frontier)
      → elem (step_ids ss) k ≡ false
      → Same k f (relax_steps id ss f)
  unfolding relax_steps
  relax_steps-Same id [] k f ne = record { degree_eq = refl; elem_eq = refl }
  relax_steps-Same id (s ∷ ss) k f ne =
      Same-trans (relax_deps-Same id s.id s.depends_on k f (or_left _ _ ne))
        (relax_steps-Same id ss k (relax_deps id s.id s.depends_on f) (or_right _ _ ne))

  Tracks-All-Same :
      (r : WorkflowStep → ℕ) (ss : List WorkflowStep) (f g : Frontier)
      → ((k : String) → elem (step_ids ss) k ≡ true → Same k f g)
      → All (λ s. Tracks s.id (r s) f) ss
      → All (λ s. Tracks s.id (r s) g) ss
  Tracks-All-Same r [] f g same h = tt
  Tracks-All-Same r (s ∷ ss) f g same h = (
    Tracks-Same (same s.id (ground (arith, eq_refl s.id))) h.0,
    Tracks-All-Same r ss f g (λ k e. same k (ground arith)) h.1,
  )

  -- One round over all steps takes the edges of `id` off every step's count.
  pub relax_steps-Tracks :
      (id : String) (r : WorkflowStep → ℕ) (ss : List WorkflowStep) (f : Frontier)
      → Nodup (step_ids ss)
      → All (λ s. Tracks s.id (r s + count id s.depends_on) f) ss
      → All (λ s. Tracks s.id (r s) (relax_steps id ss f)) ss
  unfolding relax_steps
  relax_steps-Tracks id r [] f n h = tt
  relax_steps-Tracks id r (s ∷ ss) f n h = (
    Tracks-Same (relax_steps-Same id ss s.id next n.0)
        (relax_deps-Tracks id s.id s.depends_on (r s) f h.0),
    relax_steps-Tracks id r ss next n.1 (Tracks-All-Same _ ss f next others h.1),
  )
    where
      next : Frontier
      next = relax_deps id s.id s.depends_on f

      others : (k : String) → elem (step_ids ss) k ≡ true → Same k f next
      others k e = relax_deps-Same id s.id s.depends_on k f (apart (step_ids ss) s.id k n.0 e)
