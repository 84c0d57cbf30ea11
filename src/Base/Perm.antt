-- ===== src/Base/Perm.antt =====
-- Permutations of lists of names.
use ai_inference_managed_by.Base.{
  subst, ◌≤◌, ◌≡◌, String, true, List, [], ◌∷◌, ◌==◌, arith, length, elem, Nodup, All, Bool-cases,
  eq_of_==, remove, length-remove, inl, inr, All-elem-remove, sym,
}
use mathlib.Core.List.{Perm, Mem, mem-cons_self, mem-cons_of_mem, not-mem-nil, mem-cons}
use mathlib.Core.Logic.Or
use mathlib.Core.List.Perm

-- Taking a member out and putting it in front only moves it.
remove-perm : (k : String) (xs : List String) → elem xs k ≡ true → Perm (k ∷ remove k xs) xs
remove-perm k [] h = absurd (cc)
remove-perm k (x ∷ xs) h = elim (Bool-cases (x == k)) [
  | inl e ↦ rw e (rw (eq_of_== x k e) Perm.rfl)
  | inr e ↦ rw e (Perm.trans (Perm.swap _ _ _) (Perm.cons x (remove-perm k xs (ground arith))))
]

-- A list without repetition that lies in another, no longer one is a permutation of it.
pub perm_of_subset :
    (xs ys : List String)
    → Nodup xs
    → All (λ x. elem ys x ≡ true) xs
    → length ys ≤ length xs
    → Perm xs ys
perm_of_subset [] [] n h le = Perm.rfl
perm_of_subset [] (y ∷ ys) n h le = absurd (omega arith)
perm_of_subset (x ∷ xs) ys n h le =
    Perm.trans
      (Perm.cons x (
        perm_of_subset xs (remove x ys) n.1 (All-elem-remove x xs ys n.0 h.1)
          (omega (arith, length-remove x ys h.0))))
      (remove-perm x ys h.0)

module _ {ℓ κ} {A : Type ℓ} (P : A → Type κ) where
  -- A property of each member holds of all, and the other way round.
  pub All-of_mem : (xs : List A) → ((x : A) → Mem x xs → P x) → All P xs
  All-of_mem [] f = tt
  All-of_mem (x ∷ xs) f = (f x mem-cons_self, All-of_mem xs (λ y m. f y (mem-cons_of_mem x m)))

  pub mem_of_All : ((x : A) → IsProp (P x)) → (xs : List A) → All P xs → (x : A) → Mem x xs → P x
  mem_of_All prop [] h x m = absurd (not-mem-nil m)
  mem_of_All prop (y ∷ ys) h x m =
      Or.elim (prop x) (mem-cons.0 m) (λ e. subst P (sym e) h.0) (mem_of_All prop ys h.1 x)

  -- A permutation keeps a property that all members have.
  pub All-of_perm : ((x : A) → IsProp (P x)) → (xs ys : List A) → Perm xs ys → All P ys → All P xs
  All-of_perm prop xs ys p h = All-of_mem xs (λ x m. mem_of_All prop ys h x (Perm.subset p x m))
