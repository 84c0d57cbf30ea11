-- ===== src/Unit/Page.antt =====
-- The window of a list that `ListPipelines` (pkg/unit/pipeline/store.go) and `ListAlerts`
-- (pkg/unit/alert/store.go) return: offset and limit are Go's int, 64 bits wide. A slice expression
-- out of bounds panics, which is `none`.
use ai_inference_managed_by.Base.{
  inr, inl, subst, Option-cases, All, ap, ℕ, zero, suc, ◌+◌, ◌-◌, ◌<◌, ◌≤◌, ◌≡◌, refl, List, [],
  ◌∷◌, Option, none, some, if◌then◌else◌, ltb, leb, length, take, drop, arith,
}
use ai_inference_managed_by.Base.Int.{ℤ, pos, negsuc}

-- One past the largest int.
abbrev pub int_limit : ℕ
int_limit = 9223372036854775808

-- end: offset + limit wraps round to a negative number, on which the slice panics
unfoldable pub page_end : ℕ → ℤ → ℕ → Option ℕ
page_end offset (negsuc n) total = some total
page_end offset (pos zero) total = some total
page_end offset (pos (suc n)) total =
    if leb int_limit (offset + suc n)
    then none
    else if ltb total (offset + suc n)
    then some total
    else some (offset + suc n)

difference : (i l : ℕ) → (i + suc l) - i ≡ suc l
difference i l = omega arith

module _ {A : Type 0} where
  -- xs[i:j]
  unfoldable pub slice : ℕ → ℕ → List A → Option (List A)
  slice i j xs =
      if ltb j i then none else if ltb (length xs) j then none else some (take (j - i) (drop i xs))

  unfoldable pub page : ℤ → ℤ → List A → Option (List A)
  unfolding slice page_end
  page (negsuc n) limit xs = none
  page (pos n) limit xs =
      let offset = if ltb (length xs) n then length xs else n in
      elim (page_end offset limit (length xs)) [ none ↦ none | some j ↦ slice offset j xs ]

  take_all : (n : ℕ) (xs : List A) → length xs ≤ n → take n xs ≡ xs
  take_all zero [] h = refl
  take_all zero (x ∷ xs) h = absurd (omega (arith, h))
  take_all (suc n) [] h = refl
  take_all (suc n) (x ∷ xs) h = ap (x ∷◌) (take_all n xs (omega (arith, h)))

  length-drop : (n : ℕ) (xs : List A) → length (drop n xs) ≡ length xs - n
  length-drop zero xs = omega arith
  length-drop (suc n) [] = omega arith
  length-drop (suc n) (x ∷ xs) = omega (arith, length-drop n xs)

  drop_all : (n : ℕ) (xs : List A) → length xs ≤ n → drop n xs ≡ []
  drop_all zero [] h = refl
  drop_all zero (x ∷ xs) h = absurd (omega (arith, h))
  drop_all (suc n) [] h = refl
  drop_all (suc n) (x ∷ xs) h = drop_all n xs (omega (arith, h))

  slice-rest : (i : ℕ) (xs : List A) → i ≤ length xs → slice i (length xs) xs ≡ some (drop i xs)
  unfolding slice
  slice-rest i xs h = ground (arith, h, take_all (length xs - i) (drop i xs), length-drop i xs)

  slice-window :
      (i l : ℕ) (xs : List A)
      → i + suc l ≤ length xs
      → slice i (i + suc l) xs ≡ some (take (suc l) (drop i xs))
  unfolding slice
  slice-window i l xs h = ground (arith, h, ap (λ k. take k (drop i xs)) (difference i l))

  take_nil : (n : ℕ) → take {A = A} n [] ≡ []
  take_nil zero = refl
  take_nil (suc n) = refl

  -- Without a positive limit, the page is what follows the first `n` entries.
  pub page-unlimited :
      (n m : ℕ) (xs : List A)
      → page (pos n) (pos 0) xs ≡ some (drop n xs) × page (pos n) (negsuc m) xs ≡ some (drop n xs)
  unfolding page page_end
  page-unlimited n m xs = (
    ground
        (arith, slice-rest n xs, slice-rest (length xs) xs, drop_all (length xs) xs, drop_all n xs),
    ground
        (arith, slice-rest n xs, slice-rest (length xs) xs, drop_all (length xs) xs, drop_all n xs),
  )

  -- With a limit and no overflow, the page is the first `suc l` of what follows the first `n`.
  pub page-limited :
      (n l : ℕ) (xs : List A)
      → length xs + suc l < int_limit
      → page (pos n) (pos (suc l)) xs ≡ some (take (suc l) (drop n xs))
  unfolding page page_end
  page-limited n l xs h = ground (
    arith,
    h,
    slice-window n l xs,
    slice-rest n xs,
    slice-rest (length xs) xs,
    drop_all (length xs) xs,
    drop_all n xs,
    length-drop n xs,
    take_all (suc l) (drop n xs),
    take_nil (suc l),
  )

module _ {A : Type 0} (P : A → Type 0) where
  All-take : (n : ℕ) (xs : List A) → All P xs → All P (take n xs) × length (take n xs) ≤ length xs
  All-take zero xs h = (tt, omega arith)
  All-take (suc n) [] h = (tt, omega arith)
  All-take (suc n) (x ∷ xs) h = let r = All-take n xs h.1 in ((h.0, r.0), omega (arith, r.1))

  All-drop : (n : ℕ) (xs : List A) → All P xs → All P (drop n xs) × length (drop n xs) ≤ length xs
  All-drop zero xs h = (h, omega arith)
  All-drop (suc n) [] h = (tt, omega arith)
  All-drop (suc n) (x ∷ xs) h = let r = All-drop n xs h.1 in (r.0, omega (arith, r.1))

  slice-All :
      (i j : ℕ) (xs window : List A)
      → slice i j xs ≡ some window
      → All P xs
      → All P window × length window ≤ length xs
  unfolding slice
  slice-All i j xs window e h =
      let d = All-drop i xs h in
      let t = All-take (j - i) (drop i xs) d.0 in
      let same : take (j - i) (drop i xs) ≡ window = ground (arith, e) in
      subst (λ w. All P w × length w ≤ length xs) same (t.0, omega (arith, t.1, d.1))

  -- What holds of every entry holds of those on a page, and these are no more than all.
  pub page-All :
      (offset limit : ℤ) (xs window : List A)
      → page offset limit xs ≡ some window
      → All P xs
      → All P window × length window ≤ length xs
  unfolding page
  page-All (negsuc n) limit xs window e h = absurd (cc)
  page-All (pos n) limit xs window e h =
      let offset = if ltb (length xs) n then length xs else n in
      elim (Option-cases (page_end offset limit (length xs))) [
        | inl none_e ↦ absurd (ground (arith, none_e))
        | inr (j, some_e) ↦ slice-All offset j xs window (ground (arith, some_e)) h
      ]
