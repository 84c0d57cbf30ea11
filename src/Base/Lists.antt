-- ===== src/Base/Lists.antt =====
-- Lists measured by native numbers, and lists of names with a Boolean membership test.
use Prim.Native.Nat.{ℕ, zero, suc, ◌+◌, ◌≤◌}
use Prim.Native.String.{String}
use mathlib.Core.Path.{◌≡◌, refl, subst}
use mathlib.Core.Bool.{Bool, true, false, ◌||◌}
use mathlib.Core.Logic.{inl, inr}
use mathlib.Core.List.{List, [], ◌∷◌, ◌++◌}
use native.Mathlib.Omega.{arith}
use text.Mathlib.Text.{◌==◌}
use text.Mathlib.TextEquality.{eq_iff}
use text.Mathlib.TextPositions.{eq_refl}
use ai_inference_managed_by.Base.Tests.{if◌then◌else◌, Bool-cases, eq_of_==}

module _ {ℓ} {A : Type ℓ} where
  abbrev pub length : List A → ℕ
  length [] = 0
  length (x ∷ xs) = suc (length xs)

  abbrev pub take : ℕ → List A → List A
  take zero xs = []
  take (suc n) [] = []
  take (suc n) (x ∷ xs) = x ∷ take n xs

  abbrev pub drop : ℕ → List A → List A
  drop zero xs = xs
  drop (suc n) [] = []
  drop (suc n) (x ∷ xs) = drop n xs

  abbrev pub All {κ} : (A → Type κ) → List A → Type κ
  All P [] = Unit
  All P (x ∷ xs) = P x × All P xs

  pub length-append : (xs ys : List A) → length (xs ++ ys) ≡ length xs + length ys
  length-append [] ys = omega arith
  length-append (x ∷ xs) ys = omega (arith, length-append xs ys)

module _ {ℓ κ} {A : Type ℓ} (P : A → Type κ) where
  pub All-append : (xs ys : List A) → All P xs → All P ys → All P (xs ++ ys)
  All-append [] ys hx hy = hy
  All-append (x ∷ xs) ys hx hy = (hx.0, All-append xs ys hx.1 hy)

  pub All-split : (xs ys : List A) → All P (xs ++ ys) → All P xs × All P ys
  All-split [] ys h = (tt, h)
  All-split (x ∷ xs) ys h = let r = All-split xs ys h.1 in ((h.0, r.0), r.1)

pub All-imp {ℓ κ μ} :
    {A : Type ℓ} (P : A → Type κ) (Q : A → Type μ) (xs : List A)
    → ((x : A) → P x → Q x)
    → All P xs
    → All Q xs
All-imp P Q [] f h = tt
All-imp P Q (x ∷ xs) f h = (f x h.0, All-imp P Q xs f h.1)

-- Is the name in the list?
abbrev pub elem : List String → String → Bool
elem [] k = false
elem (x ∷ xs) k = x == k || elem xs k

-- How often is the name in the list?
abbrev pub count : String → List String → ℕ
count k [] = 0
count k (x ∷ xs) = if x == k then suc (count k xs) else count k xs

abbrev pub Nodup : List String → Type 0
Nodup [] = Unit
Nodup (x ∷ xs) = (elem xs x ≡ false) × Nodup xs

pub elem-append : (xs ys : List String) (k : String) → elem (xs ++ ys) k ≡ (elem xs k || elem ys k)
elem-append [] ys k = refl
elem-append (x ∷ xs) ys k = ground (arith, elem-append xs ys k)

pub All-elem {κ} :
    (P : String → Type κ) (xs : List String) (k : String) → All P xs → elem xs k ≡ true → P k
All-elem P [] k h e = absurd (cc)
All-elem P (x ∷ xs) k h e = elim (Bool-cases (x == k)) [
  | inl eq ↦ subst P (eq_of_== x k eq) h.0
  | inr ne ↦ All-elem P xs k h.1 (ground arith)
]

pub Nodup-snoc :
    (xs : List String) (k : String) → Nodup xs → elem xs k ≡ false → Nodup (xs ++ k ∷ [])
Nodup-snoc [] k h e = (refl, tt)
Nodup-snoc (x ∷ xs) k h e = (
  ground (arith, elem-append xs (k ∷ []) x, eq_iff x k, eq_iff k x),
  Nodup-snoc xs k h.1 (ground arith),
)

-- The list without the first occurrence of a name.
abbrev pub remove : String → List String → List String
remove k [] = []
remove k (x ∷ xs) = let rest = remove k xs in if x == k then xs else x ∷ rest

pub length-remove :
    (k : String) (xs : List String) → elem xs k ≡ true → length xs ≡ suc (length (remove k xs))
length-remove k [] h = absurd (cc)
length-remove k (x ∷ xs) h = ground (arith, length-remove k xs)

pub elem-remove_ne :
    (k j : String) (xs : List String) → (k == j) ≡ false → elem (remove k xs) j ≡ elem xs j
elem-remove_ne k j [] h = refl
elem-remove_ne k j (x ∷ xs) h =
    ground (arith, elem-remove_ne k j xs h, eq_iff x k, eq_iff x j, eq_iff k j)

pub All-elem-remove :
    (k : String) (xs ys : List String)
    → elem xs k ≡ false
    → All (λ x. elem ys x ≡ true) xs
    → All (λ x. elem (remove k ys) x ≡ true) xs
All-elem-remove k [] ys n h = tt
All-elem-remove k (x ∷ xs) ys n h = (
  ground (arith, elem-remove_ne k x ys, eq_iff x k, eq_iff k x),
  All-elem-remove k xs ys (ground arith) h.1,
)

-- The pigeonhole principle.
pub length-le_of_subset :
    (xs ys : List String) → Nodup xs → All (λ x. elem ys x ≡ true) xs → length xs ≤ length ys
length-le_of_subset [] ys n h = omega arith
length-le_of_subset (x ∷ xs) ys n h = omega (
  arith,
  length-remove x ys h.0,
  length-le_of_subset xs (remove x ys) n.1 (All-elem-remove x xs ys n.0 h.1),
)

-- A property of every member holds of all.
pub All-intro {κ} :
    (P : String → Type κ) (xs : List String) → ((k : String) → elem xs k ≡ true → P k) → All P xs
All-intro P [] f = tt
All-intro P (x ∷ xs) f =
    (f x (ground (arith, eq_refl x)), All-intro P xs (λ k h. f k (ground arith)))

pub All-elem_self : (xs : List String) → All (λ k. elem xs k ≡ true) xs
All-elem_self xs = All-intro _ xs (λ k h. h)

-- A member differs from what is no member.
pub apart :
    (xs : List String) (k j : String) → elem xs k ≡ false → elem xs j ≡ true → (k == j) ≡ false
apart xs k j out has = elim (Bool-cases (k == j)) [
  | inr e ↦ e
  | inl e ↦ cc (out, has, eq_of_== k j e)
]

pub Nodup-middle :
    (xs : List String) (k : String) (ys : List String) → Nodup (xs ++ k ∷ ys) → elem xs k ≡ false
Nodup-middle [] k ys h = refl
Nodup-middle (x ∷ xs) k ys h =
    ground (arith, elem-append xs (k ∷ ys) x, Nodup-middle xs k ys h.1, eq_iff x k, eq_iff k x)
