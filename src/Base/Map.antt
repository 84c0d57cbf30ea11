-- ===== src/Base/Map.antt =====
-- Go's `map[string]V` as an association list. Ranging over a map visits its entries in an order that
-- the runtime picks: here it is the list's order, and no theorem depends on which one it is.
use Prim.Native.Nat.{suc}
use Prim.Native.String.{String}
use mathlib.Core.Path.{◌≡◌, refl}
use mathlib.Core.Bool.{Bool, true, false, ◌||◌}
use mathlib.Core.Option.{Option, none, some}
use mathlib.Core.List.{List, [], ◌∷◌}
use native.Mathlib.Omega.{arith}
use text.Mathlib.Text.{◌==◌}
use text.Mathlib.TextEquality.{eq_iff}
use text.Mathlib.TextPositions.{eq_refl}
use ai_inference_managed_by.Base.Tests.{if◌then◌else◌}
use ai_inference_managed_by.Base.Lists.{length, elem, Nodup}

abbrev pub Map {ℓ} : Type ℓ → Type ℓ
Map V = List (String × V)

abbrev pub is_some {ℓ} : {A : Type ℓ} → Option A → Bool
is_some none = false
is_some (some a) = true

module _ {ℓ} {V : Type ℓ} where
  -- v, exists := m[k]
  unfoldable pub lookup : String → Map V → Option V
  lookup key [] = none
  lookup key ((own, v) ∷ rest) = if own == key then some v else lookup key rest

  -- m[k] = v
  unfoldable pub insert : String → V → Map V → Map V
  insert key v [] = (key, v) ∷ []
  insert key v ((own, w) ∷ rest) =
      if own == key then (own, v) ∷ rest else (own, w) ∷ insert key v rest

  -- delete(m, k)
  unfoldable pub delete : String → Map V → Map V
  delete k [] = []
  delete k ((j, w) ∷ m) = let rest = delete k m in if j == k then rest else (j, w) ∷ rest

  abbrev pub keys : Map V → List String
  keys [] = []
  keys ((j, w) ∷ m) = j ∷ keys m

  abbrev pub values : Map V → List V
  values [] = []
  values ((j, w) ∷ m) = w ∷ values m

  pub lookup-insert :
      (key other : String) (v : V) (m : Map V)
      → lookup other (insert key v m) ≡ (if key == other then some v else lookup other m)
  unfolding lookup insert
  lookup-insert key other v [] = refl
  lookup-insert key other v ((own, w) ∷ rest) =
      ground
        (arith, lookup-insert key other v rest, eq_iff own key, eq_iff own other, eq_iff key other)

  pub lookup-delete :
      (k j : String) (m : Map V) → lookup j (delete k m) ≡ (if k == j then none else lookup j m)
  unfolding lookup delete
  lookup-delete k j [] = ground arith
  lookup-delete k j ((i, w) ∷ m) =
      ground (arith, eq_iff k j, eq_iff i k, eq_iff i j, lookup-delete k j m)

  pub lookup-insert_self : (k : String) (v : V) (m : Map V) → lookup k (insert k v m) ≡ some v
  lookup-insert_self k v m = simp (lookup-insert, eq_refl)

  pub elem-keys : (k : String) (m : Map V) → elem (keys m) k ≡ is_some (lookup k m)
  unfolding lookup
  elem-keys k [] = refl
  elem-keys k ((j, w) ∷ m) = ground (arith, elem-keys k m)

  pub elem-keys-insert :
      (k j : String) (v : V) (m : Map V)
      → elem (keys (insert k v m)) j ≡ (k == j || elem (keys m) j)
  unfolding insert
  elem-keys-insert k j v [] = refl
  elem-keys-insert k j v ((i, w) ∷ m) =
      ground (arith, elem-keys-insert k j v m, eq_iff i k, eq_iff i j, eq_iff k j)

  pub elem-keys-delete :
      (k j : String) (m : Map V)
      → elem (keys (delete k m)) j ≡ (if k == j then false else elem (keys m) j)
  unfolding delete
  elem-keys-delete k j [] = ground arith
  elem-keys-delete k j ((i, w) ∷ m) =
      ground (arith, elem-keys-delete k j m, eq_iff i k, eq_iff i j, eq_iff k j)

  -- A Go map holds a key once.
  pub Nodup-keys-insert :
      (k : String) (v : V) (m : Map V) → Nodup (keys m) → Nodup (keys (insert k v m))
  unfolding insert
  Nodup-keys-insert k v [] h = (refl, tt)
  Nodup-keys-insert k v ((i, w) ∷ m) h =
      ground (arith, Nodup-keys-insert k v m h.1, elem-keys-insert k i v m, eq_iff k i, eq_iff i k)

  pub Nodup-keys-delete : (k : String) (m : Map V) → Nodup (keys m) → Nodup (keys (delete k m))
  unfolding delete
  Nodup-keys-delete k [] h = tt
  Nodup-keys-delete k ((i, w) ∷ m) h =
      ground (arith, Nodup-keys-delete k m h.1, elem-keys-delete k i m, eq_iff k i, eq_iff i k)

  pub length-insert :
      (k : String) (v : V) (m : Map V)
      → length (insert k v m) ≡ (if is_some (lookup k m) then length m else suc (length m))
  unfolding lookup insert
  length-insert k v [] = refl
  length-insert k v ((i, w) ∷ m) = ground (arith, length-insert k v m)

  delete-absent :
      (k : String) (m : Map V) → elem (keys m) k ≡ false → length (delete k m) ≡ length m
  unfolding delete
  delete-absent k [] h = refl
  delete-absent k ((i, w) ∷ m) h = ground (arith, delete-absent k m)

  pub length-delete :
      (k : String) (m : Map V)
      → Nodup (keys m)
      → length m ≡ (if is_some (lookup k m) then suc (length (delete k m)) else length (delete k m))
  unfolding lookup delete
  length-delete k [] h = refl
  length-delete k ((i, w) ∷ m) h =
      ground (arith, length-delete k m h.1, delete-absent k m, eq_iff i k)

pub ruleset map_laws = (lookup-insert, lookup-delete)
