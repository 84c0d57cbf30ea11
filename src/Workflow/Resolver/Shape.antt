-- ===== src/Workflow/Resolver/Shape.antt =====
-- What resolution (pkg/workflow/resolver.go) keeps of a value: its shape, and all of it where no
-- text holds a reference.
use ai_inference_managed_by.Base.{◌≡◌, refl, String, List, [], ◌∷◌, arith, ℕ, suc}
use ai_inference_managed_by.Base.Result.{ok, >>=-eq-ok}
use ai_inference_managed_by.Workflow.Types.{
  Value, scalar, text, array, object, Items, nil, cons, Fields, end, field, ExecutionContext,
}
use ai_inference_managed_by.Workflow.Refs.{pieces, refs_of, resolver_class, out}
use ai_inference_managed_by.Workflow.Resolver.{
  resolve, resolve_array, resolve_map, in_context, in_key,
}

-- The keys, in order.
abbrev pub keys_of : Fields → List String
keys_of end = []
keys_of (field k v fs) = k ∷ keys_of fs

-- No text of the value holds a reference.
abbrev mutual
  pub IsPlain : Value → Type 0
  IsPlain (scalar s) = Unit
  IsPlain (text s) = refs_of (pieces resolver_class out s) ≡ []
  IsPlain (array xs) = IsPlainItems xs
  IsPlain (object fs) = IsPlainFields fs

  pub IsPlainItems : Items → Type 0
  IsPlainItems nil = Unit
  IsPlainItems (cons x xs) = IsPlain x × IsPlainItems xs

  pub IsPlainFields : Fields → Type 0
  IsPlainFields end = Unit
  IsPlainFields (field k v fs) = IsPlain v × IsPlainFields fs

module _ (ctx : ExecutionContext) (format : Value → String) where
  mutual
    unfolding resolve

    plain-Value : (v : Value) → IsPlain v → resolve ctx format v ≡ ok v
    plain-Value (scalar s) h = refl
    plain-Value (text s) h = rw h
    plain-Value (array xs) h = rw (plain-Items 0 xs h)
    plain-Value (object fs) h = rw (plain-Fields fs h)

    plain-Items : (i : ℕ) (xs : Items) → IsPlainItems xs → resolve_array ctx format i xs ≡ ok xs
    plain-Items i nil h = refl
    plain-Items i (cons x xs) h = rw (plain-Value x h.0, plain-Items (suc i) xs h.1)

    plain-Fields : (fs : Fields) → IsPlainFields fs → resolve_map ctx format fs ≡ ok fs
    plain-Fields end h = refl
    plain-Fields (field k v fs) h = rw (plain-Value v h.0, plain-Fields fs h.1)

  -- A value whose texts hold no reference is resolved to itself.
  pub resolve-plain : (v : Value) → IsPlain v → resolve ctx format v ≡ ok v
  resolve-plain = plain-Value

  -- A resolved map has the keys that it had, in the same order.
  pub keys-resolve_map :
      (fs gs : Fields) → resolve_map ctx format fs ≡ ok gs → keys_of gs ≡ keys_of fs
  unfolding resolve
  keys-resolve_map end gs h = ground arith
  keys-resolve_map (field k v fs) gs h =
      let (w, a, rest) = >>=-eq-ok (in_context (in_key k) (resolve ctx format v)) _ h in
      let (ws, b, last) = >>=-eq-ok (resolve_map ctx format fs) _ rest in
      ground (arith, keys-resolve_map fs ws b, last)
