-- ===== src/Workflow/Resolver.antt =====
-- VariableResolver of pkg/workflow/resolver.go. `format` stands for fmt.Sprintf("%v", …), whose text
-- for a value no theorem depends on.
pub mod Shape
use Prim.Native.String.{◌++◌ as append}
use ai_inference_managed_by.Base.{
  ℕ, suc, ◌≡◌, refl, String, Bool, true, false, not, ◌&&◌, ◌||◌, List, [], ◌∷◌, ◌==◌, Option, none,
  some, if◌then◌else◌,
}
use ai_inference_managed_by.Base.Result.{Result, ok, err, ◌>>=◌}
use ai_inference_managed_by.Base.Map.{Map, lookup}
use ai_inference_managed_by.Workflow.Types.{
  Value, scalar, text, array, object, Items, nil, cons, Fields, end, field, fields_of, WorkflowStep,
  ExecutionContext,
}
use ai_inference_managed_by.Workflow.Dsl.{is_empty}
use ai_inference_managed_by.Workflow.Refs.{
  refs_of, Piece, lit, ref, out, pieces, split_dots, resolver_class,
}

pub data ResolveError : Type 0 where
  invalid_reference : String → ResolveError
  invalid_steps_reference : String → ResolveError
  step_not_found : String → ResolveError
  unknown_source : String → ResolveError
  non_object : (key : String) → ResolveError
  key_not_found : (key : String) → ResolveError
  in_key : (key : String) → ResolveError → ResolveError
  in_index : ℕ → ResolveError → ResolveError
  in_step : (step_id : String) → ResolveError → ResolveError

-- fmt.Errorf("…: %w", err)
abbrev pub in_context :
    {A : Type 0} → (ResolveError → ResolveError) → Result ResolveError A → Result ResolveError A
in_context wrap (ok a) = ok a
in_context wrap (err e) = err (wrap e)

-- m[key]
unfoldable pub get_field : String → Fields → Option Value
get_field k end = none
get_field k (field j v fs) = if j == k then some v else get_field k fs

-- The loop of resolveFromMap, with `current` for the value that has been reached.
unfoldable pub walk : List String → Value → Result ResolveError Value
unfolding get_field
walk [] current = ok current
walk (key ∷ path) (object m) = elim (get_field key m) [
  | none ↦ err (key_not_found key)
  | some v ↦ walk path v
]
walk (key ∷ path) _ = err (non_object key)

-- resolveFromMap
unfoldable pub resolve_from_map : Fields → List String → Result ResolveError Value
unfolding walk
resolve_from_map m path = walk path (object m)

module _ (ctx : ExecutionContext) where
  -- resolveReference on the parts of the reference
  unfoldable pub resolve_parts : String → List String → Result ResolveError Value
  unfolding resolve_from_map
  resolve_parts whole [] = err (invalid_reference whole)
  resolve_parts whole (source ∷ path) =
      if source == "input"
      then resolve_from_map ctx.input path
      else if source == "config"
      then resolve_from_map ctx.config path
      else if source == "steps"
      then elim path [
        | [] ↦ err (invalid_steps_reference whole)
        | step_id ∷ rest ↦ elim (lookup step_id ctx.steps) [
          | none ↦ err (step_not_found step_id)
          | some output ↦ resolve_from_map output rest
        ]
      ]
      else err (unknown_source source)

  unfoldable pub resolve_reference : String → Result ResolveError Value
  unfolding resolve_parts split_dots
  resolve_reference whole = resolve_parts whole (split_dots "" whole)

  module _ (format : Value → String) where
    -- The loop that writes the text between the references and the values of these.
    unfoldable pub interpolate : String → List Piece → Result ResolveError String
    unfolding resolve_reference
    interpolate result [] = ok result
    interpolate result (lit s ∷ ps) = interpolate (append result s) ps
    interpolate result (ref r ∷ ps) = elim (resolve_reference r) [
      | ok v ↦ interpolate (append result (format v)) ps
      | err e ↦ err e
    ]

    -- resolveString on the pieces: a reference that is the whole text keeps its value's type.
    unfoldable pub resolve_pieces : List Piece → Result ResolveError Value
    unfolding interpolate
    resolve_pieces (ref r ∷ []) = resolve_reference r
    resolve_pieces ps = do s ← interpolate "" ps; ok (text s)

    unfoldable pub resolve_string : String → Result ResolveError Value
    unfolding resolve_pieces pieces
    resolve_string s =
        let ps = pieces resolver_class out s in
        if is_empty (refs_of ps) then ok (text s) else resolve_pieces ps

    unfoldable mutual
      unfolding resolve_string

      -- Resolve
      pub resolve : Value → Result ResolveError Value
      resolve (scalar s) = ok (scalar s)
      resolve (text s) = resolve_string s
      resolve (array xs) = do r ← resolve_array 0 xs; ok (array r)
      resolve (object fs) = do r ← resolve_map fs; ok (object r)

      pub resolve_array : ℕ → Items → Result ResolveError Items
      resolve_array i nil = ok nil
      resolve_array i (cons x xs) = do
        y ← in_context (in_index i) (resolve x)
        ys ← resolve_array (suc i) xs
        ok (cons y ys)

      pub resolve_map : Fields → Result ResolveError Fields
      resolve_map end = ok end
      resolve_map (field k v fs) = do
        w ← in_context (in_key k) (resolve v)
        ws ← resolve_map fs
        ok (field k w ws)

    -- ResolveStepInput
    unfoldable pub resolve_step_input : WorkflowStep → Result ResolveError Fields
    unfolding resolve
    resolve_step_input s = in_context (in_step s.id) (resolve_map (fields_of s.input))

    -- ResolveOutput
    unfoldable pub resolve_output : Option Fields → Result ResolveError Fields
    unfolding resolve
    resolve_output def = resolve_map (fields_of def)
