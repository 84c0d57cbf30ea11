-- ===== src/Workflow/Validator/Occurs.antt =====
-- The references in the texts of a definition, told apart from the pass with which
-- pkg/workflow/validator.go finds them, and that Validate looks at every one of them.
use Prim.Native.Char.{Char, code}
use Prim.Native.String.{◌++◌ as append}
use package.text.Mathlib.TextLemmas.{nil-append, cons-append, append-nil, append_assoc}
use ai_inference_managed_by.Base.{
  eqb, ◌≡◌, ◌≢◌, refl, sym, subst, ap, ◌∙◌, String, true, false, List, [], ◌∷◌, ◌++◌, arith, elem,
  All, All-elem, All-imp, eq_refl, eq_iff,
}
use ai_inference_managed_by.Workflow.Types.{
  Value, scalar, text, array, object, Items, nil, cons, Fields, field, end, fields_of, WorkflowDef,
}
use ai_inference_managed_by.Workflow.Refs.{
  Piece, lit, ref, Mode, out, dollar, capture, validator_class, pieces, step, emit, refs_of,
}
use ai_inference_managed_by.Workflow.Dsl.{step_ids}
use ai_inference_managed_by.Workflow.Validator.{
  extract_variable_refs, extract_items, extract_fields,
}
use ai_inference_managed_by.Workflow.Validator.WellFormed.{
  IsRef, IsStep, IsWellFormed, IsAccepted, validate-IsWellFormed,
}

-- A text stands in a value, at any depth.
mutual
  pub data Stands (t : String) : Value → Type 0 where
    here : Stands t (text t)
    in_array : (xs : Items) → StandsItems t xs → Stands t (array xs)
    in_object : (fs : Fields) → StandsFields t fs → Stands t (object fs)

  pub data StandsItems (t : String) : Items → Type 0 where
    first : (x : Value) (xs : Items) → Stands t x → StandsItems t (cons x xs)
    later : (x : Value) (xs : Items) → StandsItems t xs → StandsItems t (cons x xs)

  pub data StandsFields (t : String) : Fields → Type 0 where
    at_key : (k : String) (x : Value) (fs : Fields) → Stands t x → StandsFields t (field k x fs)
    behind :
        (k : String) (x : Value) (fs : Fields) → StandsFields t fs → StandsFields t (field k x fs)

-- Letters, digits, underscores and dots.
abbrev pub IsName : String → Type 0
IsName String.[] = Unit
IsName (String.◌∷◌ c s) = (validator_class c ≡ true) × IsName s

-- The text has `${name}` somewhere.
abbrev pub HasRef : String → String → Type 0
HasRef name t =
    (before : String) × (after : String) × IsName name
    × (name ≢ "")
    × (t ≡ append before (append "${" (append name (append "}" after))))

module _ (name : String) where
  Found : List Piece → Type 0
  Found ps = elem (refs_of ps) name ≡ true

  Found-append : (qs ps : List Piece) → Found ps → Found (qs ++ ps)
  unfolding Found
  Found-append [] ps h = h
  Found-append (lit s ∷ qs) ps h = Found-append qs ps h
  Found-append (ref r ∷ qs) ps h = ground (arith, Found-append qs ps h)

  Find : Mode → String → Type 0
  Find mode t = Found (pieces validator_class mode t)

  -- One character further.
  Find-cons :
      (mode : Mode) (c : Char) (t : String)
      → Find (step validator_class mode c) t
      → Find mode (String.◌∷◌ c t)
  unfolding Find pieces
  Find-cons mode c t h = Found-append (emit validator_class mode c) _ h

  closes : (after : String) → name ≢ "" → Find (capture name) (String.◌∷◌ "}" after)
  unfolding Find pieces emit Found
  closes after ne = ground (arith, eq_iff name "", eq_refl name)

  no_brace : (c : Char) → validator_class c ≡ true → eqb (code c) b'}' ≡ false
  no_brace c h = ground arith

  name_step :
      (acc : String) (c : Char)
      → validator_class c ≡ true
      → step validator_class (capture acc) c ≡ capture (append acc (String.◌∷◌ c ""))
  unfolding step
  name_step acc c ok = rw (no_brace c ok, ok) refl

  captures :
      (acc rest after : String)
      → append acc rest ≡ name
      → IsName rest
      → name ≢ ""
      → Find (capture acc) (append rest (String.◌∷◌ "}" after))
  captures acc String.[] after same ok ne = rw nil-append (
      subst (λ a. Find (capture a) (String.◌∷◌ "}" after)) (sym same ∙ append-nil acc)
        (closes after ne))
  captures acc (String.◌∷◌ c s) after same ok ne =
      let longer : append (append acc (String.◌∷◌ c "")) s ≡ name =
        append_assoc acc (String.◌∷◌ c "") s
        ∙ ap (append acc) (cons-append c "" s ∙ ap (String.◌∷◌ c) (nil-append s))
        ∙ same in
      let go = captures (append acc (String.◌∷◌ c "")) s after longer ok.1 ne in
      rw cons-append (Find-cons (capture acc) c _ (rw (name_step acc c ok.0) go))

  -- A dollar sign starts again, whatever has been read.
  dollar_step : (mode : Mode) → step validator_class mode "$" ≡ dollar
  unfolding step
  dollar_step out = refl
  dollar_step dollar = refl
  dollar_step (capture acc) = refl

  opens : (mode : Mode) (rest : String) → Find (capture "") rest → Find mode (append "${" rest)
  unfolding step
  opens mode rest h =
      rw (cons-append "$" "{" rest, cons-append "{" "" rest, nil-append rest)
        (Find-cons mode "$" _ (rw (dollar_step mode) (Find-cons dollar "{" rest h)))

  finds :
      (mode : Mode) (before rest : String)
      → Find (capture "") rest
      → Find mode (append before (append "${" rest))
  finds mode String.[] rest h = rw nil-append (opens mode rest h)
  finds mode (String.◌∷◌ c s) rest h =
      rw cons-append (Find-cons mode c _ (finds (step validator_class mode c) s rest h))

  -- The pass over a text finds every reference that the text has.
  HasRef-found :
      (t : String) → HasRef name t → elem (refs_of (pieces validator_class out t)) name ≡ true
  unfolding Find Found
  HasRef-found t (before, after, ok, ne, same) = rw same (
      finds out before (append name (append "}" after)) (
        rw (cons-append "}" "" after, nil-append after)
          (captures "" name after (nil-append name) ok ne)))

elem-front : (k : String) (xs ys : List String) → elem xs k ≡ true → elem (xs ++ ys) k ≡ true
elem-front k [] ys h = absurd (cc)
elem-front k (x ∷ xs) ys h = ground (arith, elem-front k xs ys)

elem-back : (k : String) (xs ys : List String) → elem ys k ≡ true → elem (xs ++ ys) k ≡ true
elem-back k [] ys h = h
elem-back k (x ∷ xs) ys h = ground (arith, elem-back k xs ys h)

module _ (name t : String) (has : HasRef name t) where
  mutual
    unfolding extract_variable_refs

    Stands-found : (v : Value) → Stands t v → elem (extract_variable_refs v) name ≡ true
    Stands-found (scalar s) h = elim h [ ]
    Stands-found (text s) here = HasRef-found name t has
    Stands-found (array xs) (in_array _ h) = Items-found xs h
    Stands-found (object fs) (in_object _ h) = Fields-found fs h

    Items-found : (xs : Items) → StandsItems t xs → elem (extract_items xs) name ≡ true
    Items-found nil h = elim h [ ]
    Items-found (cons x xs) (first _ _ h) =
        elem-front name (extract_variable_refs x) (extract_items xs) (Stands-found x h)
    Items-found (cons x xs) (later _ _ h) =
        elem-back name (extract_variable_refs x) (extract_items xs) (Items-found xs h)

    Fields-found : (fs : Fields) → StandsFields t fs → elem (extract_fields fs) name ≡ true
    Fields-found end h = elim h [ ]
    Fields-found (field k x fs) (at_key _ _ _ h) =
        elem-front name (extract_variable_refs x) (extract_fields fs) (Stands-found x h)
    Fields-found (field k x fs) (behind _ _ _ h) =
        elem-back name (extract_variable_refs x) (extract_fields fs) (Fields-found fs h)

-- Every reference in a text of these fields is to the input, the configuration or a step of the list.
abbrev pub AreRefs : List String → Fields → Type 0
AreRefs ids fs = (t name : String) → StandsFields t fs → HasRef name t → IsRef ids name

AreRefs-of_All :
    (ids : List String) (fs : Fields) → All (IsRef ids) (extract_fields fs) → AreRefs ids fs
AreRefs-of_All ids fs h t name stands has =
    All-elem (IsRef ids) (extract_fields fs) name h (Fields-found name t has fs stands)

-- An accepted definition has steps, each with an id of its own and a type, a known failure mode or
-- none, and dependencies that exist, and no step depends on itself, directly or through others. Where
-- a text in the input of a step or in the output, at any depth of arrays and objects, has `${name}`
-- with a name of letters, digits, underscores and dots, the name is that of a part of the input, of
-- the configuration or of a step that exists. Other references, with a dash say, are not looked at.
pub validate_sound :
    (def : WorkflowDef)
    → IsAccepted def
    → IsWellFormed def
      × All (λ s. AreRefs (step_ids def.steps) (fields_of s.input)) def.steps
      × AreRefs (step_ids def.steps) (fields_of def.output)
validate_sound def a =
    let ids = step_ids def.steps in
    let w = validate-IsWellFormed def a in
    (
      w,
      All-imp (IsStep ids) _ def.steps (λ s h. AreRefs-of_All ids (fields_of s.input) h.refs)
          w.steps,
      AreRefs-of_All ids (fields_of def.output) w.output,
    )
