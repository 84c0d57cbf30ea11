-- ===== src/Workflow/Refs.antt =====
-- Variable references `${…}` in texts: the two patterns of pkg/workflow/resolver.go (varPattern) and
-- pkg/workflow/validator.go (varRefPattern), and strings.Split at the dots.
-- A pattern is read by one pass over the text: `${`, then characters of a class, at least one, then
-- `}`. Neither class holds `}`, and a failed attempt goes on at the character where it failed, which
-- loses no match: the validator's class has no `$`, and the resolver's fails only at `${}`.
use Prim.Native.Char.{Char, code}
use Prim.Native.String.{◌++◌ as append}
use ai_inference_managed_by.Base.{
  ℕ, ◌≡◌, refl, String, Bool, true, false, not, ◌&&◌, ◌||◌, List, [], ◌∷◌, ◌++◌, ◌==◌, leb, eqb,
  if◌then◌else◌,
}

pub data Piece : Type 0 where
  lit : String → Piece
  ref : String → Piece

pub data Mode : Type 0 where
  out dollar : Mode
  capture : String → Mode

abbrev is : ℕ → Char → Bool
is n c = eqb (code c) n

abbrev one_char : Char → String
one_char c = String.◌∷◌ c String.[]

-- [^}]
abbrev pub resolver_class : Char → Bool
resolver_class c = not (is b'}' c)

-- [a-zA-Z0-9_.]
abbrev pub validator_class : Char → Bool
validator_class c =
    let n = code c in
    leb b'a' n && leb n b'z'
    || leb b'A' n && leb n b'Z'
    || leb b'0' n && leb n b'9'
    || eqb n b'_'
    || eqb n b'.'

module _ (class : Char → Bool) where
  -- The state after a character, and what is known to be text or a reference by then.
  unfoldable pub step : Mode → Char → Mode
  step out c = if is b'$' c then dollar else out
  step dollar c = if is b'{' c then capture "" else if is b'$' c then dollar else out
  step (capture acc) c =
      if is b'}' c && not (acc == "")
      then out
      else if class c
      then capture (append acc (one_char c))
      else if is b'$' c
      then dollar
      else out

  unfoldable pub emit : Mode → Char → List Piece
  emit out c = if is b'$' c then [] else lit (one_char c) ∷ []
  emit dollar c =
      if is b'{' c then [] else if is b'$' c then lit "$" ∷ [] else lit "$" ∷ lit (one_char c) ∷ []
  emit (capture acc) c =
      if is b'}' c && not (acc == "")
      then ref acc ∷ []
      else if class c
      then []
      else if is b'$' c
      then lit (append "${" acc) ∷ []
      else lit (append "${" acc) ∷ lit (one_char c) ∷ []

  abbrev flush : Mode → List Piece
  flush out = []
  flush dollar = lit "$" ∷ []
  flush (capture acc) = lit (append "${" acc) ∷ []

  -- The text as a sequence of matches and of what stands between them.
  unfoldable pub pieces : Mode → String → List Piece
  unfolding step emit
  pieces mode String.[] = flush mode
  pieces mode (String.◌∷◌ c s) = emit mode c ++ pieces (step mode c) s

abbrev pub refs_of : List Piece → List String
refs_of [] = []
refs_of (lit s ∷ ps) = refs_of ps
refs_of (ref r ∷ ps) = r ∷ refs_of ps

-- strings.Split(s, ".")
unfoldable pub split_dots : String → String → List String
split_dots acc String.[] = acc ∷ []
split_dots acc (String.◌∷◌ c s) = elim (is b'.' c) [
  | true ↦ acc ∷ split_dots "" s
  | false ↦ split_dots (append acc (one_char c)) s
]

pieces_mixed :
    pieces resolver_class out "a${input.x}b$${}"
    ≡ lit "a" ∷ ref "input.x" ∷ lit "b" ∷ lit "$" ∷ lit "${" ∷ lit "}" ∷ []
unfolding pieces
pieces_mixed = refl

pieces_restart : pieces validator_class out "${a${b}" ≡ lit "${a" ∷ ref "b" ∷ []
unfolding pieces
pieces_restart = refl

split_three : split_dots "" "steps.a.out" ≡ "steps" ∷ "a" ∷ "out" ∷ []
unfolding split_dots
split_three = refl
