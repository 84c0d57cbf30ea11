-- ===== src/Base/Text.antt =====
-- The operations of Go's package strings that the program uses on texts. A text is its characters here,
-- so an index stands as the text before it and the text behind it.
use Prim.Native.Char.{Char, code}
use Prim.Native.String.{String, ◌++◌ as append}
use mathlib.Core.Path.{◌≡◌, refl, ap}
use mathlib.Core.Bool.{Bool, true, false, not, ◌&&◌, ◌||◌}
use mathlib.Core.Option.{Option, none, some}
use Prim.Native.Nat.{ℕ, ◌+◌}
use native.Mathlib.Omega.{arith}
use text.Mathlib.Text.{◌==◌}
use text.Mathlib.TextLemmas.{nil-append, cons-append}
use ai_inference_managed_by.Base.Tests.{if◌then◌else◌, eqb, leb}
use ai_inference_managed_by.Base.Map.{is_some}

-- HasPrefix and TrimPrefix: the text behind a prefix, if it is there
unfoldable pub strip_prefix : String → String → Option String
strip_prefix String.[] s = some s
strip_prefix (String.◌∷◌ c p) String.[] = none
strip_prefix (String.◌∷◌ c p) (String.◌∷◌ d s) =
    let rest = strip_prefix p s in if eqb (code c) (code d) then rest else none

abbrev pub has_prefix : String → String → Bool
has_prefix p s = is_some (strip_prefix p s)

abbrev pub trim_prefix : String → String → String
trim_prefix p s = elim (strip_prefix p s) [ none ↦ s | some t ↦ t ]

abbrev pub first_at : Option String → Option (String × String) → Option (String × String)
first_at (some behind) later = some ("", behind)
first_at none later = later

abbrev pub after_char : Char → Option (String × String) → Option (String × String)
after_char c none = none
after_char c (some (before, behind)) = some (String.◌∷◌ c before, behind)

-- Index: what stands before and behind the first occurrence of a text
unfoldable pub cut : String → String → Option (String × String)
unfolding strip_prefix
cut p String.[] = first_at (strip_prefix p String.[]) none
cut p (String.◌∷◌ c s) = first_at (strip_prefix p (String.◌∷◌ c s)) (after_char c (cut p s))

abbrev pub contains : String → String → Bool
contains s p = is_some (cut p s)

-- unicode.IsSpace
abbrev pub is_space : Char → Bool
is_space c =
    let n = code c in
    (leb 9 n && leb n 13)
    || eqb n 32
    || eqb n 0x85
    || eqb n 0xA0
    || eqb n 0x1680
    || (leb 0x2000 n && leb n 0x200A)
    || eqb n 0x2028
    || eqb n 0x2029
    || eqb n 0x202F
    || eqb n 0x205F
    || eqb n 0x3000

unfoldable pub trim_left : String → String
trim_left String.[] = ""
trim_left (String.◌∷◌ c s) = let rest = trim_left s in if is_space c then rest else String.◌∷◌ c s

unfoldable pub trim_right : String → String
trim_right String.[] = ""
trim_right (String.◌∷◌ c s) =
    let rest = trim_right s in if rest == "" && is_space c then "" else String.◌∷◌ c rest

abbrev pub trim_space : String → String
trim_space s = trim_right (trim_left s)

-- A lower case letter for an upper case one, on ASCII.
abbrev pub fold : Char → ℕ
fold c = let n = code c in if leb b'A' n && leb n b'Z' then n + 32 else n

-- EqualFold with a text of ASCII letters but k and s, to which no other characters fold
unfoldable pub equal_fold : String → String → Bool
equal_fold String.[] String.[] = true
equal_fold String.[] (String.◌∷◌ d t) = false
equal_fold (String.◌∷◌ c s) String.[] = false
equal_fold (String.◌∷◌ c s) (String.◌∷◌ d t) = eqb (fold c) (fold d) && equal_fold s t

pub strip_prefix-append : (p s : String) → strip_prefix p (append p s) ≡ some s
unfolding strip_prefix
strip_prefix-append String.[] s = rw nil-append refl
strip_prefix-append (String.◌∷◌ c p) s = rw cons-append (ground (arith, strip_prefix-append p s))

abbrev pub lacks : ℕ → String → Bool
lacks n String.[] = true
lacks n (String.◌∷◌ c s) = not (eqb (code c) n) && lacks n s

strip_prefix-append-none :
    (p s t : String) (d : Char)
    → lacks (code d) p ≡ true
    → strip_prefix p s ≡ none
    → strip_prefix p (append s (String.◌∷◌ d t)) ≡ none
unfolding strip_prefix
strip_prefix-append-none String.[] s t d l h = absurd (cc)
strip_prefix-append-none (String.◌∷◌ c p) String.[] t d l h = rw nil-append (ground arith)
strip_prefix-append-none (String.◌∷◌ c p) (String.◌∷◌ b s) t d l h =
    rw cons-append (ground (arith, strip_prefix-append-none p s t d))

starts :
    (d : Char) (p : String) (c : Char) (s t : String)
    → lacks (code d) p ≡ true
    → strip_prefix (String.◌∷◌ d p) (String.◌∷◌ c s) ≡ none
    → strip_prefix (String.◌∷◌ d p) (String.◌∷◌ c (append s (String.◌∷◌ d t))) ≡ none
unfolding strip_prefix
starts d p c s t l h = ground (arith, strip_prefix-append-none p s t d l)

-- A pattern whose first character stands nowhere else in it is found behind a text that does not hold
-- the pattern.
pub cut-append :
    (d : Char) (p before behind : String)
    → lacks (code d) p ≡ true
    → contains before (String.◌∷◌ d p) ≡ false
    → cut (String.◌∷◌ d p) (append before (append (String.◌∷◌ d p) behind)) ≡ some (before, behind)
unfolding cut
cut-append d p String.[] behind l h =
    rw (nil-append, cons-append) (ground (arith, strip_prefix-append p behind))
cut-append d p (String.◌∷◌ c s) behind l h = rw cons-append (
    ground (
      arith,
      starts d p c s (append p behind) l (ground (arith, h)),
      ap (λ t. cut (String.◌∷◌ d p) (append s t)) (cons-append d p behind),
      ap (λ t. strip_prefix (String.◌∷◌ d p) (String.◌∷◌ c (append s t))) (cons-append d p behind),
      cut-append d p s behind l (ground (arith, h)),
    ))
