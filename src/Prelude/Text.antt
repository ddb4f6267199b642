-- ===== src/Prelude/Text.antt =====
-- Go's strings as native texts, and what the program uses of `strings`, `regexp` and `fmt`.
use Prim.Native.Nat.{ℕ, zero, suc, ◌/◌, ◌%◌}
use Prim.Native.Char.{Char, code}
use Prim.Native.String.{[], ◌∷◌}
use mathlib.Core.Bool.{Bool, true, false, ◌||◌, ◌&&◌, not}
use Prim.Native.String.append
use mathlib.Core.Path.{◌≡◌, refl, ap, ◌∙◌}
use mathlib.Core.Logic.{◌≢◌, inl, inr}
use native.Mathlib.Omega.{arith}
use dayz_behaviour.Prelude.Tests.{leb, ◌==◌, if◌then◌else◌, Bool-cases}
pub use Prim.Native.String.{String, ◌++◌ as ◌<>◌, len}
pub use text.Mathlib.Text.{◌==◌ as str_eq, starts_with}
pub use text.Mathlib.TextEquality.{eq_iff}
pub use text.Mathlib.TextPositions.{eq_refl}

-- unicode.IsSpace
unfoldable pub is_space : ℕ → Bool
is_space c =
    (leb 9 c && leb c 13)
    || c == 32
    || c == 0x85
    || c == 0xA0
    || c == 0x1680
    || (leb 0x2000 c && leb c 0x200A)
    || c == 0x2028
    || c == 0x2029
    || c == 0x202F
    || c == 0x205F
    || c == 0x3000

is_empty : String → Bool
is_empty [] = true
is_empty (c ∷ s) = false

keep_unless_space : Char → String → String
keep_unless_space c rest = if is_space (code c) && is_empty rest then [] else c ∷ rest

trim_right : String → String
trim_right [] = []
trim_right (c ∷ s) = keep_unless_space c (trim_right s)

trim_left : String → String
trim_left [] = []
trim_left (c ∷ s) = if is_space (code c) then trim_left s else c ∷ s

-- strings.TrimSpace
unfoldable pub trim : String → String
unfolding trim_left trim_right keep_unless_space is_space is_empty
trim s = trim_left (trim_right s)

-- strings.TrimSpace(s) == ""
abbrev pub is_blank : String → Bool
is_blank s = str_eq (trim s) ""

-- A final newline is trimmed away.
trim_right-newline : (s : String) → trim_right (s <> "\n") ≡ trim_right s
unfolding trim_right
trim_right-newline [] = unfold keep_unless_space is_space is_empty in refl
trim_right-newline (c ∷ s) =
    ap trim_right (append.cons c s "\n") ∙ ap (keep_unless_space c) (trim_right-newline s)

pub trim-newline : (s : String) → trim (s <> "\n") ≡ trim s
unfolding trim
trim-newline s = ap trim_left (trim_right-newline s)

-- The characters that agentSafePathPart and safePathPart leave alone: [a-zA-Z0-9._-].
unfoldable pub is_safe : ℕ → Bool
is_safe c =
    (leb b'a' c && leb c b'z')
    || (leb b'A' c && leb c b'Z')
    || (leb b'0' c && leb c b'9')
    || c == b'.'
    || c == b'_'
    || c == b'-'

-- ReplaceAllString(value, "_") of a run of other characters; the flag says that a run is open
squeeze : Bool → String → String
squeeze open_run [] = []
squeeze open_run (c ∷ s) =
    let rest = squeeze (not (is_safe (code c))) s in
    if is_safe (code c) then c ∷ rest else if open_run then rest else "_" ∷ rest

unfoldable pub sanitise : String → String
unfolding squeeze is_safe
sanitise value =
    let cleaned = squeeze false value in
    if str_eq cleaned "" || str_eq cleaned "." || str_eq cleaned ".." then "unknown" else cleaned

abbrev pub AllSafe : String → Type 0
AllSafe [] = Unit
AllSafe (c ∷ s) = (is_safe (code c) ≡ true) × AllSafe s

underscored : (b : Bool) (s : String) → AllSafe s → AllSafe (if b then s else "_" ∷ s)
unfolding is_safe
underscored true s h = h
underscored false s h = (refl, h)

squeeze-AllSafe : (b : Bool) (s : String) → AllSafe (squeeze b s)
unfolding squeeze
squeeze-AllSafe b [] = tt
squeeze-AllSafe b (c ∷ s) =
    let rest = squeeze-AllSafe (not (is_safe (code c))) s in
    elim (Bool-cases (is_safe (code c))) [
      | inl e ↦ rw e (e, rw e at rest)
      | inr e ↦ rw e (underscored b _ (rw e at rest))
    ]

-- A path part that keeps a file below its directory: safe characters only, not empty, not a dot name.
pub record IsPathPart (s : String) : Type 0 where
  pub safe : AllSafe s
  pub not_empty : s ≢ ""
  pub not_dot : s ≢ "."
  pub not_dot_dot : s ≢ ".."

unknown-IsPathPart : IsPathPart "unknown"
unfolding is_safe
unknown-IsPathPart = record {
  safe = (refl, (refl, (refl, (refl, (refl, (refl, (refl, tt)))))));
  not_empty = λ p. cc;
  not_dot = λ p. cc;
  not_dot_dot = λ p. cc;
}

-- A sanitised identifier is a safe part of a path: it has only letters, digits, dots, underscores
-- and dashes, and it is neither empty nor a dot nor two dots.
pub sanitise-IsPathPart : (value : String) → IsPathPart (sanitise value)
unfolding sanitise
sanitise-IsPathPart value = choose (squeeze false value) (squeeze-AllSafe false value)
  where
    choose :
        (s : String)
        → AllSafe s
        → IsPathPart (if str_eq s "" || str_eq s "." || str_eq s ".." then "unknown" else s)
    choose s safe = elim (Bool-cases (str_eq s "" || str_eq s "." || str_eq s "..")) [
      | inl e ↦ rw e unknown-IsPathPart
      | inr e ↦ rw e (record {
        safe = safe;
        not_empty = λ p. ground (arith, (eq_iff s "").1 p);
        not_dot = λ p. ground (arith, (eq_iff s ".").1 p);
        not_dot_dot = λ p. ground (arith, (eq_iff s "..").1 p);
      })
    ]

pub digit_char : ℕ → Char
digit_char d =
    if d == 0
    then "0"
    else if d == 1
    then "1"
    else if d == 2
    then "2"
    else if d == 3
    then "3"
    else if d == 4
    then "4"
    else if d == 5
    then "5"
    else if d == 6
    then "6"
    else if d == 7
    then "7"
    else if d == 8
    then "8"
    else "9"

-- the last `k` decimal digits of `n`, in front of `out`
last_digits : ℕ → ℕ → String → String
unfolding digit_char
last_digits zero n out = out
last_digits (suc k) n out = last_digits k (n / 10) (digit_char (n % 10) ∷ out)

-- fmt.Sprintf("%020d", n) of a uint64, which has at most 20 digits
unfoldable pub pad20 : ℕ → String
unfolding last_digits
pad20 n = last_digits 20 n ""

sanitise_runs : sanitise "srv/../: one" ≡ "srv_.._one"
unfolding sanitise
sanitise_runs = refl

sanitise_dots : sanitise ".." ≡ "unknown"
unfolding sanitise
sanitise_dots = refl

pad20_42 : pad20 42 ≡ "00000000000000000042"
unfolding pad20
pad20_42 = refl
