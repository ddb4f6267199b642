-- ===== src/Prelude/Split.antt =====
-- strings.Split at one character, and strings.Join of two parts.
use Prim.Native.Char.{Char, code}
use Prim.Native.String.{[] as nil_text, ◌∷◌ as ◌∷ₛ◌}
use Prim.Native.String.append
use dayz_behaviour.Prelude.{
  ℕ, ◌==◌, ◌≡◌, refl, Bool, true, false, ◌&&◌, not, List, [], ◌∷◌, String, if◌then◌else◌, arith,
}
use dayz_behaviour.Prelude.Text.{◌<>◌}

-- one more character in front of the first part
extend : Char → List String → List String
extend c [] = (c ∷ₛ nil_text) ∷ []
extend c (part ∷ parts) = (c ∷ₛ part) ∷ parts

unfoldable pub split : ℕ → String → List String
unfolding extend
split mark nil_text = nil_text ∷ []
split mark (c ∷ₛ s) =
    let parts = split mark s in if code c == mark then nil_text ∷ parts else extend c parts

-- the mark does not occur in the text
unfoldable pub is_free_of : ℕ → String → Bool
is_free_of mark nil_text = true
is_free_of mark (c ∷ₛ s) = not (code c == mark) && is_free_of mark s

pub split-free : (mark : ℕ) (s : String) → is_free_of mark s ≡ true → split mark s ≡ s ∷ []
unfolding split is_free_of
split-free mark nil_text free = refl
split-free mark (c ∷ₛ s) free =
    let here : (code c == mark) ≡ false = ground (arith, free) in
    let rest : is_free_of mark s ≡ true = ground (arith, free) in
    rw (here, split-free mark s rest) refl

pub split-append :
    (sep : Char) (s t : String)
    → is_free_of (code sep) s ≡ true
    → split (code sep) (s <> (sep ∷ₛ t)) ≡ s ∷ split (code sep) t
unfolding split is_free_of
split-append sep nil_text t free =
    let same : (code sep == code sep) ≡ true = ground arith in rw (append.nil (sep ∷ₛ t), same) refl
split-append sep (c ∷ₛ s) t free =
    let here : (code c == code sep) ≡ false = ground (arith, free) in
    let rest : is_free_of (code sep) s ≡ true = ground (arith, free) in
    rw (append.cons c s (sep ∷ₛ t), here, split-append sep s t rest) refl
