-- ===== src/Prelude/Extension.antt =====
-- strings.EqualFold(filepath.Ext(path), ext), of an extension in small letters with one dot, its first.
use Prim.Native.Nat.{ℕ, ◌+◌}
use Prim.Native.Char.{code}
use Prim.Native.String.{String, [] as nil_text, ◌∷◌ as ◌∷ₛ◌}
use mathlib.Core.Bool.{Bool, true, false, ◌&&◌, ◌||◌}
use dayz_behaviour.Prelude.Tests.{leb, ◌==◌, if◌then◌else◌}

-- the small letter of a letter, with the long s; none of the letters of the extensions is a k
fold_code : ℕ → ℕ
fold_code c = if leb b'A' c && leb c b'Z' then c + 32 else if c == 0x17F then b's' else c

folds_to : String → String → Bool
unfolding fold_code
folds_to nil_text nil_text = true
folds_to (c ∷ₛ s) (d ∷ₛ t) = let rest = folds_to s t in fold_code (code c) == code d && rest
folds_to _ _ = false

-- some end of the path folds to the extension
unfoldable pub has_extension : String → String → Bool
unfolding folds_to
has_extension ext nil_text = false
has_extension ext (c ∷ₛ s) = folds_to (c ∷ₛ s) ext || has_extension ext s
