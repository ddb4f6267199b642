-- ===== src/Privacy/Durable.antt =====
-- internal/privacy/raw.go: rawDurableID and the last colon.
use Prim.Native.Char.{Char, code}
use Prim.Native.String.{[] as nil_text, ◌∷◌ as ◌∷ₛ◌}
use Prim.Native.String.append
use package.text.Mathlib.TextEquality.{Char-path}
use dayz_behaviour.Prelude.{
  ◌==◌, ◌≡◌, refl, sym, ap, ◌∙◌, subst, inl, inr, true, false, Option, none, some, String, arith,
  Bool-cases, Option-cases,
}
use dayz_behaviour.Prelude.Text.{◌<>◌}
use dayz_behaviour.Prelude.Split.{is_free_of}
use dayz_behaviour.Privacy.{after_last_colon, raw_durable_id}
use dayz_behaviour.Privacy.Belongs.{IsDurable}

after_last_colon-free : (s : String) → is_free_of b':' s ≡ true → after_last_colon s ≡ none
unfolding after_last_colon is_free_of
after_last_colon-free nil_text free = refl
after_last_colon-free (c ∷ₛ s) free =
    let here : (code c == b':') ≡ false = ground (arith, free) in
    let later : is_free_of b':' s ≡ true = ground (arith, free) in
    rw (after_last_colon-free s later, here) refl

after_last_colon-append :
    (p t : String) → is_free_of b':' t ≡ true → after_last_colon (p <> (":" ∷ₛ t)) ≡ some t
unfolding after_last_colon
after_last_colon-append nil_text t free =
    rw (append.nil (":" ∷ₛ t), after_last_colon-free t free) refl
after_last_colon-append (c ∷ₛ p) t free =
    rw (append.cons c p (":" ∷ₛ t), after_last_colon, after_last_colon-append p t free) refl

-- the two ends of the search
abbrev Searched : String → Option String → Type 0
Searched s none = is_free_of b':' s ≡ true
Searched s (some t) = (is_free_of b':' t ≡ true) × (p : String) × (s ≡ p <> (":" <> t))

colon_first : (t : String) → (":" ∷ₛ t) ≡ "" <> (":" <> t)
colon_first t = rw (append.nil (":" <> t), append.cons ":" "" t, append.nil t) refl

after_last_colon-Searched : (s : String) → Searched s (after_last_colon s)
unfolding after_last_colon is_free_of
after_last_colon-Searched nil_text = refl
after_last_colon-Searched (c ∷ₛ s) =
    let ih = after_last_colon-Searched s in
    elim (Option-cases (after_last_colon s)) [
      | inr (t, found) ↦
          let (free, p, split_there) : Searched s (some t) = subst (Searched s) found ih in
          rw (found) (
            free,
            c ∷ₛ p,
            ap (λ (x : String). c ∷ₛ x) split_there ∙ sym (append.cons c p (":" <> t)),
          )
      | inl missing ↦
          let free : is_free_of b':' s ≡ true = subst (Searched s) missing ih in
          elim (Bool-cases (code c == b':')) [
            | inl colon ↦
                let same : c ≡ ":" = Char-path c ":" (ground (arith, colon)) in
                rw (missing, colon) (free, "", ap (λ (d : Char). d ∷ₛ s) same ∙ colon_first s)
            | inr other ↦ rw (missing, other) (ground (arith, other, free))
          ]
    ]

pub raw_durable_id-IsDurable : (s id : String) → raw_durable_id s ≡ id → IsDurable s id
unfolding raw_durable_id
raw_durable_id-IsDurable s id h =
    let found = after_last_colon-Searched s in
    elim (Option-cases (after_last_colon s)) [
      | inl missing ↦
          let same : s ≡ id = rw (raw_durable_id, missing) at h in
          let free : is_free_of b':' s ≡ true = subst (Searched s) missing found in
          (subst (λ (x : String). is_free_of b':' x ≡ true) same free, inl same)
      | inr (t, there) ↦
          let same : t ≡ id = rw (raw_durable_id, there) at h in
          let (free, p, split_there) : Searched s (some t) = subst (Searched s) there found in
          subst (IsDurable s) same (free, inr (p, split_there))
    ]

pub IsDurable-raw_durable_id : (s id : String) → IsDurable s id → raw_durable_id s ≡ id
unfolding raw_durable_id
IsDurable-raw_durable_id s id (free, inl same) =
    rw
      (
        raw_durable_id,
        after_last_colon-free s (subst (λ (x : String). is_free_of b':' x ≡ true) (sym same) free),
      )
      same
IsDurable-raw_durable_id s id (free, inr (p, split_there)) =
    let tail : (":" <> id) ≡ (":" ∷ₛ id) = rw (append.cons ":" "" id, append.nil id) refl in
    rw (split_there, tail, raw_durable_id, after_last_colon-append p id free) refl
