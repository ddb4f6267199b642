-- ===== src/AdminAuth/Session/Signing.antt =====
-- internal/adminauth/auth.go: encode and decode of a signed cookie.
use Prim.Native.String.append
use dayz_behaviour.Prelude.{
  ◌≡◌, refl, ap, ◌∙◌, true, some, List, [], ◌∷◌, String, inl, inr, Bool-cases, Option-cases,
}
use dayz_behaviour.Prelude.Text.{str_eq, eq_iff, ◌<>◌}
use dayz_behaviour.Prelude.Split.{split, is_free_of, split-free, split-append}
use dayz_behaviour.AdminAuth.{AuthLib, Manager, SignedValue}
use dayz_behaviour.AdminAuth.Session.{encode, decode, decode_parts}

-- what the package relies on: a codec reads what it wrote, and base64 (raw, URL) writes no dot
pub record IsCodec (lib : AuthLib) : Type 0 where
  pub json : (v : SignedValue) → lib.of_json (lib.to_json v) ≡ some v
  pub base64 : (s : String) → lib.of_base64 (lib.to_base64 s) ≡ some s
  pub no_dot : (s : String) → is_free_of b'.' (lib.to_base64 s) ≡ true

split_signed :
    (a b : String)
    → is_free_of b'.' a ≡ true
    → is_free_of b'.' b ≡ true
    → split b'.' (a <> ("." <> b)) ≡ a ∷ b ∷ []
split_signed a b free free' =
    rw (append.cons "." "" b, append.nil b)
      (split-append "." a b free ∙ ap (◌∷◌ a) (split-free b'.' b free'))

module _ (lib : AuthLib) (m : Manager) where
  -- the two parts are a payload that reads as `v` and its HMAC under the manager's secret
  abbrev AreSigned : List String → SignedValue → Type 0
  AreSigned parts v =
      (payload : String) × (signature : String) × (text : String) × (parts
        ≡ payload ∷ signature ∷ [])
      × (lib.of_base64 signature ≡ some (lib.hmac m.secret payload))
      × (lib.of_base64 payload ≡ some text)
      × (lib.of_json text ≡ some v)

  abbrev pub IsSigned : String → SignedValue → Type 0
  IsSigned raw v = AreSigned (split b'.' raw) v

  decode_parts-AreSigned :
      (parts : List String) (v : SignedValue)
      → decode_parts lib m parts ≡ some v
      → AreSigned parts v
  unfolding decode_parts
  decode_parts-AreSigned [] v h = absurd (cc (h))
  decode_parts-AreSigned (a ∷ []) v h = absurd (cc (h))
  decode_parts-AreSigned (a ∷ b ∷ c ∷ parts) v h = absurd (cc (h))
  decode_parts-AreSigned (payload ∷ signature ∷ []) v h =
      elim (Option-cases (lib.of_base64 signature)) [
        | inl unread ↦ absurd (cc (rw (unread, decode_parts) at h))
        | inr (mac, read) ↦ elim (Bool-cases (str_eq mac (lib.hmac m.secret payload))) [
          | inr forged ↦ absurd (cc (rw (read, decode_parts, forged) at h))
          | inl same ↦ elim (Option-cases (lib.of_base64 payload)) [
            | inl garbled ↦ absurd (cc (rw (read, decode_parts, same, garbled) at h))
            | inr (text, plain) ↦ (
              payload,
              signature,
              text,
              refl,
              read ∙ ap some ((eq_iff mac (lib.hmac m.secret payload)).0 same),
              plain,
              rw (read, decode_parts, same, plain) at h,
            )
          ]
        ]
      ]

  pub decode-IsSigned :
      (raw : String) (v : SignedValue) → decode lib m raw ≡ some v → IsSigned raw v
  unfolding decode
  decode-IsSigned raw v h = decode_parts-AreSigned (split b'.' raw) v h

module _ (lib : AuthLib) (m : Manager) (codec : IsCodec lib) where
  pub decode-encode : (v : SignedValue) → decode lib m (encode lib m v) ≡ some v
  unfolding decode encode decode_parts
  decode-encode v =
      let payload = lib.to_base64 (lib.to_json v) in
      let mac = lib.hmac m.secret payload in
      let same : str_eq mac mac ≡ true = (eq_iff mac mac).1 refl in
      let parts : split b'.' (payload <> ("." <> lib.to_base64 mac))
          ≡ payload ∷ lib.to_base64 mac ∷ [] =
        split_signed payload (lib.to_base64 mac) (codec.no_dot (lib.to_json v))
          (codec.no_dot mac) in
      rw (parts, decode_parts, codec.base64 mac, same, codec.base64 (lib.to_json v)) (codec.json v)
