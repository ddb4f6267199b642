-- ===== src/AdminAuth/Examples.antt =====
-- A codec that keeps the laws, a manager and a login, for examples.
use Prim.Native.Char.{Char, char, code, IsScalar}
use Prim.Native.String.{[] as nil_text, ◌∷◌ as ◌∷ₛ◌}
use dayz_behaviour.Prelude.{
  ℕ, zero, suc, ◌==◌, ◌≡◌, refl, ap, sym, subst, true, false, ◌&&◌, Option, none, some, [], ◌∷◌,
  String, if◌then◌else◌, arith, Bool-cases, inl, inr,
}
use dayz_behaviour.Prelude.Int.{ℤ, pos, negsuc}
use dayz_behaviour.Prelude.Text.{trim, ◌<>◌}
use dayz_behaviour.Prelude.Split.{is_free_of}
use dayz_behaviour.AdminAuth.{
  new_manager, admins_of, valid_steam_id, is_uint64, digits_value, twelve_hours, AuthLib, Config,
  Manager, SignedValue, Url, Verifier,
}
use dayz_behaviour.AdminAuth.Session.Signing.{IsCodec}

first_of : Char → Char
first_of c = if code c == b'.' then "-" else c

second_of : Char → Char
second_of c = if code c == b'.' then "d" else c

-- every character twice, and a dot as "-d"
doubled : String → String
unfolding first_of second_of
doubled nil_text = nil_text
doubled (c ∷ₛ s) = first_of c ∷ₛ second_of c ∷ₛ doubled s

undouble : String → Option String
undouble nil_text = some nil_text
undouble (a ∷ₛ nil_text) = none
undouble (a ∷ₛ b ∷ₛ s) =
    let rest = undouble s in
    elim rest [
      | none ↦ none
      | some t ↦ some ((if code a == b'-' && code b == b'd' then "." else b) ∷ₛ t)
    ]

dot_unique : (n : ℕ) (p : IsScalar n) → n ≡ b'.' → char n p ≡ (let c : Char = "." in c)
dot_unique n p e =
    subst (λ (k : ℕ). (q : IsScalar k) → char k q ≡ (let c : Char = "." in c)) (sym e) (λ q. refl) p

undouble-pair :
    (c : Char) (s t : String)
    → undouble s ≡ some t
    → undouble (first_of c ∷ₛ second_of c ∷ₛ s) ≡ some (c ∷ₛ t)
unfolding undouble first_of second_of
undouble-pair (char n p) s t rest = elim (Bool-cases (n == b'.')) [
  | inl dot ↦
      rw (undouble, rest, dot)
        (ap (λ (c : Char). some (c ∷ₛ t)) (sym (dot_unique n p (ground (arith, dot)))))
  | inr other ↦
      let dash : (n == b'-') && (n == b'd') ≡ false = ground arith in
      rw (undouble, rest, other, dash) refl
]

undouble-doubled : (s : String) → undouble (doubled s) ≡ some s
unfolding doubled
undouble-doubled nil_text = unfold undouble in refl
undouble-doubled (c ∷ₛ s) = undouble-pair c (doubled s) s (undouble-doubled s)

doubled-free : (s : String) → is_free_of b'.' (doubled s) ≡ true
unfolding doubled first_of second_of is_free_of
doubled-free nil_text = refl
doubled-free (c ∷ₛ s) = elim (Bool-cases (code c == b'.')) [
  | inl dot ↦ rw (dot, doubled-free s) refl
  | inr other ↦ rw (other, doubled-free s) (ground (arith, other))
]

ones : ℕ → String → String
ones zero s = ":" ∷ₛ s
ones (suc n) s = "i" ∷ₛ ones n s

count_ones : String → Option (ℕ × String)
count_ones nil_text = none
count_ones (c ∷ₛ s) =
    let rest = count_ones s in
    if code c == b'i' then elim rest [ none ↦ none | some r ↦ some (suc r.0, r.1) ] else some (0, s)

count_ones-ones : (n : ℕ) (s : String) → count_ones (ones n s) ≡ some (n, s)
unfolding count_ones ones
count_ones-ones zero s = refl
count_ones-ones (suc n) s = rw (count_ones-ones n s) refl

write_value : SignedValue → String
unfolding ones
write_value v = elim v.expires_at [
  | pos n ↦ "p" ∷ₛ ones n v.value
  | negsuc n ↦ "n" ∷ₛ ones n v.value
]

read_value : String → Option SignedValue
unfolding count_ones
read_value nil_text = none
read_value (c ∷ₛ s) = elim (count_ones s) [
  | none ↦ none
  | some r ↦
      some (record { value = r.1; expires_at = if code c == b'p' then pos r.0 else negsuc r.0 })
]

signed_value : String → ℤ → SignedValue
signed_value s t = record { value = s; expires_at = t }

read_value-write_value :
    (s : String) (t : ℤ) → read_value (write_value (signed_value s t)) ≡ some (signed_value s t)
unfolding read_value write_value signed_value
read_value-write_value s (pos n) = rw (read_value, count_ones-ones n s) refl
read_value-write_value s (negsuc n) = rw (read_value, count_ones-ones n s) refl

abbrev site : Url
site = record {
  scheme = "https";
  host = "admin.example";
  path = "";
  raw_query = "";
  fragment = "";
  text = "https://admin.example";
}

abbrev pub sample_auth_lib : AuthLib
unfolding doubled undouble write_value read_value
sample_auth_lib = record {
  to_json = write_value;
  of_json = read_value;
  to_base64 = doubled;
  of_base64 = undouble;
  hmac = λ secret text. secret <> text;
  parse_url = λ s. some site;
  query_escape = λ s. s;
  query_encode = λ values. "";
  trim_slashes = λ s. s;
}

pub sample_auth_lib-IsCodec : IsCodec sample_auth_lib
unfolding doubled undouble write_value read_value signed_value
sample_auth_lib-IsCodec = record {
  json = λ v. read_value-write_value v.value v.expires_at;
  base64 = undouble-doubled;
  no_dot = doubled-free;
}

abbrev pub sample_verifier : Verifier
sample_verifier values url = some "76561198000000001"

abbrev pub sample_config : Config
sample_config = record {
  public_base_url = "https://admin.example";
  admin_steam_ids = " 76561198000000001" ∷ [];
  session_secret = "0123456789abcdef0123456789abcdef";
  cookie_secure = false;
  session_ttl = pos 0;
}

abbrev pub sample_manager : Manager
sample_manager = record {
  base_url = site;
  admins = "76561198000000001" ∷ [];
  secret = "0123456789abcdef0123456789abcdef";
  secure = true;
  ttl = pos 43200000000000;
  verifier = sample_verifier;
}

pub sample_manager-new :
    new_manager sample_auth_lib sample_config sample_verifier ≡ inl sample_manager
unfolding sample_auth_lib new_manager admins_of valid_steam_id is_uint64 digits_value twelve_hours
    trim
sample_manager-new = refl
