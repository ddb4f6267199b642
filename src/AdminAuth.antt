-- ===== src/AdminAuth.antt =====
-- internal/adminauth/auth.go: the admin login. The cookies are signed values; the HTTP server, the URLs,
-- the JSON codec, base64, HMAC and the random source are parameters. A time is in nanoseconds.
pub mod Session
pub mod Steam
pub mod Examples
mod Witness
use Prim.Native.Char.{code}
use Prim.Native.String.{[] as nil_text, ◌∷◌ as ◌∷ₛ◌}
use dayz_behaviour.Prelude.{
  ℕ, ◌+◌, ◌-◌, ◌*◌, ◌/◌, ◌^◌, ◌==◌, Bool, true, false, ◌&&◌, ◌||◌, not, Option, none, some, List,
  [], ◌∷◌, String, ltb, leb, if◌then◌else◌, ◌⊎◌, inl, inr,
}
use dayz_behaviour.Prelude.Int.{ℤ, pos, negsuc, ltb_ℤ, ◌+ℤ◌, ◌-ℤ◌}
use dayz_behaviour.Prelude.Words.{quot64}
use dayz_behaviour.Prelude.Text.{str_eq, trim, len, ◌<>◌}
use dayz_behaviour.Prelude.Split.{split}

pub record SignedValue : Type 0 where
  pub value : String
  pub expires_at : ℤ

pub record Url : Type 0 where
  pub scheme : String
  pub host : String
  pub path : String
  pub raw_query : String
  pub fragment : String
  pub text : String

-- what the package takes from Go's library; `trim_slashes` is strings.TrimRight(s, "/")
pub record AuthLib : Type 0 where
  pub to_json : SignedValue → String
  pub of_json : String → Option SignedValue
  pub to_base64 : String → String
  pub of_base64 : String → Option String
  pub hmac : String → String → String
  pub parse_url : String → Option Url
  pub query_escape : String → String
  pub query_encode : List (String × String) → String
  pub trim_slashes : String → String

-- the values of a query, in their order
abbrev pub Values : Type 0
Values = List (String × String)

-- Verify of a verifier: none is its error
abbrev pub Verifier : Type 0
Verifier = Values → String → Option String

pub record Config : Type 0 where
  pub public_base_url : String
  pub admin_steam_ids : List String
  pub session_secret : String
  pub cookie_secure : Bool
  pub session_ttl : ℤ

pub record Manager : Type 0 where
  pub base_url : Url
  pub admins : List String
  pub secret : String
  pub secure : Bool
  pub ttl : ℤ
  pub verifier : Verifier

pub data NewError : Type 0 where
  not_absolute has_query short_secret invalid_admin no_admin negative_ttl : NewError

-- the first value of a key, and the empty text without one
pub get : String → Values → String
get key [] = ""
get key ((k, v) ∷ rest) = let later = get key rest in if str_eq k key then v else later

abbrev pub is_http : Url → Bool
is_http u = str_eq u.scheme "http" || str_eq u.scheme "https"

-- the decimal number of a text of digits
digits_value : ℕ → String → Option ℕ
digits_value n nil_text = some n
digits_value n (c ∷ₛ s) =
    let rest = digits_value (10 * n + (code c - b'0')) s in
    if leb b'0' (code c) && leb (code c) b'9' then rest else none

-- strconv.ParseUint(value, 10, 64) without an error
is_uint64 : String → Bool
unfolding digits_value
is_uint64 s =
    not (str_eq s "") && elim (digits_value 0 s) [ none ↦ false | some n ↦ ltb n (2 ^ 64) ]

pub valid_steam_id : String → Bool
unfolding is_uint64
valid_steam_id s = not (ltb (len s) 16 || ltb 20 (len s)) && is_uint64 s

pub is_member : String → List String → Bool
is_member s [] = false
is_member s (x ∷ xs) = str_eq x s || is_member s xs

-- the loop over the configured ids
pub admins_of : List String → Option (List String)
admins_of [] = some []
admins_of (id ∷ ids) =
    let rest = admins_of ids in
    if not (valid_steam_id (trim id))
    then none
    else elim rest [ none ↦ none | some others ↦ some (trim id ∷ others) ]

twelve_hours : ℤ
twelve_hours = pos (12 * 3600 * 1000000000)

abbrev is_zero : ℤ → Bool
is_zero (pos n) = n == 0
is_zero (negsuc n) = false

-- a verifier of nil is replaced by the one for Steam before the call
pub new_manager : AuthLib → Config → Verifier → Manager ⊎ NewError
unfolding twelve_hours
new_manager lib config verifier = elim (lib.parse_url (lib.trim_slashes config.public_base_url)) [
  | none ↦ inr not_absolute
  | some u ↦
      if not (is_http u) || str_eq u.host ""
      then inr not_absolute
      else if not (str_eq u.raw_query "" && str_eq u.fragment "")
      then inr has_query
      else if ltb (len config.session_secret) 32
      then inr short_secret
      else elim (admins_of config.admin_steam_ids) [
        | none ↦ inr invalid_admin
        | some [] ↦ inr no_admin
        | some (id ∷ ids) ↦
            let ttl = if is_zero config.session_ttl then twelve_hours else config.session_ttl in
            if ltb_ℤ ttl (pos 0)
            then inr negative_ttl
            else inl (record {
              base_url = u;
              admins = id ∷ ids;
              secret = config.session_secret;
              secure = config.cookie_secure || str_eq u.scheme "https";
              ttl = ttl;
              verifier = verifier;
            })
      ]
]
