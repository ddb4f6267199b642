-- ===== src/AdminAuth/Session.antt =====
-- internal/adminauth/auth.go: the signed cookies and the handlers. The clock is read once for the
-- expiry, and once more for the age of the cookie.
pub mod Signing
pub mod Login
use dayz_behaviour.Prelude.{
  ℕ, ◌/◌, Bool, true, false, ◌&&◌, ◌||◌, not, Option, none, some, List, [], ◌∷◌, String,
  if◌then◌else◌,
}
use dayz_behaviour.Prelude.Int.{ℤ, pos, negsuc, ltb_ℤ, ◌+ℤ◌, ◌-ℤ◌}
use dayz_behaviour.Prelude.Words.{quot64}
use dayz_behaviour.Prelude.Text.{str_eq, ◌<>◌}
use dayz_behaviour.Prelude.Split.{split}
use dayz_behaviour.AdminAuth.{
  AuthLib, Manager, SignedValue, Url, Values, get, is_member, valid_steam_id,
}

-- Unix() of a time: the seconds, cut towards the past
abbrev pub unix : ℤ → ℤ
unix (pos n) = pos (n / 1000000000)
unix (negsuc n) = negsuc (n / 1000000000)

-- what a handler reads of a request: its cookies, where there are, its query and its Origin
pub record Request : Type 0 where
  pub session_cookie : Option String
  pub pending_cookie : Option String
  pub query : Values
  pub origin : String

pub record Cookie : Type 0 where
  pub name : String
  pub value : String
  pub max_age : ℤ
  pub secure : Bool

pub record Response : Type 0 where
  pub status : ℕ
  pub cookies : List Cookie
  pub location : String
  pub body : String

-- the answer of /auth/me
pub data Me : Type 0 where
  anonymous : Me
  known_as : String → Me

module _ (lib : AuthLib) (m : Manager) where
  pub encode : SignedValue → String
  encode v =
      let encoded = lib.to_base64 (lib.to_json v) in
      encoded <> ("." <> lib.to_base64 (lib.hmac m.secret encoded))

  -- the parts of a raw value, with the signature checked before the payload is read
  decode_parts : List String → Option SignedValue
  decode_parts (payload ∷ signature ∷ []) = elim (lib.of_base64 signature) [
    | none ↦ none
    | some mac ↦
        if not (str_eq mac (lib.hmac m.secret payload))
        then none
        else elim (lib.of_base64 payload) [ none ↦ none | some text ↦ lib.of_json text ]
  ]
  decode_parts _ = none

  pub decode : String → Option SignedValue
  unfolding decode_parts
  decode raw = decode_parts (split b'.' raw)

  session_of : ℤ → SignedValue → String × Bool
  session_of now v =
      if ltb_ℤ v.expires_at (unix now) || not (valid_steam_id v.value)
      then ("", false)
      else (v.value, is_member v.value m.admins)

  -- SteamID, at the time `now`
  pub steam_id : ℤ → Request → String × Bool
  unfolding session_of
  steam_id now request = elim request.session_cookie [
    | none ↦ ("", false)
    | some raw ↦ elim (decode raw) [ none ↦ ("", false) | some v ↦ session_of now v ]
  ]

  pub callback_url : String → String
  callback_url state = m.base_url.text <> ("/auth/steam/callback?state=" <> lib.query_escape state)

  -- setCookie, when the clock shows `later`
  set_cookie : ℤ → String → String → ℤ → Cookie
  set_cookie later name value expires = record {
    name = name;
    value = value;
    max_age = quot64 (expires -ℤ later) (pos 1000000000);
    secure = m.secure;
  }

  clear_cookie : String → Cookie
  clear_cookie name = record { name = name; value = ""; max_age = negsuc 0; secure = m.secure }

  login_error : String → Response
  login_error message = record {
    status = 403;
    cookies = [];
    location = "";
    body =
        "<!doctype html><title>Login failed</title><h1>Login failed</h1><p>"
        <> (message <> "</p><p><a href=\"/\">Return to the admin tool</a></p>");
  }

  login_query : String → Values
  unfolding callback_url
  login_query state =
      ("openid.ns", "http://specs.openid.net/auth/2.0")
      ∷ ("openid.mode", "checkid_setup")
      ∷ ("openid.return_to", callback_url state)
      ∷ ("openid.realm", m.base_url.text <> "/")
      ∷ ("openid.identity", "http://specs.openid.net/auth/2.0/identifier_select")
      ∷ ("openid.claimed_id", "http://specs.openid.net/auth/2.0/identifier_select")
      ∷ []

  -- `token` is what randomToken makes, where it does not fail
  pub begin : Option String → ℤ → ℤ → Response
  unfolding login_query set_cookie
  begin none now later = record {
    status = 500;
    cookies = [];
    location = "";
    body = "could not start login";
  }
  begin (some state) now later =
      let expires = now +ℤ pos 600000000000 in
      record {
        status = 302;
        cookies =
            set_cookie later "dba_steam_login"
              (encode (record { value = state; expires_at = unix expires })) expires
            ∷ [];
        location =
            "https://steamcommunity.com/openid/login?" <> lib.query_encode (login_query state);
        body = "";
      }

  -- the login of a verified id
  admit : ℤ → ℤ → String → Response
  unfolding set_cookie clear_cookie login_error
  admit now later id =
      let expires = now +ℤ m.ttl in
      if not (is_member id m.admins)
      then login_error "this Steam account is not on the admin allowlist"
      else record {
        status = 302;
        cookies =
            set_cookie later "dba_admin_session"
              (encode (record { value = id; expires_at = unix expires })) expires
            ∷ clear_cookie "dba_steam_login"
            ∷ [];
        location = m.base_url.text <> "/";
        body = "";
      }

  -- the pending login is live and belongs to the state of the query
  is_pending : ℤ → SignedValue → Values → Bool
  is_pending checked v query =
      not (ltb_ℤ v.expires_at (unix checked)) && str_eq v.value (get "state" query)

  complete_value : ℤ → ℤ → ℤ → Request → Option SignedValue → Response
  unfolding is_pending login_error callback_url admit
  complete_value checked now later request none = login_error "login state is invalid"
  complete_value checked now later request (some v) =
      if not (is_pending checked v request.query)
      then login_error "login state is invalid"
      else elim (m.verifier request.query (callback_url v.value)) [
        | none ↦ login_error "Steam could not verify this login"
        | some id ↦ admit now later id
      ]

  -- the clock shows `checked`, then `now`, then `later`
  pub complete : ℤ → ℤ → ℤ → Request → Response
  unfolding login_error complete_value
  complete checked now later request = elim request.pending_cookie [
    | none ↦ login_error "login request expired"
    | some raw ↦ complete_value checked now later request (decode raw)
  ]

  pub same_origin : Request → Bool
  same_origin request = str_eq request.origin "" || elim (lib.parse_url request.origin) [
    | none ↦ false
    | some u ↦ str_eq u.scheme m.base_url.scheme && str_eq u.host m.base_url.host
  ]

  pub logout : Request → Response
  unfolding same_origin clear_cookie
  logout request =
      if not (same_origin request)
      then record { status = 403; cookies = []; location = ""; body = "invalid origin" }
      else record {
        status = 204;
        cookies = clear_cookie "dba_admin_session" ∷ [];
        location = "";
        body = "";
      }

  -- the status, and the JSON of the body as a value
  pub me : ℤ → Request → ℕ × Me
  unfolding steam_id
  me now request =
      let r = steam_id now request in if r.1 then (200, known_as r.0) else (401, anonymous)
