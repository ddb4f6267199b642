-- ===== src/AdminAuth/Steam.antt =====
-- internal/adminauth/steam.go: the verifier for Steam's OpenID, the HTTP exchange a parameter.
use dayz_behaviour.Prelude.{
  ℕ, ◌==◌, Bool, false, ◌&&◌, ◌||◌, not, Option, none, some, List, [], ◌∷◌, String, if◌then◌else◌,
  ◌⊎◌, inl, inr,
}
use Prim.Native.String.{slice}
use dayz_behaviour.Prelude.Text.{str_eq, trim, len, starts_with}
use dayz_behaviour.Prelude.Split.{split}
use dayz_behaviour.AdminAuth.{AuthLib, Values, get, is_http, valid_steam_id}

pub data VerifyError : Type 0 where
  invalid_mode unexpected_endpoint claim_mismatch invalid_claim : VerifyError
  create_request send_request verification_failed rejected : VerifyError

-- what the POST to Steam returns
pub data Reply : Type 0 where
  no_request no_response no_body : Reply
  replied : ℕ → String → Reply

abbrev steam_open_id_endpoint : String
steam_open_id_endpoint = "https://steamcommunity.com/openid/login"

pub steam_id_from_claim : AuthLib → String → Option String
steam_id_from_claim lib claimed = elim (lib.parse_url claimed) [
  | none ↦ none
  | some u ↦
      let id = slice u.path (len "/openid/id/") (len u.path) in
      if not (is_http u)
        || (not (str_eq u.host "steamcommunity.com")
            || not (str_eq u.raw_query "" && str_eq u.fragment ""))
      then none
      else if not (starts_with u.path "/openid/id/") || not (valid_steam_id id)
      then none
      else some id
]

-- what is posted back: every openid value but the mode
kept_values : Values → Values
kept_values [] = []
kept_values ((key, item) ∷ rest) =
    let others = kept_values rest in
    if not (starts_with key "openid.") || str_eq key "openid.mode"
    then others
    else (key, item) ∷ others

has_valid_line : List String → Bool
has_valid_line [] = false
has_valid_line (line ∷ lines) = str_eq (trim line) "is_valid:true" || has_valid_line lines

-- the checks on the reply; the body is cut at 16 KiB before
pub accepted_reply : String → Reply → String ⊎ VerifyError
unfolding has_valid_line
accepted_reply id no_request = inr create_request
accepted_reply id no_response = inr send_request
accepted_reply id no_body = inr verification_failed
accepted_reply id (replied status body) =
    if not (status == 200)
    then inr verification_failed
    else if not (has_valid_line (split 10 body))
    then inr rejected
    else inl id

pub verify : AuthLib → (Values → Reply) → Values → String → String ⊎ VerifyError
unfolding kept_values
verify lib post values expected_return_to =
    let claimed = get "openid.claimed_id" values in
    if not (
      str_eq (get "openid.ns" values) "http://specs.openid.net/auth/2.0"
      && str_eq (get "openid.mode" values) "id_res")
    then inr invalid_mode
    else if not (
        str_eq (get "openid.op_endpoint" values) steam_open_id_endpoint
        && str_eq (get "openid.return_to" values) expected_return_to)
    then inr unexpected_endpoint
    else if str_eq claimed "" || not (str_eq claimed (get "openid.identity" values))
    then inr claim_mismatch
    else elim (steam_id_from_claim lib claimed) [
      | none ↦ inr invalid_claim
      | some id ↦
          accepted_reply id (post (("openid.mode", "check_authentication") ∷ kept_values values))
    ]
