-- ===== src/AdminAuth/Session/Login.antt =====
-- internal/adminauth/auth.go: complete, and SteamID at the cookie that it sets.
use dayz_behaviour.Prelude.{
  ◌≡◌, refl, ◌∙◌, sym, subst, true, false, Option, none, some, List, [], ◌∷◌, String, arith,
  Bool-cases, Option-cases, ◌⊎◌, inl, inr, if◌then◌else◌,
}
use dayz_behaviour.Prelude.Int.{ℤ, ltb_ℤ, ◌≤ℤ◌, ◌+ℤ◌}
use dayz_behaviour.Prelude.Text.{str_eq, trim, eq_iff}
use dayz_behaviour.AdminAuth.{
  AuthLib, Config, Manager, SignedValue, Verifier, get, is_member, valid_steam_id, admins_of,
  new_manager,
}
use dayz_behaviour.AdminAuth.Session.{
  Request, Response, Cookie, unix, encode, decode, session_of, steam_id, callback_url, set_cookie,
  login_error, admit, is_pending, complete_value, complete,
}
use dayz_behaviour.AdminAuth.Session.Signing.{IsCodec, IsSigned, decode-IsSigned, decode-encode}

-- every id of the allowlist is a Steam id
abbrev pub HasValidAdmins : Manager → Type 0
HasValidAdmins m = (id : String) → is_member id m.admins ≡ true → valid_steam_id id ≡ true

-- the value of a cookie that the response sets
abbrev pub cookie_value : String → List Cookie → Option String
cookie_value name [] = none
cookie_value name (c ∷ cs) = if str_eq c.name name then some c.value else cookie_value name cs

-- the next request of the browser
abbrev pub next_request : Request → Response → Request
next_request request r = record request {
  session_cookie = cookie_value "dba_admin_session" r.cookies;
}

module _ (lib : AuthLib) (m : Manager) where
  -- the login that the pending cookie started was verified for `id`
  abbrev pub IsVerified : ℤ → Request → String → Type 0
  IsVerified checked request id =
      (raw : String) × (v : SignedValue) × (request.pending_cookie ≡ some raw)
      × IsSigned lib m raw v
      × (unix checked ≤ℤ v.expires_at)
      × (v.value ≡ get "state" request.query)
      × (m.verifier request.query (callback_url lib m v.value) ≡ some id)
      × (is_member id m.admins ≡ true)

  -- the response names `id` until the time to live is over, and nobody after
  abbrev pub IsSession : ℤ → Request → Response → String → Type 0
  IsSession now request r id =
      (t : ℤ)
      → steam_id lib m t (next_request request r)
        ≡ (if ltb_ℤ (unix (now +ℤ m.ttl)) (unix t) then ("", false) else (id, true))

  steam_id-decode :
      (t : ℤ) (request : Request) (raw : String) (v : SignedValue)
      → request.session_cookie ≡ some raw
      → decode lib m raw ≡ some v
      → steam_id lib m t request ≡ session_of lib m t v
  unfolding steam_id
  steam_id-decode t request raw v there read = rw (there, steam_id, read) refl

  admit-cookie :
      (now later : ℤ) (id : String)
      → is_member id m.admins ≡ true
      → cookie_value "dba_admin_session" (admit lib m now later id).cookies
        ≡ some (encode lib m (record { value = id; expires_at = unix (now +ℤ m.ttl) }))
  unfolding admit set_cookie
  admit-cookie now later id member = rw (member, admit) refl

  admit-status :
      (now later : ℤ) (id : String)
      → is_member id m.admins ≡ true
      → (admit lib m now later id).status ≡ 302
  unfolding admit
  admit-status now later id member = rw (member, admit) refl

  admit-refused :
      (now later : ℤ) (id : String)
      → is_member id m.admins ≡ false
      → let r = admit lib m now later id in (r.status ≡ 403) × (r.cookies ≡ [])
  unfolding admit login_error
  admit-refused now later id stranger = rw (stranger, admit) (refl, refl)

  -- a login that is not completed sets no cookie
  abbrev pub Completes : ℤ → ℤ → Request → Response → Type 0
  Completes checked now request r =
      ((r.status ≡ 403) × (r.cookies ≡ []))
      ⊎ (id : String) × IsVerified checked request id
        × IsSession now request r id
        × (r.status ≡ 302)

  module _ (codec : IsCodec lib) (valid : HasValidAdmins m) where
    admit-IsSession :
        (now later : ℤ) (request : Request) (id : String)
        → is_member id m.admins ≡ true
        → IsSession now request (admit lib m now later id) id
    unfolding session_of
    admit-IsSession now later request id member t =
        let v : SignedValue = record { value = id; expires_at = unix (now +ℤ m.ttl) } in
        steam_id-decode t (next_request request (admit lib m now later id)) (encode lib m v) v
          (admit-cookie now later id member) (decode-encode lib m codec v)
        ∙ rw (valid id member, member) (ground arith)

    complete_value-Completes :
        (checked now later : ℤ) (request : Request) (raw : String) (v : SignedValue)
        → request.pending_cookie ≡ some raw
        → decode lib m raw ≡ some v
        → Completes checked now request (complete_value lib m checked now later request (some v))
    unfolding complete_value login_error is_pending
    complete_value-Completes checked now later request raw v there read =
        elim (Bool-cases (is_pending lib m checked v request.query)) [
          | inr stale ↦ rw (stale, complete_value) (inl (refl, refl))
          | inl live ↦ elim (Option-cases (m.verifier request.query (callback_url lib m v.value))) [
            | inl refused ↦ rw (live, refused, complete_value) (inl (refl, refl))
            | inr (id, verified) ↦ elim (Bool-cases (is_member id m.admins)) [
              | inr stranger ↦
                  rw (live, verified, complete_value) (inl (admit-refused now later id stranger))
              | inl member ↦
                  rw (live, verified, complete_value)
                    (inr (
                      id,
                      (
                        raw,
                        v,
                        there,
                        decode-IsSigned lib m raw v read,
                        ground (arith, live),
                        ground (arith, live, eq_iff v.value (get "state" request.query)),
                        verified,
                        member,
                      ),
                      admit-IsSession now later request id member,
                      admit-status now later id member,
                    ))
            ]
          ]
        ]

    complete-Completes :
        (checked now later : ℤ) (request : Request)
        → Completes checked now request (complete lib m checked now later request)
    unfolding complete login_error complete_value
    complete-Completes checked now later request = elim (Option-cases request.pending_cookie) [
      | inl missing ↦ rw (missing, complete) (inl (refl, refl))
      | inr (raw, there) ↦ elim (Option-cases (decode lib m raw)) [
        | inl forged ↦ rw (there, forged, complete) (inl (refl, refl))
        | inr (v, read) ↦
            subst (Completes checked now request)
              (sym (
                let same : complete lib m checked now later request
                    ≡ complete_value lib m checked now later request (some v) =
                  rw (there, complete, read) refl in
                same))
              (complete_value-Completes checked now later request raw v there read)
      ]
    ]

admins_of-valid :
    (ids xs : List String) (id : String)
    → admins_of ids ≡ some xs
    → is_member id xs ≡ true
    → valid_steam_id id ≡ true
unfolding admins_of is_member
admins_of-valid [] xs id h member = absurd (cc (h, member))
admins_of-valid (x ∷ ids) xs id h member = elim (Bool-cases (valid_steam_id (trim x))) [
  | inr bad ↦ absurd (cc (rw (bad, admins_of) at h))
  | inl good ↦ elim (Option-cases (admins_of ids)) [
    | inl none_yet ↦ absurd (cc (rw (good, none_yet, admins_of) at h))
    | inr (others, rest) ↦
        let same : trim x ∷ others ≡ xs = cc (rw (good, rest, admins_of) at h) in
        elim (Bool-cases (str_eq (trim x) id)) [
          | inl e ↦ subst (λ (y : String). valid_steam_id y ≡ true) ((eq_iff (trim x) id).0 e) good
          | inr e ↦ admins_of-valid ids others id rest (
              let k : is_member id (trim x ∷ others) ≡ true =
                subst (λ (ys : List String). is_member id ys ≡ true) (sym same) member in
              ground (arith, k, e))
        ]
  ]
]

new_manager-HasValidAdmins :
    (lib : AuthLib) (config : Config) (verifier : Verifier) (m : Manager)
    → new_manager lib config verifier ≡ inl m
    → HasValidAdmins m
unfolding new_manager
new_manager-HasValidAdmins lib config verifier m h id member =
    admins_of-valid config.admin_steam_ids m.admins id (ground (arith, h)) member

-- With a manager that New returned, the login callback either answers 403 and sets no cookie, or
-- the pending cookie has two parts, a payload and its HMAC under the manager's secret, and the
-- payload had not expired and carries the state of the query, the verifier returned an id of the
-- allowlist, and the session cookie that the response sets names this id in every later request
-- until the time to live is over, and nobody after. The codecs must read what they write, and
-- base64 must write no dot.
pub new_manager-complete :
    (lib : AuthLib) (config : Config) (verifier : Verifier) (m : Manager) (checked now later : ℤ)
    (request : Request)
    → IsCodec lib
    → new_manager lib config verifier ≡ inl m
    → Completes lib m checked now request (complete lib m checked now later request)
new_manager-complete lib config verifier m checked now later request codec made =
    complete-Completes lib m codec (new_manager-HasValidAdmins lib config verifier m made) checked
      now later request
