-- ===== src/Ingest/Auth.antt =====
-- internal/ingest/server.go: the decision of authorised, as a type.
use dayz_behaviour.Prelude.{
  ◌≡◌, ◌≢◌, ◌⊎◌, true, some, String, arith, inl, inr, Bool-cases, Option-cases, not, ◌&&◌,
}
use dayz_behaviour.Prelude.Text.{str_eq, eq_iff}
use dayz_behaviour.Ingest.{
  Config, bearer_credential, secure_equal, credential_of, is_nil, by_server, authorised,
}

-- What a request that may go on has shown: nothing where no credential is configured, the credential of
-- the server it names, or one of the two tokens. No empty secret is ever one.
pub data IsBacked (config : Config) (header query_credential claimed : String)
    : String → Type 0 where
  open_receiver :
      config.bearer_token ≡ ""
      → config.query_token ≡ ""
      → is_nil config.server_credentials ≡ true
      → IsBacked config header query_credential claimed ""
  server_credential :
      claimed ≢ ""
      → bearer_credential header ≢ ""
      → credential_of claimed config.server_credentials ≡ some (bearer_credential header)
      → IsBacked config header query_credential claimed claimed
  bearer_token :
      config.bearer_token ≢ ""
      → bearer_credential header ≡ config.bearer_token
      → (claimed ≡ "") ⊎ (is_nil config.server_credentials ≡ true)
      → IsBacked config header query_credential claimed ""
  query_token :
      config.query_token ≢ ""
      → query_credential ≡ config.query_token
      → (claimed ≡ "") ⊎ (is_nil config.server_credentials ≡ true)
      → IsBacked config header query_credential claimed ""

module _ (config : Config) (header query_credential claimed : String) where
  by_server-IsBacked :
      claimed ≢ ""
      → (by_server config (bearer_credential header) claimed).1 ≡ true
      → IsBacked config header query_credential claimed
          (by_server config (bearer_credential header) claimed).0
  unfolding by_server
  by_server-IsBacked ne h = elim (Option-cases (credential_of claimed config.server_credentials)) [
    | inl e ↦ absurd (ground (arith, e))
    | inr (expected, e) ↦
        let bearer = bearer_credential header in
        elim (Bool-cases (str_eq bearer "")) [
          | inl b ↦ absurd (ground (arith, e, b))
          | inr b ↦ elim (Bool-cases (secure_equal bearer expected)) [
            | inr k ↦ absurd (ground (arith, e, b, k))
            | inl k ↦
                let same : bearer ≡ expected = ground (arith, eq_iff bearer expected) in
                rw (by_server, e, b, k)
                  (server_credential ne (λ z. absurd (ground (arith, eq_iff bearer "")))
                    (rw same e))
          ]
        ]
  ]

  -- A request that may go on has shown the credential of the server it names and is bound to that
  -- server, or has shown the bearer or the query token, where no server is named or no server has
  -- a credential; the secret is never empty. Only a receiver with no credential at all asks for
  -- none.
  pub authorised-IsBacked :
      (authorised config header query_credential claimed).1 ≡ true
      → IsBacked config header query_credential claimed
          (authorised config header query_credential claimed).0
  unfolding authorised
  authorised-IsBacked h =
      elim (Bool-cases (not (str_eq claimed "") && not (is_nil config.server_credentials))) [
        | inl e ↦
            rw (e, authorised)
              (by_server-IsBacked (λ z. absurd (ground (arith, eq_iff claimed "")))
                (rw (e, authorised) at h))
        | inr e ↦
            let free : (claimed ≡ "") ⊎ (is_nil config.server_credentials ≡ true) =
              ground (arith, eq_iff claimed "") in
            let bearer = bearer_credential header in
            elim (Bool-cases (str_eq config.bearer_token "" && str_eq config.query_token "")) [
              | inl unset ↦
                  rw (e, authorised, unset)
                    (open_receiver (ground (arith, eq_iff config.bearer_token ""))
                      (ground (arith, eq_iff config.bearer_token "", eq_iff config.query_token ""))
                      (rw (e, authorised, unset) at h))
              | inr set ↦
                  elim (Bool-cases (
                    not (str_eq config.bearer_token "")
                    && (not (str_eq bearer "") && secure_equal bearer config.bearer_token))) [
                      | inl k ↦
                          rw (e, authorised, set, k)
                            (bearer_token
                              (λ z. absurd (ground (arith, eq_iff config.bearer_token "")))
                              (ground (
                                arith,
                                eq_iff config.bearer_token "",
                                eq_iff bearer config.bearer_token,
                              ))
                              free)
                      | inr k ↦
                          let q = rw (e, authorised, set, k) at h in
                          rw (e, authorised, set, k)
                            (query_token
                              (λ z. absurd (ground (arith, eq_iff config.query_token "", q)))
                              (ground (
                                arith,
                                eq_iff config.query_token "",
                                eq_iff query_credential config.query_token,
                                q,
                              ))
                              free)
                    ]
            ]
      ]
