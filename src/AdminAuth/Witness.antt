-- ===== src/AdminAuth/Witness.antt =====
-- The theorem on the login, at a manager with one admin.
use dayz_behaviour.Prelude.{none, some, [], ◌∷◌}
use dayz_behaviour.Prelude.Int.{pos}
use dayz_behaviour.AdminAuth.Session.{Request, encode, complete}
use dayz_behaviour.AdminAuth.Session.Login.{Completes, new_manager-complete}
use dayz_behaviour.AdminAuth.Examples.{
  sample_auth_lib, sample_auth_lib-IsCodec, sample_verifier, sample_config, sample_manager,
  sample_manager-new,
}

-- the login began a second ago, and Steam sends the browser back
abbrev callback : Request
callback = record {
  session_cookie = none;
  pending_cookie =
      some
        (encode sample_auth_lib sample_manager (record { value = "nonce"; expires_at = pos 600 }));
  query = ("state", "nonce") ∷ [];
  origin = "";
}

new_manager-complete_example :
    Completes sample_auth_lib sample_manager (pos 1000000000) (pos 1000000001) callback (
      complete sample_auth_lib sample_manager
        (pos 1000000000)
        (pos 1000000001)
        (pos 1000000002)
        callback)
new_manager-complete_example =
    new_manager-complete sample_auth_lib sample_config sample_verifier sample_manager
      (pos 1000000000) (pos 1000000001) (pos 1000000002) callback sample_auth_lib-IsCodec
      sample_manager-new
