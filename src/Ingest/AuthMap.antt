-- ===== src/Ingest/AuthMap.antt =====
-- cmd/ingestd/authmap.go: the credentials of the servers. The file and the JSON decoder are inputs: the
-- pairs of the decoded map, in the order in which Go happens to visit them.
use dayz_behaviour.Prelude.{
  Bool, false, ◌||◌, Option, none, some, List, [], ◌∷◌, String, if◌then◌else◌, ◌⊎◌, inl, inr,
}
use dayz_behaviour.Prelude.Text.{is_blank}

pub data AuthMapError : Type 0 where
  file_unreadable file_undecoded no_servers empty_server_or_value : AuthMapError

has_blank : List (String × String) → Bool
has_blank [] = false
has_blank ((server_id, value) ∷ rest) = (is_blank server_id || is_blank value) || has_blank rest

-- no path means no map
pub load_server_auth_map :
    String
    → Option String
    → (String → Option (List (String × String)))
    → List (String × String) ⊎ AuthMapError
unfolding has_blank
load_server_auth_map path content decode = if is_blank path then inl [] else elim content [
  | none ↦ inr file_unreadable
  | some text ↦ elim (decode text) [
    | none ↦ inr file_undecoded
    | some [] ↦ inr no_servers
    | some (pair ∷ pairs) ↦
        if has_blank (pair ∷ pairs) then inr empty_server_or_value else inl (pair ∷ pairs)
  ]
]
