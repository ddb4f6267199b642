-- ===== src/Privacy/Belongs.antt =====
-- internal/privacy/raw.go: which events belong to an identity, written without the code.
use dayz_behaviour.Prelude.{◌<◌, ◌≡◌, ◌⊎◌, true, false, some, List, [], ◌∷◌, String}
use dayz_behaviour.Prelude.Text.{len, ◌<>◌}
use dayz_behaviour.Prelude.Split.{is_free_of}
use dayz_behaviour.Json.{Json, Items, Fields, text, array, object, nil, item, get_field}
use dayz_behaviour.Schema.{Event}
use dayz_behaviour.Agent.Outbox.Scan.{has_suffix}
use dayz_behaviour.Privacy.{ScrubLib}

-- `id` is the part of a session id behind its last colon, or all of it where there is none
abbrev pub IsDurable : String → String → Type 0
IsDurable s id =
    (is_free_of b':' id ≡ true) × ((s ≡ id) ⊎ (prefix : String) × (s ≡ prefix <> (":" <> id)))

-- an element of an array
module _ {N : Type 0} where
  abbrev pub IsItem : Json N → Items N → Type 0
  IsItem v nil = ⊥
  IsItem v (item w rest) = (w ≡ v) ⊎ IsItem v rest

module _ (lib : ScrubLib) (identity : String) where
  open lib use {Number, parse, to_lower}

  -- a member of this name and text names the identity
  abbrev pub Names : String → String → Type 0
  Names key value =
      (((has_suffix (to_lower key) "player_session_id" ≡ true)
          ⊎ (has_suffix (to_lower key) "session_id" ≡ true))
        × IsDurable value identity)
      ⊎ (((has_suffix (to_lower key) "player_session_id" ≡ false)
            × (has_suffix (to_lower key) "session_id" ≡ false))
          × ((has_suffix (to_lower key) "player_id" ≡ true)
              ⊎ (has_suffix (to_lower key) "durable_player_id" ≡ true))
          × (value ≡ identity))

  -- a member somewhere inside the value names the identity
  pub data Mentions : Json Number → Type 0 where
    names :
        {fields : Fields Number} (key value : String)
        → get_field key fields ≡ some (text value)
        → Names key value
        → Mentions (object fields)
    in_field :
        {fields : Fields Number} (key : String) (v : Json Number)
        → get_field key fields ≡ some v
        → Mentions v
        → Mentions (object fields)
    in_item :
        {items : Items Number} (v : Json Number)
        → IsItem v items
        → Mentions v
        → Mentions (array items)

  -- the player or the session is the identity's, or the payload mentions it
  abbrev pub Belongs : Event → Type 0
  Belongs e =
      (e.player_id ≡ identity)
      ⊎ (IsDurable e.player_session_id identity
          ⊎ ((0 < len e.payload) × (v : Json Number) × (parse e.payload ≡ some v) × Mentions v))

  -- `rs` are the events of `es` that do not belong to the identity, in their order
  pub data IsWithout : List Event → List Event → Type 0 where
    done : IsWithout [] []
    dropped : {e : Event} {es rs : List Event} → Belongs e → IsWithout es rs → IsWithout (e ∷ es) rs
    kept :
        {e : Event} {es rs : List Event}
        → ¬ Belongs e
        → IsWithout es rs
        → IsWithout (e ∷ es) (e ∷ rs)
