-- ===== src/Privacy.antt =====
-- internal/privacy/raw.go: the events of one durable identity are taken out of the raw batches. The
-- codecs are parameters; what the file system refuses is an input.
pub mod Belongs
pub mod Durable
pub mod Mentions
pub mod Kept
pub mod Scrub
use Prim.Native.Char.{code}
use Prim.Native.String.{[] as nil_text, ◌∷◌ as ◌∷ₛ◌}
use dayz_behaviour.Prelude.{
  ℕ, ◌+◌, ◌==◌, Bool, true, false, ◌&&◌, ◌||◌, not, Option, none, some, List, [], ◌∷◌, ◌++◌, String,
  ltb, length, if◌then◌else◌, ◌⊎◌, inl, inr,
}
use dayz_behaviour.Prelude.Text.{str_eq, is_blank, len, ◌<>◌}
use dayz_behaviour.Prelude.Extension.{has_extension}
use dayz_behaviour.Json.{
  Json, Items, Fields, null, bool, number, text, array, object, nil, item, end, field,
}
use dayz_behaviour.Schema.{Batch, Event}
use dayz_behaviour.Agent.Outbox.Scan.{has_suffix}

pub record BatchRef : Type 0 where
  pub server_id : String
  pub server_session_id : String
  pub batch_sequence : ℕ

pub record ScrubStats : Type 0 where
  pub files_scanned : ℕ
  pub files_rewritten : ℕ
  pub files_deleted : ℕ
  pub events_removed : ℕ
  pub affected_batches : List BatchRef

pub data ScrubError : Type 0 where
  arguments_required walk_failed read_failed decode_failed remove_failed encode_failed
        replace_failed :
      ScrubError

-- encoding/json on a batch and on a payload, and strings.ToLower
pub record ScrubLib : Type 1 where
  pub Number : Type 0
  pub decode_batch : String → Option Batch
  pub encode_batch : Batch → Option String
  pub parse : String → Option (Json Number)
  pub to_lower : String → String

-- the text behind the last colon, none without a colon
after_last_colon : String → Option String
after_last_colon nil_text = none
after_last_colon (c ∷ₛ s) =
    let later = after_last_colon s in
    elim later [ some rest ↦ some rest | none ↦ if code c == b':' then some s else none ]

pub raw_durable_id : String → String
unfolding after_last_colon
raw_durable_id s = elim (after_last_colon s) [ none ↦ s | some rest ↦ rest ]

module _ (lib : ScrubLib) where
  open lib use {Number, decode_batch, encode_batch, parse, to_lower}

  pub identity_field_matches : String → String → String → Bool
  identity_field_matches key value identity =
      let lower = to_lower key in
      if has_suffix lower "player_session_id" || has_suffix lower "session_id"
      then str_eq (raw_durable_id value) identity
      else if has_suffix lower "player_id" || has_suffix lower "durable_player_id"
      then str_eq value identity
      else false

  has_key : String → Fields Number → Bool
  has_key key end = false
  has_key key (field k v rest) = str_eq k key || has_key key rest

  text_matches : String → Json Number → String → Bool
  text_matches key (text s) identity = identity_field_matches key s identity
  text_matches key _ identity = false

  -- a map keeps the last member of a repeated key
  mutual
    pub contains_identity : Json Number → String → Bool
    contains_identity (object fields) identity = contains_in_fields fields identity
    contains_identity (array items) identity = contains_in_items items identity
    contains_identity _ identity = false

    contains_in_items : Items Number → String → Bool
    contains_in_items nil identity = false
    contains_in_items (item v rest) identity =
        contains_identity v identity || contains_in_items rest identity

    contains_in_fields : Fields Number → String → Bool
    contains_in_fields end identity = false
    contains_in_fields (field k v rest) identity =
        (not (has_key k rest) && (text_matches k v identity || contains_identity v identity))
        || contains_in_fields rest identity

  pub event_matches : Event → String → Bool
  event_matches e identity =
      (str_eq e.player_id identity || str_eq (raw_durable_id e.player_session_id) identity)
      || (ltb 0 (len e.payload)
          && elim (parse e.payload) [ none ↦ false | some v ↦ contains_identity v identity ])

  pub kept_events : List Event → String → List Event
  kept_events [] identity = []
  kept_events (e ∷ es) identity =
      let rest = kept_events es identity in if event_matches e identity then rest else e ∷ rest

  pub removed_events : List Event → String → ℕ
  removed_events [] identity = 0
  removed_events (e ∷ es) identity =
      let rest = removed_events es identity in if event_matches e identity then rest + 1 else rest
