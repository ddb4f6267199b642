-- ===== src/Privacy/Kept.antt =====
-- internal/privacy/raw.go: eventMatches, and the events that ScrubRaw keeps.
use dayz_behaviour.Prelude.{
  ◌≡◌, inl, inr, true, ◌&&◌, ltb, List, [], ◌∷◌, String, arith, Bool-cases, Option-cases,
}
use dayz_behaviour.Prelude.Text.{str_eq, eq_iff, len}
use dayz_behaviour.Schema.{Event}
use dayz_behaviour.Privacy.{ScrubLib, raw_durable_id, contains_identity, event_matches, kept_events}
use dayz_behaviour.Privacy.Belongs.{Belongs, IsWithout, done, dropped, kept}
use dayz_behaviour.Privacy.Durable.{raw_durable_id-IsDurable, IsDurable-raw_durable_id}
use dayz_behaviour.Privacy.Mentions.{contains_identity-Mentions, Mentions-contains_identity}

module _ (lib : ScrubLib) (identity : String) where
  open lib use {parse}

  event_matches-Belongs : (e : Event) → event_matches lib e identity ≡ true → Belongs lib identity e
  unfolding event_matches
  event_matches-Belongs e h = elim (Bool-cases (str_eq e.player_id identity)) [
    | inl player ↦ inl ((eq_iff e.player_id identity).0 player)
    | inr other ↦ elim (Bool-cases (str_eq (raw_durable_id e.player_session_id) identity)) [
      | inl session ↦
          inr (inl (raw_durable_id-IsDurable e.player_session_id identity ((eq_iff _ _).0 session)))
      | inr stranger ↦ elim (Option-cases (parse e.payload)) [
        | inl unread ↦ absurd (ground (arith, h, other, stranger, unread))
        | inr (v, read) ↦
            let both : (ltb 0 (len e.payload) && contains_identity lib v identity) ≡ true =
              rw (event_matches, other, stranger, read) at h in
            inr (
              inr (
                ground (arith, both),
                v,
                read,
                contains_identity-Mentions lib identity v (ground (arith, both)),
              ))
      ]
    ]
  ]

  Belongs-event_matches : (e : Event) → Belongs lib identity e → event_matches lib e identity ≡ true
  unfolding event_matches
  Belongs-event_matches e (inl player) = ground (arith, (eq_iff e.player_id identity).1 player)
  Belongs-event_matches e (inr (inl session)) = ground (
    arith,
    (eq_iff (raw_durable_id e.player_session_id) identity).1
        (IsDurable-raw_durable_id e.player_session_id identity session),
  )
  Belongs-event_matches e (inr (inr (some_bytes, v, read, inside))) =
      rw (event_matches, read, Mentions-contains_identity lib identity v inside)
        (ground (arith, some_bytes))

  pub kept_events-IsWithout :
      (es : List Event) → IsWithout lib identity es (kept_events lib es identity)
  unfolding kept_events
  kept_events-IsWithout [] = done
  kept_events-IsWithout (e ∷ es) = elim (Bool-cases (event_matches lib e identity)) [
    | inl own ↦
        rw (kept_events, own) (dropped (event_matches-Belongs e own) (kept_events-IsWithout es))
    | inr other ↦
        rw (kept_events, other)
          (kept (λ own. cc (other, Belongs-event_matches e own)) (kept_events-IsWithout es))
  ]
