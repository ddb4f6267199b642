-- ===== src/Privacy/Scrub/Batches.antt =====
-- internal/privacy/raw.go: the disk before and after the scrub of one file.
use dayz_behaviour.Prelude.{
  ◌==◌, ◌≡◌, refl, sym, ap, ◌∙◌, Bool, true, false, Option, none, some, List, [], ◌∷◌, String,
  arith, ◌⊎◌, inl, inr, Bool-cases, Option-cases,
}
use dayz_behaviour.Prelude.Text.{eq_iff, ◌<>◌}
use dayz_behaviour.Disk.{Disk}
use dayz_behaviour.Schema.{Batch, Event}
use dayz_behaviour.Privacy.{ScrubLib, ScrubStats, kept_events, removed_events, event_matches}
use dayz_behaviour.Privacy.Kept.{kept_events-IsWithout}
use dayz_behaviour.Privacy.Scrub.{
  FileFaults, file, replace_file, count_batch, delete_batch, after_replace, rewrite_batch,
  write_kept, scrub_batch, scrub_content,
}
use dayz_behaviour.Privacy.Scrub.Files.{
  IsApart, HasOwnNames, HoldsBatch, IsLeft, IsScrubbed, AllIn, IsBatchCodec, compacted,
  replace_file-frame, replace_file-ok, kept_events-AllIn,
}

module _ (lib : ScrubLib) (identity : String) where
  kept_events-none :
      (es : List Event) → removed_events lib es identity ≡ 0 → kept_events lib es identity ≡ es
  unfolding kept_events removed_events
  kept_events-none [] h = refl
  kept_events-none (e ∷ es) h = elim (Bool-cases (event_matches lib e identity)) [
    | inl k ↦ absurd (omega (arith, rw (k) at h))
    | inr k ↦ rw (k) (ap (◌∷◌ e) (kept_events-none es (rw (k) at h)))
  ]

  module _ (compact : String → String) (f : FileFaults) (path : String) (disk : Disk) where
    after_replace-disk :
        (stats : ScrubStats) (r : Disk × Bool) → (after_replace stats r).0.disk ≡ r.0
    unfolding after_replace
    after_replace-disk stats (d, false) = refl
    after_replace-disk stats (d, true) = refl

    after_replace-ok :
        (stats : ScrubStats) (r : Disk × Bool) → (after_replace stats r).1 ≡ none → r.1 ≡ true
    unfolding after_replace
    after_replace-ok stats (d, false) h = absurd (cc (h))
    after_replace-ok stats (d, true) h = refl

    write_kept-frame :
        (p : String) (b : Batch) (es : List Event) (stats : ScrubStats)
        → IsApart p (file path f)
        → (write_kept lib f path b es stats disk).0.disk p ≡ disk p
    unfolding write_kept delete_batch rewrite_batch
    write_kept-frame p b [] stats apart = ground (arith, apart, eq_iff path p)
    write_kept-frame p b (e ∷ es) stats apart =
        elim (Option-cases (lib.encode_batch (record b { events = e ∷ es }))) [
          | inl bad ↦ rw (bad, write_kept, rewrite_batch) refl
          | inr (text, coded) ↦
              rw
                (
                  coded,
                  write_kept,
                  rewrite_batch,
                  after_replace-disk stats (replace_file f path (text <> "\n") disk),
                )
                (replace_file-frame path f p (text <> "\n") disk apart)
        ]

    write_kept-holds :
        (content : String) (b : Batch) (es : List Event) (stats : ScrubStats)
        → IsBatchCodec lib compact
        → HasOwnNames path f
        → lib.decode_batch content ≡ some b
        → AllIn es b.events
        → (write_kept lib f path b es stats disk).1 ≡ none
        → let d = (write_kept lib f path b es stats disk).0.disk in
          ((es ≡ []) × (d path ≡ none))
          ⊎ HoldsBatch lib d path (compacted compact (record b { events = es }))
    unfolding write_kept delete_batch rewrite_batch
    write_kept-holds content b [] stats codec own read from h =
        inl (refl, ground (arith, h, eq_iff path path))
    write_kept-holds content b (e ∷ es) stats codec own read from h =
        elim (Option-cases (lib.encode_batch (record b { events = e ∷ es }))) [
          | inl bad ↦ absurd (cc (rw (bad, write_kept, rewrite_batch) at h))
          | inr (text, coded) ↦
              let r = replace_file f path (text <> "\n") disk in
              let done : r.1 ≡ true =
                after_replace-ok stats r (rw (coded, write_kept, rewrite_batch) at h) in
              rw (coded, write_kept, rewrite_batch, after_replace-disk stats r)
                (inr (
                  text <> "\n",
                  replace_file-ok path f (text <> "\n") disk own done,
                  codec content b (e ∷ es) text read from coded,
                ))
        ]

    scrub_batch-frame :
        (execute : Bool) (p : String) (b : Batch) (stats : ScrubStats)
        → IsApart p (file path f)
        → (scrub_batch lib identity execute f path b stats disk).0.disk p ≡ disk p
    unfolding scrub_batch
    scrub_batch-frame execute p b stats apart =
        let counted = count_batch (removed_events lib b.events identity) b stats in
        ground (arith, write_kept-frame p b (kept_events lib b.events identity) counted apart)

    scrub_batch-IsScrubbed :
        (b : Batch) (stats : ScrubStats)
        → IsBatchCodec lib compact
        → HasOwnNames path f
        → HoldsBatch lib disk path b
        → (scrub_batch lib identity true f path b stats disk).1 ≡ none
        → IsLeft lib compact identity b disk
            (scrub_batch lib identity true f path b stats disk).0.disk
            path
    unfolding scrub_batch
    scrub_batch-IsScrubbed b stats codec own holds h =
        elim (Bool-cases (removed_events lib b.events identity == 0)) [
          | inl k ↦
              rw (k, scrub_batch)
                (
                  kept_events lib b.events identity,
                  kept_events-IsWithout lib identity b.events,
                  inl (kept_events-none b.events (ground (arith, k)), refl),
                )
          | inr k ↦
              let (content, there, read) = holds in
              rw (k, scrub_batch)
                (
                  kept_events lib b.events identity,
                  kept_events-IsWithout lib identity b.events,
                  inr (
                      write_kept-holds content b (kept_events lib b.events identity)
                        (count_batch (removed_events lib b.events identity) b stats) codec own read
                        (kept_events-AllIn lib identity b.events) (rw (k, scrub_batch) at h)),
                )
        ]

    pub scrub_content-frame :
        (execute : Bool) (p : String) (o : Option String) (stats : ScrubStats)
        → IsApart p (file path f)
        → (scrub_content lib identity execute f path o stats disk).0.disk p ≡ disk p
    unfolding scrub_content
    scrub_content-frame execute p none stats apart = refl
    scrub_content-frame execute p (some content) stats apart =
        elim (Option-cases (lib.decode_batch content)) [
          | inl bad ↦ rw (bad, scrub_content) refl
          | inr (b, read) ↦ rw (read, scrub_content) (scrub_batch-frame execute p b stats apart)
        ]

    pub scrub_content-IsScrubbed :
        (o : Option String) (stats : ScrubStats)
        → IsBatchCodec lib compact
        → HasOwnNames path f
        → ((content : String) → o ≡ some content → disk path ≡ some content)
        → (scrub_content lib identity true f path o stats disk).1 ≡ none
        → IsScrubbed lib compact identity disk
            (scrub_content lib identity true f path o stats disk).0.disk
            path
    unfolding scrub_content
    scrub_content-IsScrubbed none stats codec own here h b held = absurd (cc (h))
    scrub_content-IsScrubbed (some content) stats codec own here h b held =
        let (text, there, read) = held in
        let same : text ≡ content = cc (there, here content refl) in
        let read' : lib.decode_batch content ≡ some b = ap lib.decode_batch (sym same) ∙ read in
        rw (read', scrub_content)
          (scrub_batch-IsScrubbed b stats codec own (text, there, read)
            (rw (read', scrub_content) at h))
