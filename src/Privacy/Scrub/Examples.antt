-- ===== src/Privacy/Scrub/Examples.antt =====
-- Two raw batches, one of the identity that is scrubbed.
use dayz_behaviour.Prelude.{
  ℕ, ◌≡◌, ◌≢◌, refl, sym, ap, subst, true, false, Option, none, some, List, [], ◌∷◌, String,
  if◌then◌else◌, ◌⊎◌, inl, inr, Bool-cases, arith,
}
use dayz_behaviour.Prelude.Text.{str_eq, trim, ◌<>◌}
use dayz_behaviour.Prelude.Extension.{has_extension}
use dayz_behaviour.Disk.{Disk}
use dayz_behaviour.Schema.{Batch, Event}
use dayz_behaviour.Schema.Examples.{sample_event, sample_batch}
use dayz_behaviour.Agent.Outbox.Scan.{has_suffix}
use dayz_behaviour.Privacy.{
  ScrubLib, event_matches, kept_events, removed_events, raw_durable_id, after_last_colon,
}
use dayz_behaviour.Privacy.Scrub.{
  FileFaults, Walked, file, scrub_raw, scrub_all, scrub_walked, scrub_content, scrub_batch,
  count_batch, count_file, write_kept, delete_batch, rewrite_batch, after_replace, replace_file,
  commit_file, discard,
}
use dayz_behaviour.Privacy.Scrub.Files.{IsBatchCodec, compacted, IsIn}
use dayz_behaviour.Privacy.Scrub.Clean.{AllApart}

abbrev own_event : Event
own_event = record sample_event { player_session_id = "s1:subject" }

abbrev loose_event : Event
loose_event = record sample_event { payload = "{ }" }

abbrev pub own_batch : Batch
own_batch = record sample_batch { events = own_event ∷ [] }

abbrev pub mixed_batch : Batch
mixed_batch = record sample_batch { events = own_event ∷ loose_event ∷ [] }

abbrev pub squeeze_payload : String → String
squeeze_payload text = if str_eq text "{ }" then "{}" else text

abbrev pub kept_batch : Batch
kept_batch = record sample_batch { events = record sample_event { payload = "{}" } ∷ [] }

pub decode_sample : String → Option Batch
decode_sample text =
    if str_eq text "own"
    then some own_batch
    else if str_eq text "mixed"
    then some mixed_batch
    else if str_eq text "kept\n"
    then some kept_batch
    else none

-- writes a batch whose one event is not the subject's and has a loose payload
pub encode_sample : Batch → Option String
encode_sample b = elim b.events [
  | [] ↦ none
  | e ∷ rest ↦ elim rest [
    | [] ↦ if str_eq e.payload "{ }" then some "kept" else none
    | d ∷ more ↦ none
  ]
]

-- a codec for the batches of two files
abbrev pub sample_scrub_lib : ScrubLib
sample_scrub_lib = record {
  Number = ℕ;
  decode_batch = decode_sample;
  encode_batch = encode_sample;
  parse = λ text. none;
  to_lower = λ text. text;
}

abbrev pub two_files : Disk
two_files path =
    if str_eq path "/raw/a.json"
    then some "own"
    else if str_eq path "/raw/b.json"
    then some "mixed"
    else none

abbrev pub plain_file : FileFaults
plain_file = record {
  read = false;
  remove = false;
  create = false;
  write = false;
  clear_backup = false;
  back_up = false;
  commit = false;
  restore = false;
  drop_backup = false;
  cleanup = false;
  temp_path = "/raw/.privacy-rewrite-1";
  partial = "";
}

abbrev pub two_walked : List Walked
two_walked = file "/raw/a.json" plain_file ∷ file "/raw/b.json" plain_file ∷ []

decode_sample-cases :
    (text : String) (b : Batch)
    → decode_sample text ≡ some b
    → (own_batch ≡ b) ⊎ ((mixed_batch ≡ b) ⊎ (kept_batch ≡ b))
unfolding decode_sample
decode_sample-cases text b h = elim (Bool-cases (str_eq text "own")) [
  | inl e ↦ inl (cc (rw (decode_sample, e) at h))
  | inr e ↦ elim (Bool-cases (str_eq text "mixed")) [
    | inl e' ↦ inr (inl (cc (rw (decode_sample, e, e') at h)))
    | inr e' ↦ elim (Bool-cases (str_eq text "kept\n")) [
      | inl e'' ↦ inr (inr (cc (rw (decode_sample, e, e', e'') at h)))
      | inr e'' ↦ absurd (ground (arith, h, e, e', e''))
    ]
  ]
]

abbrev IsWritten : Batch → Event → Type 0
IsWritten b e =
    (s : String)
    → encode_sample (record b { events = e ∷ [] }) ≡ some s
    → decode_sample (s <> "\n") ≡ some (compacted squeeze_payload (record b { events = e ∷ [] }))

own_event-IsWritten : IsWritten sample_batch own_event
unfolding encode_sample
own_event-IsWritten s h = absurd (ground (arith, h))

kept_event-IsWritten : IsWritten sample_batch (record sample_event { payload = "{}" })
unfolding encode_sample
kept_event-IsWritten s h = absurd (ground (arith, h))

loose_event-IsWritten : IsWritten sample_batch loose_event
unfolding encode_sample decode_sample
loose_event-IsWritten s h =
    let same : "kept" ≡ s = cc (h) in
    subst (λ (t : String). decode_sample (t <> "\n") ≡ some kept_batch) same refl

at_event : (e d : Event) → IsWritten sample_batch d → e ≡ d → IsWritten sample_batch e
at_event e d written same = subst (IsWritten sample_batch) (sym same) written

abbrev HasWritten : Batch → Type 0
HasWritten b = (e : Event) → IsIn e b.events → IsWritten b e

own_batch-HasWritten : HasWritten own_batch
own_batch-HasWritten e (inl same) = at_event e own_event own_event-IsWritten same
own_batch-HasWritten e (inr nothing) = elim nothing [ ]

mixed_batch-HasWritten : HasWritten mixed_batch
mixed_batch-HasWritten e (inl same) = at_event e own_event own_event-IsWritten same
mixed_batch-HasWritten e (inr (inl same)) = at_event e loose_event loose_event-IsWritten same
mixed_batch-HasWritten e (inr (inr nothing)) = elim nothing [ ]

kept_batch-HasWritten : HasWritten kept_batch
kept_batch-HasWritten e (inl same) =
    at_event e (record sample_event { payload = "{}" }) kept_event-IsWritten same
kept_batch-HasWritten e (inr nothing) = elim nothing [ ]

decode_sample-HasWritten : (text : String) (b : Batch) → decode_sample text ≡ some b → HasWritten b
decode_sample-HasWritten text b read = elim (decode_sample-cases text b read) [
  | inl same ↦ subst HasWritten same own_batch-HasWritten
  | inr (inl same) ↦ subst HasWritten same mixed_batch-HasWritten
  | inr (inr same) ↦ subst HasWritten same kept_batch-HasWritten
]

pub sample_scrub_lib-IsBatchCodec : IsBatchCodec sample_scrub_lib squeeze_payload
unfolding encode_sample
sample_scrub_lib-IsBatchCodec content b [] s read from coded = absurd (cc (coded))
sample_scrub_lib-IsBatchCodec content b (e ∷ d ∷ es) s read from coded = absurd (cc (coded))
sample_scrub_lib-IsBatchCodec content b (e ∷ []) s read from coded =
    decode_sample-HasWritten content b read e from.0 s coded

differs_by : (s t : String) → str_eq s t ≡ false → str_eq t t ≡ true → s ≢ t
differs_by s t h k e = absurd (cc (ap (λ (x : String). str_eq x t) e, h, k))

pub two_walked-AllApart : AllApart two_walked
two_walked-AllApart = (
  (differs_by _ _ refl refl, differs_by _ _ refl refl, differs_by _ _ refl refl),
  ((differs_by _ _ refl refl, differs_by _ _ refl refl, differs_by _ _ refl refl), tt),
  ((differs_by _ _ refl refl, differs_by _ _ refl refl, differs_by _ _ refl refl), tt),
  ((differs_by _ _ refl refl, differs_by _ _ refl refl, differs_by _ _ refl refl), tt, tt, tt),
)

pub two_files-scrubbed :
    (scrub_raw sample_scrub_lib "/raw" "subject" true two_walked two_files).1 ≡ none
unfolding scrub_raw scrub_all scrub_walked scrub_content scrub_batch count_batch count_file
    write_kept delete_batch rewrite_batch after_replace replace_file commit_file discard
    event_matches kept_events removed_events raw_durable_id after_last_colon has_extension trim
    has_suffix decode_sample encode_sample
two_files-scrubbed = refl

two_files-rewritten :
    (scrub_raw sample_scrub_lib "/raw" "subject" true two_walked two_files).0.disk "/raw/b.json"
    ≡ some "kept\n"
unfolding scrub_raw scrub_all scrub_walked scrub_content scrub_batch count_batch count_file
    write_kept delete_batch rewrite_batch after_replace replace_file commit_file discard
    event_matches kept_events removed_events raw_durable_id after_last_colon has_extension trim
    has_suffix decode_sample encode_sample
two_files-rewritten = refl
