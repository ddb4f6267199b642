-- ===== src/Privacy/Scrub/Files.antt =====
-- internal/privacy/raw.go: replaceFile, and what a walked file holds before and after its scrub.
use dayz_behaviour.Prelude.{
  ◌≡◌, ◌≢◌, refl, true, none, some, List, [], ◌∷◌, map, String, arith, ◌⊎◌, inl, inr, Bool-cases,
}
use dayz_behaviour.Prelude.Text.{eq_iff, ◌<>◌}
use dayz_behaviour.Disk.{Disk}
use dayz_behaviour.Schema.{Batch, Event}
use dayz_behaviour.Privacy.{ScrubLib, kept_events, event_matches}
use dayz_behaviour.Privacy.Belongs.{IsWithout}
use dayz_behaviour.Privacy.Scrub.{
  FileFaults, Walked, unreadable, file, backup_of, discard, commit_file, replace_file,
}

-- The files that the scrub of `path` writes beside it have names of their own.
abbrev pub IsApart : String → Walked → Type 0
IsApart p unreadable = Unit
IsApart p (file path f) = (p ≢ path) × (p ≢ f.temp_path) × (p ≢ backup_of path)

abbrev pub AllApartFrom : String → List Walked → Type 0
AllApartFrom p [] = Unit
AllApartFrom p (w ∷ ws) = IsApart p w × AllApartFrom p ws

abbrev pub HasOwnNames : String → FileFaults → Type 0
HasOwnNames path f = (path ≢ f.temp_path) × (path ≢ backup_of path) × (f.temp_path ≢ backup_of path)

module _ (path : String) (f : FileFaults) where
  -- a name apart is not touched
  pub replace_file-frame :
      (p content : String) (disk : Disk)
      → IsApart p (file path f)
      → (replace_file f path content disk).0 p ≡ disk p
  unfolding replace_file commit_file discard
  replace_file-frame p content disk apart =
      ground (arith, apart, eq_iff path p, eq_iff f.temp_path p, eq_iff (backup_of path) p)

  pub replace_file-ok :
      (content : String) (disk : Disk)
      → HasOwnNames path f
      → (replace_file f path content disk).1 ≡ true
      → (replace_file f path content disk).0 path ≡ some content
  unfolding replace_file commit_file discard
  replace_file-ok content disk own h = ground (
    arith,
    own,
    h,
    eq_iff path path,
    eq_iff f.temp_path f.temp_path,
    eq_iff path f.temp_path,
    eq_iff (backup_of path) f.temp_path,
    eq_iff (backup_of path) path,
  )

-- `disk` holds the batch `b` at `path`
abbrev pub HoldsBatch : ScrubLib → Disk → String → Batch → Type 0
HoldsBatch lib disk path b =
    (content : String) × (disk path ≡ some content) × (lib.decode_batch content ≡ some b)

-- the batch whose payloads the encoder has made compact
abbrev pub compacted : (String → String) → Batch → Batch
compacted compact b = record b {
  events = map (λ (e : Event). record e { payload = compact e.payload }) b.events;
}

-- the events of a batch that was decoded, unchanged on the disk, gone, or written again without those
-- of the identity
abbrev pub IsLeft : ScrubLib → (String → String) → String → Batch → Disk → Disk → String → Type 0
IsLeft lib compact identity b disk disk' path =
    (rs : List Event) × IsWithout lib identity b.events rs
    × (((rs ≡ b.events) × (disk' path ≡ disk path))
        ⊎ (((rs ≡ []) × (disk' path ≡ none))
            ⊎ HoldsBatch lib disk' path (compacted compact (record b { events = rs }))))

abbrev pub IsScrubbed : ScrubLib → (String → String) → String → Disk → Disk → String → Type 0
IsScrubbed lib compact identity disk disk' path =
    (b : Batch) → HoldsBatch lib disk path b → IsLeft lib compact identity b disk disk' path

abbrev pub IsIn : Event → List Event → Type 0
IsIn e [] = ⊥
IsIn e (x ∷ xs) = (e ≡ x) ⊎ IsIn e xs

abbrev pub AllIn : List Event → List Event → Type 0
AllIn [] xs = Unit
AllIn (r ∷ rs) xs = IsIn r xs × AllIn rs xs

-- what the scrub relies on: json.Marshal, at a decoded batch with some of its events, writes a text
-- that decodes to it with its payloads compacted, a newline behind it or not
abbrev pub IsBatchCodec : ScrubLib → (String → String) → Type 0
IsBatchCodec lib compact =
    (content : String) (b : Batch) (es : List Event) (s : String)
    → lib.decode_batch content ≡ some b
    → AllIn es b.events
    → lib.encode_batch (record b { events = es }) ≡ some s
    → lib.decode_batch (s <> "\n") ≡ some (compacted compact (record b { events = es }))

AllIn-longer : (x : Event) (rs xs : List Event) → AllIn rs xs → AllIn rs (x ∷ xs)
AllIn-longer x [] xs h = tt
AllIn-longer x (r ∷ rs) xs h = (inr h.0, AllIn-longer x rs xs h.1)

pub kept_events-AllIn :
    (lib : ScrubLib) (identity : String) (es : List Event) → AllIn (kept_events lib es identity) es
unfolding kept_events
kept_events-AllIn lib identity [] = tt
kept_events-AllIn lib identity (e ∷ es) =
    let rest =
      AllIn-longer e (kept_events lib es identity) es (kept_events-AllIn lib identity es) in
    elim (Bool-cases (event_matches lib e identity)) [
      | inl own ↦ rw (kept_events, own) rest
      | inr other ↦ rw (kept_events, other) (inl refl, rest)
    ]
