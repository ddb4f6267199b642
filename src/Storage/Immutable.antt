-- ===== src/Storage/Immutable.antt =====
-- internal/storage/raw.go: the stored files before and after Put.
use dayz_behaviour.Prelude.{
  false, Option, none, some, String, ◌≡◌, ◌≢◌, inl, inr, refl, ap, ◌∙◌, arith, Bool-cases,
  Option-cases, if◌then◌else◌,
}
use dayz_behaviour.Prelude.Text.{str_eq, eq_iff, trim, trim-newline, ◌<>◌}
use dayz_behaviour.Disk.{Disk, WriteError, atomic_write}
use dayz_behaviour.Disk.Atomic.{atomic_write-frame, atomic_write-ok}
use dayz_behaviour.Schema.{Batch}
use dayz_behaviour.Storage.{
  already_stored, batch_conflict, RawStore, StoreEnv, final_path, against, after_rename, is_rename,
  finish_store, store_text, put,
}

finish_store-frame :
    (env : StoreEnv) (path text q : String) (r : Disk × Option WriteError)
    → path ≢ q
    → (finish_store env path text r).0 q ≡ r.0 q
unfolding finish_store after_rename
finish_store-frame env path text q (disk, none) ne = refl
finish_store-frame env path text q (disk, some e) ne = elim (Bool-cases (is_rename e)) [
  | inl r ↦ elim (Option-cases env.rival) [
    | inl v ↦ rw (r, v) refl
    | inr (c, v) ↦ rw (r, v) (ground (arith, eq_iff path q))
  ]
  | inr r ↦ rw (r) refl
]

store_text-keeps :
    (env : StoreEnv) (path text q c : String) (disk : Disk)
    → env.write.temp_path ≢ q
    → disk q ≡ some c
    → (store_text env path text disk).0 q ≡ some c
unfolding store_text
store_text-keeps env path text q c disk nt h = elim (Option-cases (disk path)) [
  | inl e ↦
      let ne : path ≢ q = λ p. absurd (ground (arith, e, h, ap disk p)) in
      rw (e, store_text)
        (finish_store-frame env path text q (atomic_write env.write path (text <> "\n") disk) ne
          ∙ atomic_write-frame env.write path (text <> "\n") disk q ne nt
          ∙ h)
  | inr (old, e) ↦ rw (e, store_text) h
]

module _ (env : StoreEnv) (s : RawStore) (batch : Batch) (disk : Disk) where
  -- A stored file is immutable: whatever batch RawStore.Put is given and whatever fails, each
  -- file on the disk but the temporary one keeps its content.
  pub put-keeps :
      (q c : String)
      → env.write.temp_path ≢ q
      → disk q ≡ some c
      → (put env s batch disk).0 q ≡ some c
  unfolding put
  put-keeps q c nt h = elim (Option-cases (env.marshal batch)) [
    | inl e ↦ rw (e, put) h
    | inr (text, e) ↦ elim (Bool-cases env.mkdir_fails) [
      | inl m ↦ rw (e, m, put) h
      | inr m ↦ elim (Bool-cases env.stat_fails) [
        | inl f ↦ rw (e, m, f, put) h
        | inr f ↦ rw (e, m, f, put) (store_text-keeps env (final_path s batch) text q c disk nt h)
      ]
    ]
  ]

finish_store-ok :
    (env : StoreEnv) (path text : String) (r : Disk × Option WriteError)
    → (finish_store env path text r).1 ≡ none
    → (r.1 ≡ none) × ((finish_store env path text r).0 ≡ r.0)
unfolding finish_store after_rename
finish_store-ok env path text (disk, none) ok = (refl, refl)
finish_store-ok env path text (disk, some e) ok = elim (Bool-cases (is_rename e)) [
  | inl r ↦ elim (Option-cases env.rival) [
    | inl v ↦ absurd (ground arith)
    | inr (c, v) ↦ absurd (ground arith)
  ]
  | inr r ↦ absurd (ground arith)
]

store_text-stores :
    (env : StoreEnv) (path text : String) (disk : Disk)
    → (store_text env path text disk).1 ≡ none
    → (store_text env path text disk).0 path ≡ some (text <> "\n")
unfolding store_text
store_text-stores env path text disk ok = elim (Option-cases (disk path)) [
  | inl e ↦
      let (wrote, same) =
        finish_store-ok env path text (atomic_write env.write path (text <> "\n") disk)
          (rw (e, store_text) at ok) in
      rw (e, store_text)
        (ap (λ (d : Disk). d path) same ∙ atomic_write-ok env.write path (text <> "\n") disk wrote)
  | inr (old, e) ↦ absurd (ground (arith, e))
]

-- A Put that succeeds has written the encoding and its newline to the batch file.
pub put-stores :
    (env : StoreEnv) (s : RawStore) (batch : Batch) (disk : Disk) (text : String)
    → env.marshal batch ≡ some text
    → (put env s batch disk).1 ≡ none
    → (put env s batch disk).0 (final_path s batch) ≡ some (text <> "\n")
unfolding put
put-stores env s batch disk text coded ok = elim (Bool-cases env.mkdir_fails) [
  | inl m ↦ absurd (ground arith)
  | inr m ↦ elim (Bool-cases env.stat_fails) [
    | inl f ↦ absurd (ground arith)
    | inr f ↦
        rw (coded, put, m, f)
          (store_text-stores env (final_path s batch) text disk (rw (coded, put, m, f) at ok))
  ]
]

-- Put meets a file that is there already.
put_existing :
    (env : StoreEnv) (s : RawStore) (batch : Batch) (disk : Disk) (old text : String)
    → env.marshal batch ≡ some text
    → env.mkdir_fails ≡ false
    → env.stat_fails ≡ false
    → env.read_fails ≡ false
    → disk (final_path s batch) ≡ some old
    → put env s batch disk
      ≡ (disk, some (if str_eq (trim old) text then already_stored else batch_conflict))
unfolding put store_text against
put_existing env s batch disk old text coded m f r there =
    rw (coded, put, m, f, store_text, there, r) refl

module _ (env env' : StoreEnv) (s : RawStore) (batch : Batch) (disk : Disk)
    (text text' : String) where
  -- After a RawStore.Put that returned no error, a Put of the same batch file that meets no fault
  -- before the comparison answers already stored if the encodings agree and conflict if not, and
  -- changes nothing on the disk; the first encoding has no space around it.
  pub put-put_stored :
      env.marshal batch ≡ some text
      → env'.marshal batch ≡ some text'
      → trim text ≡ text
      → env'.mkdir_fails ≡ false
      → env'.stat_fails ≡ false
      → env'.read_fails ≡ false
      → (put env s batch disk).1 ≡ none
      → put env' s batch (put env s batch disk).0 ≡ (
        (put env s batch disk).0,
        some (if str_eq text text' then already_stored else batch_conflict),
      )
  unfolding against
  put-put_stored coded coded' plain m f r ok =
      put_existing env' s batch (put env s batch disk).0 (text <> "\n") text' coded' m f r
        (put-stores env s batch disk text coded ok)
      ∙ (rw (trim-newline text, plain) refl)

pub put-encodes :
    (env : StoreEnv) (s : RawStore) (batch : Batch) (disk : Disk)
    → (put env s batch disk).1 ≡ none
    → (text : String) × (env.marshal batch ≡ some text)
unfolding put
put-encodes env s batch disk ok = elim (Option-cases (env.marshal batch)) [
  | inl e ↦ absurd (ground (arith, e))
  | inr found ↦ found
]
