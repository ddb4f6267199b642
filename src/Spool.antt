-- ===== src/Spool.antt =====
-- internal/spool/import.go: the import of NDJSON files. The lines of a file are what bufio and encoding/json
-- make of its content; the directory listing, the clock and the faults of the system are inputs.
pub mod Lines
pub mod Archive
mod Witness
use dayz_behaviour.Prelude.{
  ℕ, ◌+◌, Bool, true, false, ◌&&◌, ◌||◌, not, Option, none, some, List, [], ◌∷◌, String, ◌==◌,
  if◌then◌else◌,
}
use dayz_behaviour.Prelude.Int.{ℤ, pos, ltb_ℤ}
use dayz_behaviour.Prelude.Text.{◌<>◌, is_blank}
use dayz_behaviour.Prelude.Extension.{has_extension}
use dayz_behaviour.Disk.{Disk, rename_file}
use dayz_behaviour.Json.{JsonLib}
use dayz_behaviour.Schema.{Batch, validate}
use dayz_behaviour.Storage.{StoreError, already_stored}
use dayz_behaviour.Ingest.{BatchStore}

pub record Stats : Type 0 where
  pub files : ℕ
  pub batches : ℕ
  pub duplicates : ℕ

abbrev pub no_imports : Stats
no_imports = record { files = 0; batches = 0; duplicates = 0 }

pub data SpoolLine : Type 0 where
  blank_line undecodable trailing_values : SpoolLine
  batch_line : Batch → SpoolLine

-- one read of the loop: whether the context is done before it, and the line
pub record LineRead : Type 0 where
  pub cancelled : Bool
  pub line : SpoolLine

-- what the reader makes of a file: its lines, and whether it ends with an error instead of io.EOF
pub record FileLines : Type 0 where
  pub lines : List LineRead
  pub read_fails : Bool

pub data FileError : Type 0 where
  file_open_failed context_done file_read_failed no_batches : FileError
  line_decode line_validate : ℕ → FileError
  line_store : ℕ → StoreError → FileError

pub data ImportError : Type 0 where
  directory_required read_directory_failed import_cancelled spool_stat_failed claim_failed :
      ImportError
  restore_failed import_failed : FileError → ImportError
  create_archive_failed archive_failed : ImportError

module _ {S : Type 0} (lib : JsonLib) (store : BatchStore S) where
  -- the state of the loop over the lines, and its error
  abbrev pub Loop : Type 0
  Loop = S × Stats × ℕ × Option FileError

  -- the store's answer to one batch
  store_line : ℕ → S → Stats → Option StoreError → Loop
  store_line n s st none = (s, record st { batches = st.batches + 1 }, n, none)
  store_line n s st (some already_stored) =
      (s, record st { batches = st.batches + 1; duplicates = st.duplicates + 1 }, n, none)
  store_line n s st (some e) = (s, st, n, some (line_store n e))

  -- one line, after `n` lines that were not blank
  pub import_line : SpoolLine → ℕ → Stats → S → Loop
  unfolding store_line
  import_line blank_line n st s = (s, st, n, none)
  import_line undecodable n st s = (s, st, n + 1, some (line_decode (n + 1)))
  import_line trailing_values n st s = (s, st, n + 1, some (line_decode (n + 1)))
  import_line (batch_line batch) n st s = elim (validate lib batch) [
    | some e ↦ (s, st, n + 1, some (line_validate (n + 1)))
    | none ↦ store_line (n + 1) (store.put batch s).0 st (store.put batch s).1
  ]

  pub import_lines : List LineRead → ℕ → Stats → S → Loop
  unfolding import_line
  import_lines [] n st s = (s, st, n, none)
  import_lines (l ∷ ls) n st s =
      let r = import_line l.line n st s in
      let rest = import_lines ls r.2 r.1 r.0 in
      if l.cancelled then (s, st, n, some context_done) else elim r.3 [ some e ↦ r | none ↦ rest ]

  -- the end of the loop
  finish_file : Bool → Loop → S × Stats × Option FileError
  finish_file fails r = elim r.3 [
    | some e ↦ (r.0, r.1, some e)
    | none ↦ (
      r.0,
      r.1,
      if fails then some file_read_failed else if r.2 == 0 then some no_batches else none,
    )
  ]

  -- a file that cannot be opened is `none`
  pub import_file : Option FileLines → S → S × Stats × Option FileError
  unfolding finish_file import_lines
  import_file none s = (s, no_imports, some file_open_failed)
  import_file (some f) s = finish_file f.read_fails (import_lines f.lines 0 no_imports s)

-- one entry of the sorted listing, and what its calls meet
pub record SpoolEntry : Type 0 where
  pub name : String
  pub cancelled : Bool
  pub is_dir : Bool
  pub info_fails : Bool
  pub age : ℤ
  pub claim_fails : Bool
  pub open_fails : Bool
  pub restore_fails : Bool
  pub mkdir_fails : Bool
  pub archive_fails : Bool
  pub stamp : String

abbrev pub spool_path : String → SpoolEntry → String
spool_path dir e = dir <> ("/" <> e.name)

abbrev pub claimed_path : String → SpoolEntry → String
claimed_path dir e = spool_path dir e <> ".importing"

abbrev pub archive_path : String → SpoolEntry → String
archive_path dir e = dir <> ("/archive/" <> (e.name <> ("." <> (e.stamp <> ".imported"))))

module _ {S : Type 0} (lib : JsonLib) (store : BatchStore S) (parse : String → FileLines)
    (dir : String) where
  -- the store, the disk, the statistics and the error
  abbrev pub Imported : Type 0
  Imported = S × Disk × Stats × Option ImportError

  add_stats : Stats → Stats → Stats
  add_stats st f = record {
    files = st.files + 1;
    batches = st.batches + f.batches;
    duplicates = st.duplicates + f.duplicates;
  }

  -- os.Rename back, whose error is dropped
  put_back : SpoolEntry → Disk → Disk
  put_back e disk =
      if e.restore_fails then disk else rename_file disk (claimed_path dir e) (spool_path dir e)

  -- after importFile
  pub archive_entry : SpoolEntry → Stats → Disk → S × Stats × Option FileError → Imported
  unfolding add_stats put_back
  archive_entry e st disk r = elim r.2 [
    | some err ↦ (
      r.0,
      put_back e disk,
      st,
      some (if e.restore_fails then restore_failed err else import_failed err),
    )
    | none ↦
        if e.mkdir_fails
        then (r.0, put_back e disk, st, some create_archive_failed)
        else if e.archive_fails
        then (r.0, put_back e disk, st, some archive_failed)
        else (
          r.0,
          rename_file disk (claimed_path dir e) (archive_path dir e),
          add_stats st r.1,
          none,
        )
  ]

  read_claimed : SpoolEntry → Disk → Option FileLines
  read_claimed e disk =
      if e.open_fails
      then none
      else elim (disk (claimed_path dir e)) [ some content ↦ some (parse content) | none ↦ none ]

  -- a file that is claimed: its rename has worked
  pub import_claimed : SpoolEntry → Stats → S → Disk → Imported
  unfolding archive_entry read_claimed
  import_claimed e st s disk =
      archive_entry e st disk (import_file lib store (read_claimed e disk) s)

  -- one round of the loop; a file that has gone is skipped
  pub import_entry : ℤ → SpoolEntry → Stats → S → Disk → Imported
  import_entry minimum_age e st s disk =
      if e.cancelled
      then (s, disk, st, some import_cancelled)
      else if e.is_dir || not (has_extension ".ndjson" e.name)
      then (s, disk, st, none)
      else if e.info_fails
      then (s, disk, st, some spool_stat_failed)
      else if ltb_ℤ (pos 0) minimum_age && ltb_ℤ e.age minimum_age
      then (s, disk, st, none)
      else if e.claim_fails
      then (s, disk, st, some claim_failed)
      else elim (disk (spool_path dir e)) [
        | none ↦ (s, disk, st, none)
        | some content ↦
            import_claimed e st s (rename_file disk (spool_path dir e) (claimed_path dir e))
      ]

  pub import_entries : ℤ → List SpoolEntry → Stats → S → Disk → Imported
  unfolding import_entry
  import_entries minimum_age [] st s disk = (s, disk, st, none)
  import_entries minimum_age (e ∷ es) st s disk =
      let r = import_entry minimum_age e st s disk in
      let rest = import_entries minimum_age es r.2 r.0 r.1 in
      elim r.3 [ some err ↦ r | none ↦ rest ]

  -- the listing of the directory: `none` if it does not exist
  pub import_dir : Bool → Option (List SpoolEntry) → ℤ → S → Disk → Imported
  unfolding import_entries
  import_dir list_fails listing minimum_age s disk =
      if is_blank dir then (s, disk, no_imports, some directory_required) else elim listing [
        | none ↦ (s, disk, no_imports, none)
        | some entries ↦
            if list_fails
            then (s, disk, no_imports, some read_directory_failed)
            else import_entries minimum_age entries no_imports s disk
      ]
