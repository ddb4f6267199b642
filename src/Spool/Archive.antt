-- ===== src/Spool/Archive.antt =====
-- internal/spool/import.go: where a spool file is after one round of ImportDir.
use dayz_behaviour.Prelude.{◌≡◌, ◌≢◌, true, none, some, String}
use dayz_behaviour.Disk.{Disk}
use dayz_behaviour.Json.{JsonLib}
use dayz_behaviour.Ingest.{BatchStore}
use dayz_behaviour.Spool.{
  FileLines, SpoolEntry, Imported, spool_path, claimed_path, archive_path, import_cancelled,
  spool_stat_failed, claim_failed, import_cancelled, spool_stat_failed, claim_failed,
}
use dayz_behaviour.Spool.Lines.{Takes}

module _ {S : Type 0} (lib : JsonLib) (store : BatchStore S) (parse : String → FileLines)
    (dir : String) where
  -- where the content of a spool file is after one round: still in place, left under the claimed name by
  -- a restore that failed, or in the archive, with every line taken by the store
  pub data IsPlaced (e : SpoolEntry) (content : String) (s : S) (r : Imported lib store parse dir)
      : Type 0 where
    in_place : r.1 (spool_path dir e) ≡ some content → IsPlaced e content s r
    left_claimed :
        r.1 (claimed_path dir e) ≡ some content
        → e.restore_fails ≡ true
        → r.3 ≢ none
        → IsPlaced e content s r
    archived :
        r.1 (archive_path dir e) ≡ some content
        → r.3 ≡ none
        → Takes lib store (parse content).lines s r.0
        → IsPlaced e content s r
