-- ===== src/Spool/Witness.antt =====
-- The theorem on spool files, at a file of one batch.
use dayz_behaviour.Prelude.{false, [], ◌∷◌, String}
use dayz_behaviour.Prelude.Int.{pos}
use dayz_behaviour.Disk.{Disk, write_file}
use dayz_behaviour.Schema.Examples.{sample_batch}
use dayz_behaviour.Storage.Examples.{empty_raw_disk}
use dayz_behaviour.Spool.{FileLines, SpoolEntry, batch_line, blank_line}

abbrev sample_entry : SpoolEntry
sample_entry = record {
  name = "day1.ndjson";
  cancelled = false;
  is_dir = false;
  info_fails = false;
  age = pos 60;
  claim_fails = false;
  open_fails = false;
  restore_fails = false;
  mkdir_fails = false;
  archive_fails = false;
  stamp = "20260101T000000";
}

abbrev two_lines : String → FileLines
two_lines content = record {
  lines =
      record { cancelled = false; line = batch_line sample_batch }
      ∷ record { cancelled = false; line = blank_line }
      ∷ [];
  read_fails = false;
}

abbrev spool_disk : Disk
spool_disk = write_file empty_raw_disk "/spool/day1.ndjson" "{}\n\n"
