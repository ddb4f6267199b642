-- ===== src/Agent/Outbox/Examples.antt =====
-- An empty outbox, one with a stored batch, and what their calls meet.
use dayz_behaviour.Prelude.{
  ℕ, ◌≡◌, refl, true, false, none, some, [], ◌∷◌, String, arith, ◌<◌, ◌+◌, ◌^◌, ap, ◌∙◌, inl, inr,
  Bool-cases,
}
use dayz_behaviour.Prelude.Int.{pos, ◌+ℤ◌}
use Prim.Native.Char.{code}
use Prim.Native.String.{◌∷◌ as ◌∷ₛ◌}
use Prim.Native.String.append
use dayz_behaviour.Prelude.Text.{◌<>◌, eq_iff, str_eq, sanitise, pad20, len}
use dayz_behaviour.Prelude.Words.{add64, wrap64}
use dayz_behaviour.Disk.{Disk, WriteEnv, no_faults, write_file, atomic_write, sync_batch_directory}
use dayz_behaviour.Schema.Examples.{sample_batch}
use dayz_behaviour.Agent.Outbox.{
  Outbox, QueuedFile, PutEnv, DeadLetterEnv, mark, peek, read, dead_letter, bury, move_to,
  dead_letter_name, write_reason, relative, index_of, index_from, remove_at, drop_item, remove_nth,
  put, put_content, batch_path, finish_put, enqueue, has_no_room, signal, write_failed,
}
use dayz_behaviour.Agent.Outbox.Items.{sum_sizes}
use dayz_behaviour.Agent.Outbox.Invariant.{IsConsistent, IsFreshTemp, Fits}
use dayz_behaviour.Agent.Outbox.DeadLetter.{IsOutside}

abbrev pub empty_disk : Disk
empty_disk path = none

abbrev pub new_outbox : Outbox
new_outbox = record {
  root = "/q";
  dead_letter_dir = "/d";
  server_id = "srv";
  max_bytes = 1000;
  max_batches = 2;
  items = [];
  known = λ q. false;
  bytes = pos 0;
  dead_letters = 0;
  wake = false;
}

abbrev pub sample_file : QueuedFile
sample_file = record { path = "/q/srv/s1/7.json"; size = 3; mod_time = pos 1 }

-- one batch is stored
abbrev pub one_outbox : Outbox
one_outbox = record new_outbox {
  items = sample_file ∷ [];
  known = mark sample_file.path true (λ q. false);
  bytes = pos 3;
}

abbrev pub one_disk : Disk
one_disk = write_file empty_disk sample_file.path "{}\n"

abbrev pub sample_write : WriteEnv
sample_write = record {
  is_windows = false;
  temp_path = "/q/srv/s1/.batch-1.tmp";
  partial = "";
  faults = no_faults;
}

abbrev pub sample_put : PutEnv
sample_put = record {
  marshal = λ b. some "{}";
  read_fails = false;
  now = pos 1;
  write = sample_write;
}

-- the directory sync fails
abbrev pub unsynced_put : PutEnv
unsynced_put = record sample_put {
  write = record sample_write { faults = record no_faults { sync_directory = true } };
}

abbrev pub sample_dead_letter : DeadLetterEnv
sample_dead_letter = record {
  mkdir_fails = false;
  stat_fails = false;
  rename_fails = false;
  stamp = "20260101T000000";
  metadata = λ reason. some reason;
  write = record sample_write { temp_path = "/d/.batch-2.tmp" };
}

pub new_outbox-IsConsistent : IsConsistent new_outbox empty_disk
new_outbox-IsConsistent = record {
  total = refl;
  fits = omega arith;
  known_exact = λ q. refl;
  distinct = tt;
  stored = tt;
}

pub one_outbox-IsConsistent : IsConsistent one_outbox one_disk
one_outbox-IsConsistent = record {
  total = refl;
  fits = omega arith;
  known_exact = λ q. ground (arith, eq_iff sample_file.path q);
  distinct = (refl, tt);
  stored = (("{}\n", refl, refl), tt);
}

second : String → ℕ
second (a ∷ₛ b ∷ₛ s) = code b
second _ = 0

second-dead : (rest : String) → second ("/d" <> rest) ≡ b'd'
unfolding second
second-dead rest = rw (append.cons "/" "d" rest, append.cons "d" "" rest) refl

pub one_outbox-IsOutside : IsOutside one_outbox
unfolding second
one_outbox-IsOutside rest = elim (Bool-cases (str_eq sample_file.path ("/d" <> ("/" <> rest)))) [
  | inl e ↦ absurd (
      omega (
        arith,
        ap second ((eq_iff sample_file.path ("/d" <> ("/" <> rest))).0 e)
            ∙ second-dead ("/" <> rest),
      ))
  | inr e ↦ ground arith
]

pub sample_put-IsFreshTemp :
    IsFreshTemp sample_write (batch_path new_outbox sample_batch) empty_disk
unfolding batch_path sanitise pad20
sample_put-IsFreshTemp = record {
  absent = refl;
  other = λ p. absurd (ground (arith, ap (λ (s : String). str_eq s sample_write.temp_path) p));
}

only_text : (text : String) → some "{}" ≡ some text → sum_sizes [] + len (text <> "\n") < 2 ^ 63
only_text text e = let t : text ≡ "{}" = cc in rw t (omega arith)

pub sample_put-Fits : Fits sample_put sample_batch new_outbox
sample_put-Fits = record { room = only_text }

pub sample_put-ok : (put sample_put sample_batch new_outbox empty_disk).2 ≡ none
unfolding put put_content finish_put enqueue has_no_room batch_path sanitise pad20 signal
    atomic_write add64 wrap64 ◌+ℤ◌
sample_put-ok = refl

pub unsynced_put-err :
    (put unsynced_put sample_batch new_outbox empty_disk).2
    ≡ some (write_failed sync_batch_directory)
unfolding put put_content finish_put enqueue has_no_room batch_path sanitise pad20 signal
    atomic_write add64 wrap64 ◌+ℤ◌
unsynced_put-err = refl

pub sample_dead_letter-ok :
    (dead_letter sample_dead_letter
      (record { path = sample_file.path; size = 3 })
      "refused"
      one_outbox
      one_disk).2
    ≡ none
unfolding dead_letter bury move_to dead_letter_name write_reason relative index_of index_from
    remove_at drop_item remove_nth atomic_write
sample_dead_letter-ok = refl

pub one_outbox-next :
    (peek one_outbox ≡ some (record { path = sample_file.path; size = 3 }))
    × (read false (record { path = sample_file.path; size = 3 }) one_disk ≡ inl "{}\n")
unfolding peek read
one_outbox-next = (refl, refl)
