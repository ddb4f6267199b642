-- ===== src/Agent/Outbox/Witness.antt =====
-- The theorems on the outbox, at concrete outboxes.
use dayz_behaviour.Prelude.{◌+◌, ◌≡◌, refl, false, none, some, List, [], ◌∷◌, String, if◌then◌else◌}
use dayz_behaviour.Prelude.Text.{◌<>◌, str_eq}
use dayz_behaviour.Disk.{sync_batch_directory}
use dayz_behaviour.Schema.Examples.{sample_batch}
use dayz_behaviour.Agent.Outbox.{
  put, remove, dead_letter, peek, batch_path, index_of, already_stored, batch_conflict,
  write_failed,
}
use dayz_behaviour.Agent.Outbox.Invariant.{IsConsistent, put-IsConsistent, remove-IsConsistent}
use dayz_behaviour.Agent.Outbox.Put.{
  IsQueued, IsWithinLimits, put-IsQueued, put-IsWithinLimits, put_error_unchanged, put-put,
  unsynced_put-put,
}
use dayz_behaviour.Agent.Outbox.DeadLetter.{dead_letter-IsConsistent}
use dayz_behaviour.Agent.Outbox.Queue.{
  Call, put_call, remove_call, paths, run_calls, run_queue, run_calls-paths,
}
use dayz_behaviour.Agent.Outbox.Order.{item_of, remove-peek, dead_letter-peek}
use dayz_behaviour.Agent.Outbox.Examples.{
  empty_disk, new_outbox, sample_file, one_outbox, one_disk, sample_put, unsynced_put,
  sample_dead_letter, new_outbox-IsConsistent, one_outbox-IsConsistent, one_outbox-IsOutside,
  sample_put-IsFreshTemp, sample_put-Fits, sample_put-ok, unsynced_put-err, sample_dead_letter-ok,
}

put-IsQueued_example :
    let p = put sample_put sample_batch new_outbox empty_disk in
    (text : String) × IsQueued sample_put sample_batch text new_outbox p.0 p.1
put-IsQueued_example = put-IsQueued sample_put sample_batch new_outbox empty_disk sample_put-ok

put-IsConsistent_example :
    let p = put sample_put sample_batch new_outbox empty_disk in IsConsistent p.0 p.1
put-IsConsistent_example =
    put-IsConsistent sample_put sample_batch new_outbox empty_disk new_outbox-IsConsistent
      sample_put-IsFreshTemp sample_put-Fits

put-IsWithinLimits_example : IsWithinLimits (put sample_put sample_batch new_outbox empty_disk).0
put-IsWithinLimits_example =
    put-IsWithinLimits sample_put sample_batch new_outbox empty_disk new_outbox-IsConsistent
      sample_put-Fits sample_put-ok

put_error_unchanged_example : (put unsynced_put sample_batch new_outbox empty_disk).0 ≡ new_outbox
put_error_unchanged_example =
    put_error_unchanged unsynced_put sample_batch new_outbox empty_disk
      (write_failed sync_batch_directory) unsynced_put-err

put-put_example :
    let p = put sample_put sample_batch new_outbox empty_disk in
    put sample_put sample_batch p.0 p.1 ≡ (
      p.0,
      p.1,
      some (if str_eq ("{}" <> "\n") ("{}" <> "\n") then already_stored else batch_conflict),
    )
put-put_example =
    put-put sample_put sample_put sample_batch new_outbox empty_disk "{}" "{}" refl refl refl
      sample_put-ok

unsynced_put-put_example :
    let p = put unsynced_put sample_batch new_outbox empty_disk in
    (put sample_put sample_batch p.0 p.1 ≡ (p.0, p.1, some already_stored))
    × (index_of p.0 (batch_path new_outbox sample_batch) ≡ none)
unsynced_put-put_example =
    unsynced_put-put unsynced_put sample_put sample_batch new_outbox empty_disk "{}"
      new_outbox-IsConsistent refl refl refl unsynced_put-err

remove-IsConsistent_example :
    let p = remove false (item_of sample_file) one_outbox one_disk in IsConsistent p.0 p.1
remove-IsConsistent_example =
    remove-IsConsistent false (item_of sample_file) one_outbox one_disk one_outbox-IsConsistent

remove-peek_example :
    let p = remove false (item_of sample_file) one_outbox one_disk in
    (peek one_outbox ≡ some (item_of sample_file))
    × (p.0.items ≡ [])
    × (p.1 sample_file.path ≡ none)
    × (p.2 ≡ none)
remove-peek_example = remove-peek one_outbox one_disk sample_file [] one_outbox-IsConsistent refl

dead_letter-IsConsistent_example :
    let p = dead_letter sample_dead_letter (item_of sample_file) "refused" one_outbox one_disk in
    IsConsistent p.0 p.1
dead_letter-IsConsistent_example =
    dead_letter-IsConsistent sample_dead_letter (item_of sample_file) "refused" one_outbox one_disk
      one_outbox-IsConsistent one_outbox-IsOutside refl

dead_letter-peek_example :
    let p = dead_letter sample_dead_letter (item_of sample_file) "refused" one_outbox one_disk in
    (p.0.items ≡ []) × (p.0.dead_letters ≡ 0 + 1)
dead_letter-peek_example =
    dead_letter-peek one_outbox one_disk sample_file [] sample_dead_letter "refused"
      one_outbox-IsConsistent refl sample_dead_letter-ok

-- a Put, and a Remove of another path
abbrev put_and_remove : List Call
put_and_remove = put_call sample_put sample_batch ∷ remove_call false (item_of sample_file) ∷ []

run_calls-paths_example :
    let r = run_calls put_and_remove new_outbox empty_disk in
    (paths r.0.items ≡ run_queue put_and_remove new_outbox empty_disk []) × IsConsistent r.0 r.1
run_calls-paths_example =
    run_calls-paths put_and_remove new_outbox empty_disk new_outbox-IsConsistent
      ((sample_put-IsFreshTemp, sample_put-Fits), (tt, tt))
