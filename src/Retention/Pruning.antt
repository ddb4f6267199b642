-- ===== src/Retention/Pruning.antt =====
-- The files of internal/retention/raw.go, before and after PruneRaw.
use dayz_behaviour.Prelude.{
  ℕ, ◌+◌, ◌≡◌, ◌⊎◌, refl, ◌∙◌, Bool, true, none, List, [], ◌∷◌, String, arith, inl, inr, ◌&&◌, not,
  Bool-cases, Option-cases, if◌then◌else◌,
}
use dayz_behaviour.Prelude.Int.{ℤ, ltb_ℤ}
use dayz_behaviour.Prelude.Text.{eq_iff, is_blank}
use dayz_behaviour.Prelude.Extension.{has_extension}
use dayz_behaviour.Disk.{Disk}
use dayz_behaviour.Retention.{
  RawStats, Visit, is_json_path, count_file, count_expired, count_deleted, visit_file, walk,
  no_stats, prune_raw,
}

-- a JSON file, no directory, that is older than `before`
abbrev pub is_expired : ℤ → Visit → Bool
is_expired before v = not v.is_dir && has_extension ".json" v.path && ltb_ℤ v.mod_time before

abbrev pub count_expired_in : ℤ → List Visit → ℕ
count_expired_in before [] = 0
count_expired_in before (v ∷ vs) =
    let rest = count_expired_in before vs in if is_expired before v then rest + 1 else rest

-- the visits of expired raw files
abbrev pub IsExpiredIn : ℤ → String → List Visit → Type 0
IsExpiredIn before q [] = ⊥
IsExpiredIn before q (v ∷ vs) =
    ((v.path ≡ q) × (is_expired before v ≡ true)) ⊎ IsExpiredIn before q vs

module _ (before : ℤ) (execute : Bool) where
  visit_file-takes :
      (v : Visit) (r : RawStats) (disk : Disk) (q : String)
      → ((visit_file before execute v r disk).1 q ≡ disk q)
        ⊎ ((v.path ≡ q) × (is_expired before v ≡ true) × (execute ≡ true))
  unfolding visit_file is_json_path
  visit_file-takes v r disk q = ground (arith, eq_iff v.path q)

  visit_file-counts :
      (v : Visit) (r : RawStats) (disk : Disk)
      → (visit_file before execute v r disk).2 ≡ none
      → execute ≡ true
      → let r' = (visit_file before execute v r disk).0 in
        let n = count_expired_in before (v ∷ []) in
        (r'.files_deleted ≡ r.files_deleted + n) × (r'.files_expired ≡ r.files_expired + n)
  unfolding visit_file count_file count_expired count_deleted is_json_path
  visit_file-counts v r disk ok ex = (ground arith, ground arith)

  visit_file-removes :
      (v : Visit) (r : RawStats) (disk : Disk) (q : String)
      → (visit_file before execute v r disk).2 ≡ none
      → execute ≡ true
      → ((v.path ≡ q) × (is_expired before v ≡ true)) ⊎ (disk q ≡ none)
      → (visit_file before execute v r disk).1 q ≡ none
  unfolding visit_file is_json_path
  visit_file-removes v r disk q ok ex (inl (same, old)) = ground (arith, eq_iff v.path q, same, old)
  visit_file-removes v r disk q ok ex (inr gone) = ground (arith, eq_iff v.path q, gone)

  walk-takes :
      (vs : List Visit) (r : RawStats) (disk : Disk) (q : String)
      → ((walk before execute vs r disk).1 q ≡ disk q)
        ⊎ (IsExpiredIn before q vs × (execute ≡ true))
  unfolding walk
  walk-takes [] r disk q = inl refl
  walk-takes (v ∷ vs) r disk q =
      let step = visit_file before execute v r disk in
      elim (visit_file-takes v r disk q) [
        | inr (same, old, ex) ↦ inr (inl (same, old), ex)
        | inl kept ↦ elim (Option-cases step.2) [
          | inr (e, failed) ↦ inl (rw (walk, failed) kept)
          | inl fine ↦ elim (walk-takes vs step.0 step.1 q) [
            | inl left ↦ inl (rw (walk, fine) (left ∙ kept))
            | inr (old, ex) ↦ inr (inr old, ex)
          ]
        ]
      ]

  walk-counts :
      (vs : List Visit) (r : RawStats) (disk : Disk)
      → (walk before execute vs r disk).2 ≡ none
      → execute ≡ true
      → let r' = (walk before execute vs r disk).0 in
        let n = count_expired_in before vs in
        (r'.files_deleted ≡ r.files_deleted + n) × (r'.files_expired ≡ r.files_expired + n)
  unfolding walk
  walk-counts [] r disk ok ex = (omega arith, omega arith)
  walk-counts (v ∷ vs) r disk ok ex =
      let step = visit_file before execute v r disk in
      elim (Option-cases step.2) [
        | inr (e, failed) ↦ absurd (ground (arith, rw (walk, failed) at ok))
        | inl fine ↦
            let one = visit_file-counts v r disk fine ex in
            let rest = walk-counts vs step.0 step.1 (rw (walk, fine) at ok) ex in
            rw (walk, fine) (ground (arith, one.0, rest.0), ground (arith, one.1, rest.1))
      ]

  walk-removes :
      (vs : List Visit) (r : RawStats) (disk : Disk) (q : String)
      → (walk before execute vs r disk).2 ≡ none
      → execute ≡ true
      → IsExpiredIn before q vs ⊎ (disk q ≡ none)
      → (walk before execute vs r disk).1 q ≡ none
  unfolding walk
  walk-removes [] r disk q ok ex (inl none_left) = elim none_left [ ]
  walk-removes [] r disk q ok ex (inr gone) = gone
  walk-removes (v ∷ vs) r disk q ok ex old =
      let step = visit_file before execute v r disk in
      elim (Option-cases step.2) [
        | inr (e, failed) ↦ absurd (ground (arith, rw (walk, failed) at ok))
        | inl fine ↦
            let later : IsExpiredIn before q vs ⊎ (step.1 q ≡ none) = elim old [
              | inl (inl here) ↦ inr (visit_file-removes v r disk q fine ex (inl here))
              | inl (inr there) ↦ inl there
              | inr gone ↦ inr (visit_file-removes v r disk q fine ex (inr gone))
            ] in
            rw (walk, fine) (walk-removes vs step.0 step.1 q (rw (walk, fine) at ok) ex later)
      ]

  -- PruneRaw changes no file but those that its walk visits as expired, which are JSON files, no
  -- directories and older than the limit; and it changes no file when it is not told to execute.
  pub prune_raw-takes :
      (root : String) (visits : List Visit) (disk : Disk) (q : String)
      → ((prune_raw root before execute visits disk).1 q ≡ disk q)
        ⊎ (IsExpiredIn before q visits × (execute ≡ true))
  unfolding prune_raw
  prune_raw-takes root visits disk q = elim (Bool-cases (is_blank root)) [
    | inl b ↦ inl (rw (b) refl)
    | inr b ↦ rw (b) (walk-takes visits no_stats disk q)
  ]

  -- A PruneRaw that executes and returns no error leaves no file at the path of a visit that is a
  -- JSON file, no directory and older than the limit; and both of its statistics, of expired and
  -- of deleted files, are the number of these visits.
  pub prune_raw-removes :
      (root : String) (visits : List Visit) (disk : Disk)
      → execute ≡ true
      → (prune_raw root before execute visits disk).2 ≡ none
      → let (r, disk', err) = prune_raw root before execute visits disk in
        ((q : String) → IsExpiredIn before q visits → disk' q ≡ none)
        × (r.files_expired ≡ count_expired_in before visits)
        × (r.files_deleted ≡ count_expired_in before visits)
  unfolding prune_raw
  prune_raw-removes root visits disk ex ok = elim (Bool-cases (is_blank root)) [
    | inl b ↦ absurd (ground arith)
    | inr b ↦
        let fine : (walk before execute visits no_stats disk).2 ≡ none = rw (b) at ok in
        let n = walk-counts visits no_stats disk fine ex in
        rw (b) (
          λ q old. walk-removes visits no_stats disk q fine ex (inl old),
          ground (arith, n.1),
          ground (arith, n.0),
        )
  ]
