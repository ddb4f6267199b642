-- ===== src/Spool/Lines.antt =====
-- internal/spool/import.go: the lines of an imported file.
use dayz_behaviour.Prelude.{
  ℕ, ◌+◌, ◌≡◌, ◌⊎◌, refl, ap, sym, subst, false, Option, none, some, List, [], ◌∷◌, inl, inr,
  Bool-cases, Option-cases,
}
use dayz_behaviour.Json.{JsonLib}
use dayz_behaviour.Schema.{Batch, validate}
use dayz_behaviour.Storage.{
  StoreError, already_stored, batch_conflict, capacity_exceeded, marshal_failed,
  create_directory_failed, stat_failed, read_failed, root_required, create_root_failed,
  write_failed,
}
use dayz_behaviour.Ingest.{BatchStore}
use dayz_behaviour.Spool.{
  Stats, SpoolLine, LineRead, FileLines, Loop, blank_line, undecodable, trailing_values, batch_line,
  store_line, import_line, import_lines, finish_file, import_file, no_imports,
}

module _ {S : Type 0} (lib : JsonLib) (store : BatchStore S) where
  -- from `s` to `s'` the store has taken each line that is not blank, as a valid batch
  pub data Takes : List LineRead → S → S → Type 0 where
    done : (s : S) → Takes [] s s
    skip :
        {l : LineRead} {ls : List LineRead} {s s' : S}
        → l.line ≡ blank_line
        → Takes ls s s'
        → Takes (l ∷ ls) s s'
    take :
        {l : LineRead} {ls : List LineRead} {s s' : S} (batch : Batch)
        → l.line ≡ batch_line batch
        → validate lib batch ≡ none
        → ((store.put batch s).1 ≡ none) ⊎ ((store.put batch s).1 ≡ some already_stored)
        → Takes ls (store.put batch s).0 s'
        → Takes (l ∷ ls) s s'

  store_line-ok :
      (n : ℕ) (s : S) (st : Stats) (e : Option StoreError)
      → (store_line lib store n s st e).3 ≡ none
      → ((store_line lib store n s st e).0 ≡ s) × ((e ≡ none) ⊎ (e ≡ some already_stored))
  unfolding store_line
  store_line-ok n s st none h = (refl, inl refl)
  store_line-ok n s st (some already_stored) h = (refl, inr refl)
  store_line-ok n s st (some batch_conflict) h = absurd (cc)
  store_line-ok n s st (some capacity_exceeded) h = absurd (cc)
  store_line-ok n s st (some marshal_failed) h = absurd (cc)
  store_line-ok n s st (some create_directory_failed) h = absurd (cc)
  store_line-ok n s st (some stat_failed) h = absurd (cc)
  store_line-ok n s st (some read_failed) h = absurd (cc)
  store_line-ok n s st (some root_required) h = absurd (cc)
  store_line-ok n s st (some create_root_failed) h = absurd (cc)
  store_line-ok n s st (some (write_failed w)) h = absurd (cc)

  abbrev LineTaken : SpoolLine → S → S → Type 0
  LineTaken line s s' =
      ((line ≡ blank_line) × (s' ≡ s))
      ⊎ ((batch : Batch) × (line ≡ batch_line batch)
          × (validate lib batch ≡ none)
          × (((store.put batch s).1 ≡ none) ⊎ ((store.put batch s).1 ≡ some already_stored))
          × (s' ≡ (store.put batch s).0))

  import_line-ok :
      (line : SpoolLine) (n : ℕ) (st : Stats) (s : S)
      → (import_line lib store line n st s).3 ≡ none
      → LineTaken line s (import_line lib store line n st s).0
  unfolding import_line
  import_line-ok blank_line n st s h = inl (refl, refl)
  import_line-ok undecodable n st s h = absurd (cc)
  import_line-ok trailing_values n st s h = absurd (cc)
  import_line-ok (batch_line batch) n st s h = elim (Option-cases (validate lib batch)) [
    | inr (e, bad) ↦ absurd (cc (rw (bad, import_line) at h))
    | inl v ↦
        let ok =
          store_line-ok (n + 1) (store.put batch s).0 st (store.put batch s).1
            (rw (v, import_line) at h) in
        inr (batch, refl, v, ok.1, rw (v, import_line) ok.0)
  ]

  Takes-cons :
      (l : LineRead) (ls : List LineRead) (s s' t : S)
      → LineTaken l.line s s'
      → Takes ls s' t
      → Takes (l ∷ ls) s t
  Takes-cons l ls s s' t (inl (blank, same)) rest =
      skip blank (subst (λ (x : S). Takes ls x t) same rest)
  Takes-cons l ls s s' t (inr (batch, held, valid, answer, next)) rest =
      take batch held valid answer (subst (λ (x : S). Takes ls x t) next rest)

  cancelled_not :
      (n : ℕ) (st : Stats) (s : S) (l : LineRead) (ls : List LineRead)
      → let r = import_line lib store l.line n st s in
        l.cancelled ≡ false
        → r.3 ≡ none
        → import_lines lib store (l ∷ ls) n st s ≡ import_lines lib store ls r.2 r.1 r.0
  unfolding import_lines
  cancelled_not n st s l ls c fine = rw (c, fine, import_lines) refl

  import_lines-Takes :
      (ls : List LineRead) (n : ℕ) (st : Stats) (s : S)
      → (import_lines lib store ls n st s).3 ≡ none
      → Takes ls s (import_lines lib store ls n st s).0
  unfolding import_lines
  import_lines-Takes [] n st s h = done s
  import_lines-Takes (l ∷ ls) n st s h =
      let r = import_line lib store l.line n st s in
      elim (Bool-cases l.cancelled) [
        | inl c ↦ absurd (cc (rw (c, import_lines) at h))
        | inr c ↦ elim (Option-cases r.3) [
          | inr (e, bad) ↦ absurd (cc (rw (c, bad, import_lines) at h))
          | inl fine ↦
              let rest = import_lines-Takes ls r.2 r.1 r.0 (rw (c, fine, import_lines) at h) in
              let same : (import_lines lib store (l ∷ ls) n st s).0
                  ≡ (import_lines lib store ls r.2 r.1 r.0).0 =
                ap (λ (x : Loop lib store). x.0) (cancelled_not n st s l ls c fine) in
              subst (λ (x : S). Takes (l ∷ ls) s x) (sym same)
                (Takes-cons l ls s r.0 (import_lines lib store ls r.2 r.1 r.0).0
                  (import_line-ok l.line n st s fine) rest)
        ]
      ]

  pub import_file-Takes :
      (f : Option FileLines) (s : S)
      → (import_file lib store f s).2 ≡ none
      → (g : FileLines) × (f ≡ some g) × Takes g.lines s (import_file lib store f s).0
  unfolding import_file finish_file
  import_file-Takes none s h = absurd (cc)
  import_file-Takes (some g) s h =
      let r = import_lines lib store g.lines 0 no_imports s in
      elim (Option-cases r.3) [
        | inr (e, bad) ↦ absurd (cc (rw (bad, finish_file) at h))
        | inl fine ↦
            (g, refl, rw (fine, finish_file) (import_lines-Takes g.lines 0 no_imports s fine))
      ]
