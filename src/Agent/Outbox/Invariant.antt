-- ===== src/Agent/Outbox/Invariant.antt =====
-- internal/agent/outbox.go: the invariant of the outbox and the disk, with Put and Remove.
use dayz_behaviour.Prelude.{
  ℕ, ◌+◌, ◌-◌, ◌<◌, ◌^◌, ◌≡◌, ◌≢◌, refl, sym, ap, ◌∙◌, Bool, true, false, Option, none, some,
  String, arith, get_elem?, Bool-cases, Option-cases, inl, inr,
}
use dayz_behaviour.Prelude.Int.{pos}
use dayz_behaviour.Prelude.Words.{add64-pos, sub64-pos}
use dayz_behaviour.Prelude.Text.{eq_iff, len, ◌<>◌}
use dayz_behaviour.Disk.{Disk, WriteEnv, WriteError, atomic_write, remove_file}
use dayz_behaviour.Disk.Atomic.{atomic_write-frame, atomic_write-ok}
use dayz_behaviour.Schema.{Batch}
use dayz_behaviour.Agent.Outbox.{
  Outbox, QueuedFile, QueueItem, PutEnv, put, finish_put, enqueue, signal, batch_path, index_of,
  remove_nth, drop_item, remove_at, remove,
}
use dayz_behaviour.Agent.Outbox.Cases.{put-cases, new_file}
use dayz_behaviour.Agent.Outbox.Items.{
  sum_sizes, has_path, AllDistinct, AllStored, sum_sizes-append, has_path-append,
  AllDistinct-append, AllStored-append, has_path-stored, AllStored-agree, index_from-found,
  sum_sizes-remove_nth, has_path-remove_nth, AllDistinct-remove_nth, AllStored-remove_nth,
}

-- The byte count is the sum of the sizes, the set of known paths is that of the queue, no path is
-- queued twice, and every queued file is on the disk with its size.
pub record IsConsistent (o : Outbox) (disk : Disk) : Type 0 where
  pub total : o.bytes ≡ pos (sum_sizes o.items)
  pub fits : sum_sizes o.items < 2 ^ 63
  pub known_exact : (q : String) → o.known q ≡ has_path q o.items
  pub distinct : AllDistinct o.items
  pub stored : AllStored disk o.items

-- os.CreateTemp makes a file that was not there, with a name that is no batch file's.
pub record IsFreshTemp (env : WriteEnv) (path : String) (disk : Disk) : Type 0 where
  pub absent : disk env.temp_path ≡ none
  pub other : env.temp_path ≢ path

enqueue-IsConsistent :
    (f : QueuedFile) (content : String) (o : Outbox) (disk : Disk)
    → IsConsistent o disk
    → disk f.path ≡ some content
    → len content ≡ f.size
    → has_path f.path o.items ≡ false
    → sum_sizes o.items + f.size < 2 ^ 63
    → IsConsistent (enqueue f o) disk
unfolding enqueue signal
enqueue-IsConsistent f content o disk ok here size new room = record {
  total = rw (ok.total, add64-pos (sum_sizes o.items) f.size room, sum_sizes-append o.items f);
  fits = omega (arith, sum_sizes-append o.items f);
  known_exact = λ q. ground (arith, ok.known_exact q, has_path-append q o.items f);
  distinct = AllDistinct-append o.items f ok.distinct new;
  stored = AllStored-append disk o.items f content ok.stored here size;
}

pub not_queued :
    (o : Outbox) (disk : Disk) (q : String)
    → IsConsistent o disk
    → disk q ≡ none
    → has_path q o.items ≡ false
not_queued o disk q ok absent = elim (Bool-cases (has_path q o.items)) [
  | inl e ↦ absurd (has_path-stored disk q o.items ok.stored e absent)
  | inr e ↦ e
]

-- A failed or finished write of a file that is not queued leaves the queue stored.
write-AllStored :
    (env : WriteEnv) (path content : String) (o : Outbox) (disk : Disk)
    → IsConsistent o disk
    → disk path ≡ none
    → IsFreshTemp env path disk
    → IsConsistent o (atomic_write env path content disk).0
write-AllStored env path content o disk ok absent temp = record {
  total = ok.total;
  fits = ok.fits;
  known_exact = ok.known_exact;
  distinct = ok.distinct;
  stored =
      AllStored-agree disk (atomic_write env path content disk).0 o.items
        (λ q queued.
          atomic_write-frame env path content disk q
            (λ e. has_path-stored disk q o.items ok.stored queued (ap disk (sym e) ∙ absent))
            (λ e. has_path-stored disk q o.items ok.stored queued (ap disk (sym e) ∙ temp.absent)))
        ok.stored;
}

finish_put-IsConsistent :
    (f : QueuedFile) (content : String) (o : Outbox) (r : Disk × Option WriteError)
    → IsConsistent o r.0
    → (r.1 ≡ none → r.0 f.path ≡ some content)
    → len content ≡ f.size
    → has_path f.path o.items ≡ false
    → sum_sizes o.items + f.size < 2 ^ 63
    → let p = finish_put f o r in IsConsistent p.0 p.1
unfolding finish_put
finish_put-IsConsistent f content o (disk, some e) ok here size new room = ok
finish_put-IsConsistent f content o (disk, none) ok here size new room =
    enqueue-IsConsistent f content o disk ok (here refl) size new room

-- the content that Put would write fits into the int64 total
pub record Fits (env : PutEnv) (batch : Batch) (o : Outbox) : Type 0 where
  pub room :
      (text : String)
      → env.marshal batch ≡ some text
      → sum_sizes o.items + len (text <> "\n") < 2 ^ 63

-- Put keeps a consistent outbox consistent, on every branch and for every fault of the system:
-- the byte count is the sum of the sizes, the known paths are those of the queue, no path is
-- queued twice, and each queued file is on the disk with its size. The temporary file must be new
-- with a name of its own, and the total must fit into an int64.
pub put-IsConsistent :
    (env : PutEnv) (batch : Batch) (o : Outbox) (disk : Disk)
    → IsConsistent o disk
    → IsFreshTemp env.write (batch_path o batch) disk
    → Fits env batch o
    → let p = put env batch o disk in IsConsistent p.0 p.1
put-IsConsistent env batch o disk ok temp fit = elim (put-cases env batch o disk) [
  | inl (e, _, same) ↦ rw same ok
  | inr (text, coded, mine, absent, free, written) ↦ rw written (
      finish_put-IsConsistent (new_file env batch o text) (text <> "\n") o
        (atomic_write env.write (batch_path o batch) (text <> "\n") disk)
        (write-AllStored env.write (batch_path o batch) (text <> "\n") o disk ok absent temp)
        (atomic_write-ok env.write (batch_path o batch) (text <> "\n") disk) refl
        (not_queued o disk (batch_path o batch) ok absent) (fit.room text coded))
]

-- what index_of finds is an entry of the queue with that path
pub index_of-found :
    (o : Outbox) (q : String) (k : ℕ)
    → index_of o q ≡ some k
    → (f : QueuedFile) × (get_elem? o.items k ≡ some f) × (f.path ≡ q)
unfolding index_of
index_of-found o q k h =
    let (f, low, at, named) = index_from-found 0 q o.items k (ground arith) in
    (f, rw (let z : k - 0 ≡ k = omega arith in z) at at, named)

pub remove_at-IsConsistent :
    (o : Outbox) (disk disk' : Disk) (f : QueuedFile) (k : ℕ)
    → IsConsistent o disk
    → get_elem? o.items k ≡ some f
    → ((q : String) → f.path ≢ q → has_path q o.items ≡ true → disk' q ≡ disk q)
    → IsConsistent (remove_at k o) disk'
unfolding remove_at drop_item
remove_at-IsConsistent o disk disk' f k ok at same = rw at (record {
  total =
      rw
        (
          ok.total,
          sub64-pos (sum_sizes o.items) f.size ok.fits
              (omega (arith, sum_sizes-remove_nth f o.items k at)),
        )
        (ap pos (omega (arith, sum_sizes-remove_nth f o.items k at)));
  fits = omega (arith, sum_sizes-remove_nth f o.items k at);
  known_exact =
      λ q. ground (arith, ok.known_exact q, has_path-remove_nth f o.items k q ok.distinct at);
  distinct = AllDistinct-remove_nth f o.items k ok.distinct at;
  stored =
      AllStored-agree disk disk' (remove_nth k o.items)
        (λ q queued.
          same q
            (λ e. ground (arith, has_path-remove_nth f o.items k q ok.distinct at, eq_iff f.path q))
            (ground (arith, has_path-remove_nth f o.items k q ok.distinct at)))
        (AllStored-remove_nth disk o.items k ok.stored);
})

-- Remove keeps a consistent outbox consistent, whether or not the item is queued and whether or
-- not the system call fails.
pub remove-IsConsistent :
    (fails : Bool) (item : QueueItem) (o : Outbox) (disk : Disk)
    → IsConsistent o disk
    → let p = remove fails item o disk in IsConsistent p.0 p.1
unfolding remove
remove-IsConsistent fails item o disk ok = elim (Option-cases (index_of o item.path)) [
  | inl e ↦ rw (e, remove) ok
  | inr (k, e) ↦ elim (Bool-cases fails) [
    | inl stuck ↦ rw (e, stuck, remove) ok
    | inr fine ↦
        let (f, at, named) = index_of-found o item.path k e in
        rw (e, fine, remove)
          (remove_at-IsConsistent o disk (remove_file disk item.path) f k ok at
            (λ q other queued. ground (arith, eq_iff item.path q)))
  ]
]
