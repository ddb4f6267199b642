-- ===== src/Agent/Outbox/Items.antt =====
-- internal/agent/outbox.go: the list of queued files, its total size and its paths.
use dayz_behaviour.Prelude.{
  ℕ, zero, suc, ◌+◌, ◌-◌, ◌≤◌, ◌≡◌, ◌≢◌, refl, ap, ◌∙◌, Bool, true, false, ◌||◌, none, some, List,
  [], ◌∷◌, ◌++◌, String, arith, length, get_elem?, if◌then◌else◌, Bool-cases, inl, inr,
}
use dayz_behaviour.Prelude.Text.{str_eq, eq_iff, len}
use dayz_behaviour.Disk.{Disk}
use dayz_behaviour.Agent.Outbox.{QueuedFile, index_from, remove_nth}

abbrev pub sum_sizes : List QueuedFile → ℕ
sum_sizes [] = 0
sum_sizes (f ∷ fs) = f.size + sum_sizes fs

abbrev pub has_path : String → List QueuedFile → Bool
has_path q [] = false
has_path q (f ∷ fs) = str_eq f.path q || has_path q fs

abbrev pub AllDistinct : List QueuedFile → Type 0
AllDistinct [] = Unit
AllDistinct (f ∷ fs) = (has_path f.path fs ≡ false) × AllDistinct fs

-- every queued file is on the disk, with the size that the queue counts
abbrev pub AllStored : Disk → List QueuedFile → Type 0
AllStored disk [] = Unit
AllStored disk (f ∷ fs) =
    ((content : String) × (disk f.path ≡ some content) × (len content ≡ f.size)) × AllStored disk fs

pub sum_sizes-append :
    (fs : List QueuedFile) (f : QueuedFile) → sum_sizes (fs ++ f ∷ []) ≡ sum_sizes fs + f.size
sum_sizes-append [] f = omega arith
sum_sizes-append (g ∷ fs) f = omega (arith, sum_sizes-append fs f)

pub has_path-append :
    (q : String) (fs : List QueuedFile) (f : QueuedFile)
    → has_path q (fs ++ f ∷ []) ≡ (has_path q fs || str_eq f.path q)
has_path-append q [] f = ground arith
has_path-append q (g ∷ fs) f = ground (arith, has_path-append q fs f)

pub AllDistinct-append :
    (fs : List QueuedFile) (f : QueuedFile)
    → AllDistinct fs
    → has_path f.path fs ≡ false
    → AllDistinct (fs ++ f ∷ [])
AllDistinct-append [] f d new = (refl, tt)
AllDistinct-append (g ∷ fs) f d new = (
  ground (arith, has_path-append g.path fs f, eq_iff g.path f.path, eq_iff f.path g.path),
  AllDistinct-append fs f d.1 (ground arith),
)

pub AllStored-append :
    (disk : Disk) (fs : List QueuedFile) (f : QueuedFile) (content : String)
    → AllStored disk fs
    → disk f.path ≡ some content
    → len content ≡ f.size
    → AllStored disk (fs ++ f ∷ [])
AllStored-append disk [] f content all here size = ((content, here, size), tt)
AllStored-append disk (g ∷ fs) f content all here size =
    (all.0, AllStored-append disk fs f content all.1 here size)

-- A queued path is on the disk.
pub has_path-stored :
    (disk : Disk) (q : String) (fs : List QueuedFile)
    → AllStored disk fs
    → has_path q fs ≡ true
    → disk q ≢ none
has_path-stored disk q [] all h = λ e. cc
has_path-stored disk q (f ∷ fs) all h = elim (Bool-cases (str_eq f.path q)) [
  | inl e ↦ λ absent. cc (ap disk ((eq_iff f.path q).0 e), all.0.1)
  | inr e ↦ has_path-stored disk q fs all.1 (ground arith)
]

-- Disks that agree on the queued paths store the same queue.
pub AllStored-agree :
    (disk disk' : Disk) (fs : List QueuedFile)
    → ((q : String) → has_path q fs ≡ true → disk' q ≡ disk q)
    → AllStored disk fs
    → AllStored disk' fs
AllStored-agree disk disk' [] same all = tt
AllStored-agree disk disk' (f ∷ fs) same all = (
  (all.0.0, same f.path (ground (arith, eq_iff f.path f.path)) ∙ all.0.1, all.0.2),
  AllStored-agree disk disk' fs (λ q h. same q (ground arith)) all.1,
)

-- `index_from i` finds the first entry of the path.
pub index_from-found :
    (i : ℕ) (q : String) (fs : List QueuedFile) (k : ℕ)
    → index_from i q fs ≡ some k
    → (f : QueuedFile) × (i ≤ k) × (get_elem? fs (k - i) ≡ some f) × (f.path ≡ q)
unfolding index_from
index_from-found i q [] k h = absurd (cc)
index_from-found i q (f ∷ fs) k h = elim (Bool-cases (str_eq f.path q)) [
  | inl e ↦ (f, ground arith, at_zero (ground arith), (eq_iff f.path q).0 e)
  | inr e ↦
      let (g, low, at, named) = index_from-found (i + 1) q fs k (ground arith) in
      (g, omega arith, at_suc g (omega arith) at, named)
]
  where
    at_zero : k ≡ i → get_elem? (f ∷ fs) (k - i) ≡ some f
    at_zero e = rw (let z : k - i ≡ 0 = omega arith in z)

    at_suc :
        (g : QueuedFile)
        → k - i ≡ suc (k - (i + 1))
        → get_elem? fs (k - (i + 1)) ≡ some g
        → get_elem? (f ∷ fs) (k - i) ≡ some g
    at_suc g e at = rw e at

module _ (f : QueuedFile) where
  pub sum_sizes-remove_nth :
      (fs : List QueuedFile) (i : ℕ)
      → get_elem? fs i ≡ some f
      → sum_sizes (remove_nth i fs) + f.size ≡ sum_sizes fs
  unfolding remove_nth
  sum_sizes-remove_nth [] i h = absurd (cc)
  sum_sizes-remove_nth (g ∷ fs) zero h = ground arith
  sum_sizes-remove_nth (g ∷ fs) (suc i) h = omega (arith, sum_sizes-remove_nth fs i h)

  pub length-remove_nth :
      (fs : List QueuedFile) (i : ℕ)
      → get_elem? fs i ≡ some f
      → length (remove_nth i fs) + 1 ≡ length fs
  unfolding remove_nth
  length-remove_nth [] i h = absurd (cc)
  length-remove_nth (g ∷ fs) zero h = omega arith
  length-remove_nth (g ∷ fs) (suc i) h = omega (arith, length-remove_nth fs i h)

  pub has_path_at :
      (fs : List QueuedFile) (i : ℕ) → get_elem? fs i ≡ some f → has_path f.path fs ≡ true
  has_path_at [] i h = absurd (cc)
  has_path_at (g ∷ fs) zero h = ground (arith, eq_iff g.path f.path)
  has_path_at (g ∷ fs) (suc i) h = ground (arith, has_path_at fs i h)

  -- With distinct paths, removing an entry removes its path and no other.
  pub has_path-remove_nth :
      (fs : List QueuedFile) (i : ℕ) (q : String)
      → AllDistinct fs
      → get_elem? fs i ≡ some f
      → has_path q (remove_nth i fs) ≡ (if str_eq f.path q then false else has_path q fs)
  unfolding remove_nth
  has_path-remove_nth [] i q d h = absurd (cc)
  has_path-remove_nth (g ∷ fs) zero q d h = ground (arith, eq_iff f.path q)
  has_path-remove_nth (g ∷ fs) (suc i) q d h = ground (
    arith,
    has_path-remove_nth fs i q d.1 h,
    has_path_at fs i h,
    eq_iff f.path q,
    eq_iff g.path q,
  )

  pub AllDistinct-remove_nth :
      (fs : List QueuedFile) (i : ℕ)
      → AllDistinct fs
      → get_elem? fs i ≡ some f
      → AllDistinct (remove_nth i fs)
  unfolding remove_nth
  AllDistinct-remove_nth [] i d h = absurd (cc)
  AllDistinct-remove_nth (g ∷ fs) zero d h = d.1
  AllDistinct-remove_nth (g ∷ fs) (suc i) d h =
      (ground (arith, has_path-remove_nth fs i g.path d.1 h), AllDistinct-remove_nth fs i d.1 h)

pub AllStored-remove_nth :
    (disk : Disk) (fs : List QueuedFile) (i : ℕ)
    → AllStored disk fs
    → AllStored disk (remove_nth i fs)
unfolding remove_nth
AllStored-remove_nth disk [] i all = tt
AllStored-remove_nth disk (g ∷ fs) zero all = all.1
AllStored-remove_nth disk (g ∷ fs) (suc i) all = (all.0, AllStored-remove_nth disk fs i all.1)
