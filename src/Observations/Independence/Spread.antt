-- ===== src/Observations/Independence/Spread.antt =====
-- internal/observations/builder.go: the independent observations after assignIndependence.
use dayz_behaviour.Prelude.{
  ℕ, ◌+◌, ◌<◌, ◌≤◌, ◌^◌, ◌≡◌, refl, true, false, some, List, [], ◌∷◌, String, arith, inl, inr,
  Bool-cases, ap, sym, subst, ◌∙◌, ◌⊎◌,
}
use dayz_behaviour.Prelude.Int.{ℤ, pos, ltb_ℤ, ◌-ℤ◌}
use dayz_behaviour.Prelude.Words.{sub64, wrap64}
use dayz_behaviour.Prelude.Text.{str_eq, eq_iff}
use dayz_behaviour.Observations.{Observation}
use dayz_behaviour.Observations.Events.{Config, BuildLib}
use dayz_behaviour.Observations.Independence.{
  Spacing, no_spacing, is_refractory, is_spaced, withdraw, name_groups, space_one, space_next,
  space_all, assign_independence,
}

-- a time in milliseconds that is not negative and fits into an int64
abbrev pub IsTime : ℤ → Type 0
IsTime t = (n : ℕ) × (t ≡ pos n) × (n < 2 ^ 63)

-- `later` lies at least `r` milliseconds behind `earlier`
abbrev pub IsBeyond : ℕ → ℤ → ℤ → Type 0
IsBeyond r earlier later = (m : ℕ) × (n : ℕ) × (earlier ≡ pos m) × (later ≡ pos n) × (m + r ≤ n)

some_inj : (a b : ℤ) → some a ≡ some b → a ≡ b
some_inj a b h = cc

IsBeyond-trans : (r : ℕ) (a b c : ℤ) → IsBeyond r a b → IsBeyond r b c → IsBeyond r a c
IsBeyond-trans r a b c (m, n, ea, eb, h) (n', k, eb', ec, h') =
    (m, k, ea, ec, ground (arith, eb, eb', h, h'))

sub64-times :
    (m n r : ℕ)
    → m < 2 ^ 63
    → n < 2 ^ 63
    → ltb_ℤ (sub64 (pos n) (pos m)) (pos r) ≡ false
    → m + r ≤ n
unfolding sub64 wrap64 ◌-ℤ◌
sub64-times m n r hm hn h = ground (arith, hm, hn, h)

module _ {F : Type 0} where
  abbrev pub AllTimed : List (Observation F) → Type 0
  AllTimed [] = Unit
  AllTimed (x ∷ xs) = IsTime x.started_ms × AllTimed xs

  -- the independent observations of `observer` in the list lie behind the time `t`
  abbrev pub AllBeyond : ℕ → String → ℤ → List (Observation F) → Type 0
  AllBeyond r observer t [] = Unit
  AllBeyond r observer t (y ∷ ys) =
      (y.independent ≡ true → y.observer_player_session_id ≡ observer → IsBeyond r t y.started_ms)
      × AllBeyond r observer t ys

  AllBeyond-trans :
      (r : ℕ) (q : String) (t u : ℤ) (ys : List (Observation F))
      → IsBeyond r t u
      → AllBeyond r q u ys
      → AllBeyond r q t ys
  AllBeyond-trans r q t u [] b h = tt
  AllBeyond-trans r q t u (y ∷ ys) b h = (
    λ free same. IsBeyond-trans r t u y.started_ms b (h.0 free same),
    AllBeyond-trans r q t u ys b h.1,
  )

  -- any two independent observations of one observer, in the order of the list
  abbrev pub IsSpread : ℕ → List (Observation F) → Type 0
  IsSpread r [] = Unit
  IsSpread r (x ∷ xs) =
      (x.independent ≡ true → AllBeyond r x.observer_player_session_id x.started_ms xs)
      × IsSpread r xs

module _ {F : Type 0} (lib : BuildLib F) (config : Config) (r : ℕ)
    (refractory : config.refractory_ms ≡ pos r) where
  space_one-started :
      (x : Observation F) (s : Spacing) → (space_one lib config x s).started_ms ≡ x.started_ms
  unfolding space_one name_groups withdraw
  space_one-started x s = elim (Bool-cases (is_spaced lib config x s)) [
    | inl e ↦ rw (e, space_one) refl
    | inr e ↦ rw (e, space_one) refl
  ]

  space_one-observer :
      (x : Observation F) (s : Spacing)
      → (space_one lib config x s).observer_player_session_id ≡ x.observer_player_session_id
  unfolding space_one name_groups withdraw
  space_one-observer x s = elim (Bool-cases (is_spaced lib config x s)) [
    | inl e ↦ rw (e, space_one) refl
    | inr e ↦ rw (e, space_one) refl
  ]

  space_one-independent :
      (x : Observation F) (s : Spacing)
      → (space_one lib config x s).independent ≡ true
      → is_spaced lib config x s ≡ true
  unfolding space_one name_groups withdraw
  space_one-independent x s h = elim (Bool-cases (is_spaced lib config x s)) [
    | inl e ↦ e
    | inr e ↦ absurd (cc (rw (e, space_one) at h))
  ]

  -- the times that the state remembers
  abbrev AllRemembered : Spacing → Type 0
  AllRemembered s = (q : String) (t : ℤ) → s.last_feature q ≡ some t → IsTime t

  is_spaced-IsBeyond :
      (x : Observation F) (s : Spacing) (t : ℤ)
      → IsTime x.started_ms
      → IsTime t
      → s.last_feature x.observer_player_session_id ≡ some t
      → is_spaced lib config x s ≡ true
      → IsBeyond r t x.started_ms
  unfolding is_refractory
  is_spaced-IsBeyond x s t (n, en, hn) (m, em, hm) last h =
      (m, n, em, en, sub64-times m n r hm hn (ground (arith, h, last, em, en, refractory)))

  space_next-AllRemembered :
      (x : Observation F) (s : Spacing)
      → IsTime x.started_ms
      → AllRemembered s
      → AllRemembered (space_next lib config x s)
  unfolding space_next
  space_next-AllRemembered x s now ok q t h = elim (Bool-cases (is_spaced lib config x s)) [
    | inr e ↦ ok q t (rw (e, space_next) at h)
    | inl e ↦ elim (Bool-cases (str_eq x.observer_player_session_id q)) [
      | inl k ↦ subst IsTime (some_inj x.started_ms t (rw (e, space_next, k) at h)) now
      | inr k ↦ ok q t (rw (e, space_next, k) at h)
    ]
  ]

  -- what the state remembers of an observer after a round: an earlier time only if it is behind
  space_next-last :
      (x : Observation F) (s : Spacing) (q : String) (t : ℤ)
      → IsTime x.started_ms
      → AllRemembered s
      → s.last_feature q ≡ some t
      → (u : ℤ) × ((space_next lib config x s).last_feature q ≡ some u) × ((u ≡ t) ⊎ IsBeyond r t u)
  unfolding space_next
  space_next-last x s q t now ok last = elim (Bool-cases (is_spaced lib config x s)) [
    | inr e ↦ (t, rw (e, space_next) last, inl refl)
    | inl e ↦ elim (Bool-cases (str_eq x.observer_player_session_id q)) [
      | inr k ↦ (t, rw (e, space_next, k) last, inl refl)
      | inl k ↦
          let here : s.last_feature x.observer_player_session_id ≡ some t =
            ap s.last_feature ((eq_iff x.observer_player_session_id q).0 k) ∙ last in
          (
            x.started_ms,
            rw (e, space_next, k) refl,
            inr (is_spaced-IsBeyond x s t now (ok q t last) here e),
          )
    ]
  ]

  carried :
      (x : Observation F) (s : Spacing) (q : String) (t : ℤ) (ys : List (Observation F))
      → ((u : ℤ) → (space_next lib config x s).last_feature q ≡ some u → AllBeyond r q u ys)
      → (u : ℤ) × ((space_next lib config x s).last_feature q ≡ some u) × ((u ≡ t) ⊎ IsBeyond r t u)
      → AllBeyond r q t ys
  carried x s q t ys behind (u, remembered, inl e) = behind t (remembered ∙ ap some e)
  carried x s q t ys behind (u, remembered, inr b) =
      AllBeyond-trans r q t u ys b (behind u remembered)

  -- what follows in the result is behind what the state remembers of an observer
  space_all-AllBeyond :
      (xs : List (Observation F)) (s : Spacing) (q : String) (t : ℤ)
      → AllTimed xs
      → AllRemembered s
      → s.last_feature q ≡ some t
      → AllBeyond r q t (space_all lib config xs s)
  unfolding space_all
  space_all-AllBeyond [] s q t timed ok last = tt
  space_all-AllBeyond (x ∷ xs) s q t timed ok last = (
    λ free same.
        let mine : x.observer_player_session_id ≡ q = sym (space_one-observer x s) ∙ same in
        subst (λ (u : ℤ). IsBeyond r t u) (sym (space_one-started x s))
          (is_spaced-IsBeyond x s t timed.0 (ok q t last) (ap s.last_feature mine ∙ last)
            (space_one-independent x s free)),
    carried x s q t (space_all lib config xs (space_next lib config x s))
        (λ u remembered.
          space_all-AllBeyond xs (space_next lib config x s) q u timed.1
            (space_next-AllRemembered x s timed.0 ok) remembered)
        (space_next-last x s q t timed.0 ok last),
  )

  space_all-IsSpread :
      (xs : List (Observation F)) (s : Spacing)
      → AllTimed xs
      → AllRemembered s
      → IsSpread r (space_all lib config xs s)
  unfolding space_all space_next
  space_all-IsSpread [] s timed ok = tt
  space_all-IsSpread (x ∷ xs) s timed ok = (
    λ free.
        rw (space_one-observer x s, space_one-started x s)
          (space_all-AllBeyond xs (space_next lib config x s) x.observer_player_session_id
            x.started_ms timed.1 (space_next-AllRemembered x s timed.0 ok)
            (remembered (space_one-independent x s free))),
    space_all-IsSpread xs (space_next lib config x s) timed.1
        (space_next-AllRemembered x s timed.0 ok),
  )
    where
      remembered :
          is_spaced lib config x s ≡ true
          → (space_next lib config x s).last_feature x.observer_player_session_id
            ≡ some x.started_ms
      remembered e =
          rw (e, space_next)
            (ground (arith, eq_iff x.observer_player_session_id x.observer_player_session_id))

  -- After assignIndependence, any two observations of one observer that are both left independent
  -- start at least the refractory time apart, if the refractory time is not negative and every
  -- start is a time from 0 below 2^63 milliseconds.
  pub assign_independence-IsSpread :
      (xs : List (Observation F)) → AllTimed xs → IsSpread r (assign_independence lib config xs)
  unfolding assign_independence
  assign_independence-IsSpread xs timed =
      space_all-IsSpread xs no_spacing timed (λ q t h. absurd (cc (h)))
