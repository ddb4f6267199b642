-- ===== src/Features/Sector.antt =====
-- internal/features/sector.go and sector_extract.go: camera turns towards concealed targets. float64 and
-- its trigonometry are parameters, and so is the JSON decoder, which leaves a zero payload where it fails.
use dayz_behaviour.Prelude.{
  ℕ, zero, suc, ◌+◌, ◌==◌, Bool, false, ◌&&◌, ◌||◌, not, Option, none, some, List, [], ◌∷◌, ◌++◌,
  String, ltb, length, if◌then◌else◌,
}
use dayz_behaviour.Prelude.Int.{pos, ltb_ℤ}
use dayz_behaviour.Prelude.Words.{sub64}
use dayz_behaviour.Prelude.Text.{str_eq, len}
use dayz_behaviour.Floats.{Floats}
use dayz_behaviour.Schema.{Batch, Event}
use dayz_behaviour.Agent.Outbox.Scan.{text_lt}

pub record SectorResult (F : Type 0) : Type 0 where
  pub observed_concentration : F
  pub null_mean : F
  pub permutation_p_value : F
  pub sample_count : ℕ

pub record SectorPayload (F : Type 0) : Type 0 where
  pub sampling_reason : String
  pub sampling_stream : String
  pub classification : String
  pub camera_direction : List F
  pub observer_origin : List F
  pub target_head : List F

pub record SectorEvent (F : Type 0) : Type 0 where
  pub batch : Batch
  pub event : Event
  pub payload : SectorPayload F

-- math.Cos, math.Mod, math.Atan2, math.Pi, and json.Unmarshal into a zero payload
pub record SectorLib (F : Type 0) : Type 0 where
  pub cos : F → F
  pub mod_of : F → F → F
  pub atan2 : F → F → F
  pub pi : F
  pub decode : String → SectorPayload F
  pub zero_payload : SectorPayload F

has_id : String → List String → Bool
has_id id [] = false
has_id id (x ∷ xs) = str_eq x id || has_id id xs

module _ {F : Type 0} where
  -- the first and the third of three coordinates; none of any other number
  ground_plane : List F → Option (F × F)
  ground_plane (x ∷ y ∷ z ∷ []) = some (x, z)
  ground_plane _ = none

  earlier : SectorEvent F → SectorEvent F → Bool
  earlier a b =
      if not (str_eq a.batch.server_id b.batch.server_id)
      then text_lt a.batch.server_id b.batch.server_id
      else if not (str_eq a.batch.server_session_id b.batch.server_session_id)
      then text_lt a.batch.server_session_id b.batch.server_session_id
      else if not (ltb_ℤ a.event.server_time_ms b.event.server_time_ms)
          && not (ltb_ℤ b.event.server_time_ms a.event.server_time_ms)
      then ltb a.event.server_sequence b.event.server_sequence
      else ltb_ℤ a.event.server_time_ms b.event.server_time_ms

  insert_sector : SectorEvent F → List (SectorEvent F) → List (SectorEvent F)
  unfolding earlier
  insert_sector x [] = x ∷ []
  insert_sector x (y ∷ ys) =
      let rest = insert_sector x ys in if earlier y x then y ∷ rest else x ∷ y ∷ ys

  -- sort.SliceStable
  sort_sector : List (SectorEvent F) → List (SectorEvent F)
  unfolding insert_sector
  sort_sector [] = []
  sort_sector (x ∷ xs) = insert_sector x (sort_sector xs)

  -- where the inner loop breaks, and what it does not skip
  pub ends_sector : SectorEvent F → SectorEvent F → Bool
  ends_sector item c =
      (not (str_eq c.batch.server_id item.batch.server_id)
        || not (str_eq c.batch.server_session_id item.batch.server_session_id))
      || ltb_ℤ (pos 1500) (sub64 c.event.server_time_ms item.event.server_time_ms)

  pub is_concealed_target : SectorEvent F → SectorEvent F → Bool
  is_concealed_target item c =
      (str_eq c.event.player_session_id item.event.player_session_id
        && (str_eq c.event.event_type "VISIBILITY_OBSERVATION"
            && str_eq c.payload.sampling_stream "event_enrichment"))
      && (str_eq c.payload.classification "HEAD_ORIGIN_OCCLUDED"
          || str_eq c.payload.classification "ROBUSTLY_OCCLUDED")

  pub is_turn : List String → SectorEvent F → Bool
  unfolding has_id
  is_turn eligible item =
      has_id item.event.player_session_id eligible
      && (str_eq item.event.event_type "DECISION_EDGE"
          && str_eq item.payload.sampling_reason "DELIBERATE_CAMERA_TURN")

module _ (fl : Floats) (lib : SectorLib fl.F) where
  open fl use {F, lt, le, add, sub, mul, div, of_int}

  pub angular_difference : F → F → F
  angular_difference left right =
      let whole = mul (of_int 2) lib.pi in
      let difference = lib.mod_of (add (sub left right) lib.pi) whole in
      sub (if lt difference (of_int 0) then add difference whole else difference) lib.pi

  sum_cosines : List (F × F) → F → F → F
  unfolding angular_difference
  sum_cosines [] shift sum = sum
  sum_cosines ((heading, bearing) ∷ rest) shift sum =
      sum_cosines rest shift (add sum (lib.cos (angular_difference heading (add bearing shift))))

  pub concentration : List (F × F) → F → F
  unfolding sum_cosines
  concentration pairs shift = div (sum_cosines pairs shift (of_int 0)) (of_int (length pairs))

  -- the sum of the null values, and how many reach the observed one
  permute : List (F × F) → F → List F → F × ℕ → F × ℕ
  unfolding concentration
  permute pairs observed [] r = r
  permute pairs observed (shift ∷ shifts) r =
      let value = concentration pairs shift in
      permute pairs observed shifts (add r.0 value, if le observed value then r.1 + 1 else r.1)

  -- the headings and the bearings have one length, since they are kept as pairs
  pub circular_permutation : List (F × F) → List F → SectorResult F
  unfolding permute concentration
  circular_permutation pairs shifts =
      let observed = concentration pairs (of_int 0) in
      let r = permute pairs observed shifts (of_int 0, 0) in
      if length pairs == 0 || length shifts == 0
      then record {
        observed_concentration = of_int 0;
        null_mean = of_int 0;
        permutation_p_value = of_int 0;
        sample_count = 0;
      }
      else record {
        observed_concentration = observed;
        null_mean = div r.0 (of_int (length shifts));
        permutation_p_value = div (of_int (r.1 + 1)) (of_int (length shifts + 1));
        sample_count = length pairs;
      }

  -- the bearing of the first concealed target behind a turn
  pub find_bearing : SectorEvent F → List (SectorEvent F) → Option F
  unfolding ground_plane
  find_bearing item [] = none
  find_bearing item (c ∷ cs) =
      let rest = find_bearing item cs in
      if ends_sector item c
      then none
      else if not (is_concealed_target item c)
      then rest
      else elim (ground_plane c.payload.observer_origin) [
        | none ↦ rest
        | some o ↦ elim (ground_plane c.payload.target_head) [
          | none ↦ rest
          | some t ↦ some (lib.atan2 (sub t.0 o.0) (sub t.1 o.1))
        ]
      ]

  pub collect_pairs : List String → List (SectorEvent F) → List (F × F)
  unfolding find_bearing ground_plane
  collect_pairs eligible [] = []
  collect_pairs eligible (item ∷ after) =
      let rest = collect_pairs eligible after in
      if not (is_turn eligible item)
      then rest
      else elim (ground_plane item.payload.camera_direction) [
        | none ↦ rest
        | some c ↦ elim (find_bearing item after) [
          | none ↦ rest
          | some b ↦ (lib.atan2 c.0 c.1, b) ∷ rest
        ]
      ]

  sector_batch : Batch → List Event → List (SectorEvent F)
  sector_batch b [] = []
  sector_batch b (e ∷ es) =
      record {
        batch = b;
        event = e;
        payload = if ltb 0 (len e.payload) then lib.decode e.payload else lib.zero_payload;
      }
      ∷ sector_batch b es

  sector_events : List Batch → List (SectorEvent F)
  unfolding sector_batch
  sector_events [] = []
  sector_events (b ∷ bs) = sector_batch b b.events ++ sector_events bs

  -- the shifts by k * 2 * pi / 36, from `k` on
  shifts_from : ℕ → ℕ → List F
  shifts_from zero k = []
  shifts_from (suc n) k =
      div (mul (mul (of_int k) (of_int 2)) lib.pi) (of_int 36) ∷ shifts_from n (k + 1)

  pub estimate_concealed_sector : List String → List Batch → SectorResult F
  unfolding collect_pairs sort_sector sector_events shifts_from circular_permutation
  estimate_concealed_sector session_ids batches =
      circular_permutation (collect_pairs session_ids (sort_sector (sector_events batches)))
        (shifts_from 35 1)
