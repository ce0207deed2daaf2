-- ===== src/IoStatisticsSet.antt =====
-- source/octf/analytics/statistics/IoStatisticsSet.cpp: the I/O statistics of each device, a std::map
-- from the device's key, which is compared by its id.
use open_cas_telemetry_frame.Prelude.{
  ℕ, zero, suc, ◌+◌, ◌-◌, ◌*◌, ◌/◌, ◌%◌, ◌^◌, ◌≤◌, ◌<◌, min, max, ◌≡◌, refl, sym, ap, ap₂, ◌∙◌,
  subst, ◌≢◌, ◌↔◌, ◌⊎◌, inl, inr, Bool, true, false, ◌&&◌, ◌||◌, not, Option, none, some, List, [],
  ◌∷◌, ◌++◌, map, append-nil, append_assoc, arith, dec_lt, dec_le, ℕ_discrete, ltb, leb, ◌==◌,
  if◌then◌else◌, ltb→lt, lt→ltb, leb→le, ==_iff, Bool-cases, Option-cases, length, take, drop,
  replicate, set, get_or, length-append, take-append-drop, length-replicate, length-set, take-all,
  take-take, take_add, take-nil, length-take_le, take-prefix, drop-prefix, take-within, drop-within,
  length-take, length-drop, u64_mod, add64, sub64, mul64,
}
pub mod Lookup
pub mod Devices
mod Tests

-- `IoStatisticsSet::Key`, over the strings `S`.
pub record Key (S : Type 0) : Type 0 where
  pub id : ℕ
  pub size : ℕ
  pub name : S
  pub model : S

-- What the set uses of `IoStatistics` (`V`) and of the parsed events (`E`).
pub record Statistics (V E : Type 0) : Type 0 where
  pub fresh : ℕ → V
  pub count_event : V → E → V
  pub enable_lba_histogram : V → V
  pub device_id : E → ℕ

-- The set; the map is in the order of the ids.
pub record StatisticsSet (S V : Type 0) : Type 0 where
  pub entries : List (Key S × V)
  pub lba_hit_range_size : ℕ
  pub lba_hist_enabled : Bool

-- `std::map::find`, `emplace`, `erase`, and an update of the value in place.
unfoldable pub lookup : {S V : Type 0} → List (Key S × V) → ℕ → Option (Key S × V)
lookup [] i = none
lookup (e ∷ es) i = let rest = lookup es i in if e.0.id == i then some e else rest

unfoldable pub emplace : {S V : Type 0} → Key S × V → List (Key S × V) → List (Key S × V)
emplace e [] = e ∷ []
emplace e (x ∷ xs) =
    let rest = emplace e xs in
    if ltb e.0.id x.0.id then e ∷ x ∷ xs else if ltb x.0.id e.0.id then x ∷ rest else x ∷ xs

unfoldable pub erase : {S V : Type 0} → ℕ → List (Key S × V) → List (Key S × V)
erase i [] = []
erase i (x ∷ xs) = let rest = erase i xs in if x.0.id == i then xs else x ∷ rest

unfoldable pub modify : {S V : Type 0} → (V → V) → ℕ → List (Key S × V) → List (Key S × V)
modify f i [] = []
modify f i (x ∷ xs) =
    let rest = modify f i xs in if x.0.id == i then (x.0, f x.1) ∷ xs else x ∷ rest

module _ {S V E : Type 0} (m : Statistics V E) (empty_string : S) where
  -- The constructor, and `enableLbaHistogram`.
  abbrev pub new_set : ℕ → StatisticsSet S V
  new_set size = record { entries = []; lba_hit_range_size = size; lba_hist_enabled = false }

  abbrev pub enable : StatisticsSet S V → StatisticsSet S V
  enable s = record s { lba_hist_enabled = true }

  -- `getIoStatistics`: the map with an entry for the key.
  abbrev pub with_entry : StatisticsSet S V → Key S → Option (Key S × V) → List (Key S × V)
  with_entry s k none = emplace (k, m.fresh s.lba_hit_range_size) s.entries
  with_entry s k (some e) = s.entries

  abbrev pub get_io_statistics : StatisticsSet S V → Key S → List (Key S × V)
  get_io_statistics s k = with_entry s k (lookup s.entries k.id)

  -- `Key(id)`.
  abbrev pub bare_key : ℕ → Key S
  bare_key i = record { id = i; size = 0; name = empty_string; model = empty_string }

  -- `count`.
  unfoldable pub count : StatisticsSet S V → E → StatisticsSet S V
  count s e =
      let i = m.device_id e in
      record s { entries = modify (λ v. m.count_event v e) i (get_io_statistics s (bare_key i)) }

  -- `addDevice`.
  abbrev pub enabled_value : Bool → V → V
  enabled_value enabled v = if enabled then m.enable_lba_histogram v else v

  abbrev pub add_found : StatisticsSet S V → Key S → Option (Key S × V) → List (Key S × V)
  add_found s k none = get_io_statistics s k
  add_found s k (some e) = emplace (k, enabled_value s.lba_hist_enabled e.1) (erase k.id s.entries)

  unfoldable pub add_device : StatisticsSet S V → Key S → StatisticsSet S V
  add_device s k = record s { entries = add_found s k (lookup s.entries k.id) }

-- `getIoStatisticsSet`, `getIoLatencyHistogramSet`, `getIoLbaHistogramSet`, `getIoSizeHistogramSet` and
-- `getQueueDepthHistogramSet`: a report of each device, by the function that makes it.
unfoldable pub report_set : {S V R : Type 0} → (V → R) → List (Key S × V) → List (Key S × R)
report_set report [] = []
report_set report (e ∷ es) = (e.0, report e.1) ∷ report_set report es
