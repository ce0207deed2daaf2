-- ===== src/IoStatisticsSet/Devices.antt =====
-- IoStatisticsSet::count and IoStatisticsSet::addDevice of
-- source/octf/analytics/statistics/IoStatisticsSet.cpp, device by device.
use open_cas_telemetry_frame.Prelude.{
  ℕ, ◌≡◌, refl, ap, ◌∙◌, ◌≢◌, inl, inr, Option, none, some, arith, if◌then◌else◌, Option-cases,
}
use open_cas_telemetry_frame.IoStatisticsSet.{
  Key, Statistics, StatisticsSet, lookup, erase, with_entry, bare_key, count, enabled_value,
  add_found, add_device,
}
use open_cas_telemetry_frame.IoStatisticsSet.Lookup.{
  IsSorted, emplace-IsSorted, erase-IsSorted, modify-IsSorted, lookup-emplace, lookup-emplace_other,
  lookup-erase, lookup-erase_other, lookup-modify, lookup-modify_other,
}

module _ {S V E : Type 0} (m : Statistics V E) (empty_string : S) where
  -- The entry that the set has for a device, or makes for it.
  abbrev pub entry_of : StatisticsSet S V → Key S → Option (Key S × V) → Key S × V
  entry_of s k none = (k, m.fresh s.lba_hit_range_size)
  entry_of s k (some x) = x

  with_entry-lookup :
      (s : StatisticsSet S V) (k : Key S) (o : Option (Key S × V))
      → lookup s.entries k.id ≡ o
      → lookup (with_entry m empty_string s k o) k.id ≡ some (entry_of s k o)
  with_entry-lookup s k none h = lookup-emplace (k, m.fresh s.lba_hit_range_size) s.entries h
  with_entry-lookup s k (some x) h = h

  with_entry-other :
      (s : StatisticsSet S V) (k : Key S) (o : Option (Key S × V)) (j : ℕ)
      → k.id ≢ j
      → lookup (with_entry m empty_string s k o) j ≡ lookup s.entries j
  with_entry-other s k none j h =
      lookup-emplace_other (k, m.fresh s.lba_hit_range_size) j s.entries h
  with_entry-other s k (some x) j h = refl

  with_entry-IsSorted :
      (s : StatisticsSet S V) (k : Key S) (o : Option (Key S × V))
      → IsSorted 0 s.entries
      → IsSorted 0 (with_entry m empty_string s k o)
  with_entry-IsSorted s k none h =
      emplace-IsSorted 0 (k, m.fresh s.lba_hit_range_size) s.entries (omega arith) h
  with_entry-IsSorted s k (some x) h = h

  -- count of an event: the statistics of the event's device, or fresh ones under a key with the id
  -- alone if there are none, count this event and keep their key; the entries of all other devices
  -- stay, and so does the order of the ids.
  pub count-lookup :
      (s : StatisticsSet S V) (e : E)
      → IsSorted 0 s.entries
      → let i = m.device_id e in
        let x = entry_of s (bare_key m empty_string i) (lookup s.entries i) in
        let s' = count m empty_string s e in
        (lookup s'.entries i ≡ some (x.0, m.count_event x.1 e))
        × ((j : ℕ) → i ≢ j → lookup s'.entries j ≡ lookup s.entries j)
        × IsSorted 0 s'.entries
  unfolding count
  count-lookup s e h =
      let i = m.device_id e in
      let k = bare_key m empty_string i in
      let o = lookup s.entries i in
      let f : V → V = λ v. m.count_event v e in
      let es = with_entry m empty_string s k o in
      (
        lookup-modify f i es (entry_of s k o) (with_entry-lookup s k o refl),
        (λ j apart. lookup-modify_other f i j es apart ∙ with_entry-other s k o j apart),
        modify-IsSorted f 0 i es (with_entry-IsSorted s k o h),
      )

  -- The value that addDevice leaves for its key.
  abbrev pub added_value : StatisticsSet S V → Option (Key S × V) → V
  added_value s none = m.fresh s.lba_hit_range_size
  added_value s (some x) = if s.lba_hist_enabled then m.enable_lba_histogram x.1 else x.1

  -- addDevice: the device has its new description; statistics that were there are kept, with the
  -- LBA histogram enabled if the set has it enabled, and otherwise there are fresh ones, on which it is
  -- not enabled; the entries of all other devices and the order of the ids stay.
  pub add_device-lookup :
      (s : StatisticsSet S V) (k : Key S)
      → IsSorted 0 s.entries
      → let s' = add_device m empty_string s k in
        (lookup s'.entries k.id ≡ some (k, added_value s (lookup s.entries k.id)))
        × ((j : ℕ) → k.id ≢ j → lookup s'.entries j ≡ lookup s.entries j)
        × IsSorted 0 s'.entries
  unfolding add_device
  add_device-lookup s k h = elim (Option-cases (lookup s.entries k.id)) [
    | inl none_there ↦
        let same : add_found m empty_string s k none ≡ with_entry m empty_string s k none =
          ap (with_entry m empty_string s k) none_there in
        rw none_there (
          rw same (
            with_entry-lookup s k none none_there,
            with_entry-other s k none,
            with_entry-IsSorted s k none h,
          ))
    | inr (x, there) ↦
        let e : Key S × V = (k, enabled_value m empty_string s.lba_hist_enabled x.1) in
        let rest = erase k.id s.entries in
        rw there (
          lookup-emplace e rest (lookup-erase 0 k.id s.entries h),
          (λ j apart.
              lookup-emplace_other e j rest apart ∙ lookup-erase_other k.id j s.entries apart),
          emplace-IsSorted 0 e rest (omega arith) (erase-IsSorted 0 k.id s.entries h),
        )
  ]
