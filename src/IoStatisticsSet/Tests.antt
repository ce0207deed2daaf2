-- ===== src/IoStatisticsSet/Tests.antt =====
-- The theorems about source/octf/analytics/statistics/IoStatisticsSet.cpp at a set of two devices,
-- whose statistics are the number of events and a flag for the histogram.
use open_cas_telemetry_frame.Prelude.{ℕ, ◌+◌, ◌≡◌, ◌≢◌, Bool, true, false, some, [], ◌∷◌, arith}
use open_cas_telemetry_frame.IoStatisticsSet.{
  Key, Statistics, StatisticsSet, lookup, count, add_device,
}
use open_cas_telemetry_frame.IoStatisticsSet.Lookup.{IsSorted}
use open_cas_telemetry_frame.IoStatisticsSet.Devices.{
  count-lookup, add_device-lookup, entry_of, added_value,
}

abbrev numbers : Statistics (ℕ × Bool) ℕ
numbers = record {
  fresh = λ n. (0, false);
  count_event = λ v e. (v.0 + 1, v.1);
  enable_lba_histogram = λ v. (v.0, true);
  device_id = λ e. e;
}

abbrev device : ℕ → ℕ → Key ℕ
device i n = record { id = i; size = n; name = 0; model = 0 }

abbrev two_devices : StatisticsSet ℕ (ℕ × Bool)
two_devices = record {
  entries = (device 3 100, (5, false)) ∷ (device 8 200, (6, false)) ∷ [];
  lba_hit_range_size = 1;
  lba_hist_enabled = true;
}

two_devices-IsSorted : IsSorted 0 two_devices.entries
two_devices-IsSorted = (omega arith, (omega arith, tt))

count-lookup_example :
    let s = count numbers 0 two_devices 8 in
    let x = entry_of numbers 0 two_devices (device 8 0) (lookup two_devices.entries 8) in
    (lookup s.entries 8 ≡ some (x.0, numbers.count_event x.1 8))
    × ((j : ℕ) → 8 ≢ j → lookup s.entries j ≡ lookup two_devices.entries j)
    × IsSorted 0 s.entries
count-lookup_example = count-lookup numbers 0 two_devices 8 two_devices-IsSorted

add_device-lookup_example :
    let s = add_device numbers 0 two_devices (device 3 400) in
    (lookup s.entries 3
      ≡ some (device 3 400, added_value numbers 0 two_devices (lookup two_devices.entries 3)))
    × ((j : ℕ) → 3 ≢ j → lookup s.entries j ≡ lookup two_devices.entries j)
    × IsSorted 0 s.entries
add_device-lookup_example =
    add_device-lookup numbers 0 two_devices (device 3 400) two_devices-IsSorted
