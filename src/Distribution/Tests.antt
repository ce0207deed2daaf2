-- ===== src/Distribution/Tests.antt =====
-- Tests of the model of source/octf/analytics/statistics/Distribution.cpp with ten ranges and base ten,
-- and its theorems at work.
use open_cas_telemetry_frame.Prelude.{◌-◌, ◌≡◌, refl, some, [], arith, u64_mod, ◌∷◌}
use open_cas_telemetry_frame.Distribution.{Distribution, new_distribution, add, added, List, ℕ}
use open_cas_telemetry_frame.Distribution.Summary.{Summarises, add_all, add_all-Summarises}
use open_cas_telemetry_frame.Distribution.Counting.{IsDistribution, Adds, add-Adds}

abbrev new_one : Distribution
new_one = record {
  ranges = 10;
  base = 10;
  total = 0;
  count = 0;
  min_value = u64_mod - 1;
  max_value = 0;
  histogram = [];
}

new_one_made : new_distribution 10 10 ≡ some new_one
unfolding new_distribution
new_one_made = refl

new_one-IsDistribution : IsDistribution new_one
new_one-IsDistribution = record {
  base_ok = omega arith;
  ranges_ok = omega arith;
  ranges_fit = omega arith;
  shaped = tt;
  all_counted = refl;
}

add-Adds_example :
    (d : Distribution) × (add new_one 137 ≡ added d) × IsDistribution d × Adds new_one 137 d
add-Adds_example = add-Adds new_one 137 (omega arith) (omega arith) new_one-IsDistribution

abbrev values : List ℕ
values = 137 ∷ 5 ∷ 12 ∷ 137 ∷ []

add_all-Summarises_example :
    (d : Distribution) × (add_all values new_one ≡ added d) × Summarises new_one values d
add_all-Summarises_example =
    add_all-Summarises new_one values (omega arith, (omega arith, (omega arith, (omega arith, tt))))
      (omega arith) new_one-IsDistribution
