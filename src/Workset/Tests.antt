-- ===== src/Workset/Tests.antt =====
-- The theorems about WorksetCalculator at concrete inputs, and runs of it.
use open_cas_telemetry_frame.Prelude.{ℕ, ◌+◌, ◌≡◌, refl, true, false, ◌||◌, List, [], ◌∷◌, arith}
use open_cas_telemetry_frame.Workset.{
  Range, Calculator, empty, insert_range, remove_range, get_workset,
}
use open_cas_telemetry_frame.Workset.Ordered.{covered}
use open_cas_telemetry_frame.Workset.Insert.{IsValid, requested, covered-insert_range}
use open_cas_telemetry_frame.Workset.Remove.{survives}
use open_cas_telemetry_frame.Workset.Gap.{
  covered-remove_range, covered-remove_range_exact, remove_range_keeps_swallowed,
}
use open_cas_telemetry_frame.Workset.Total.{total}
use open_cas_telemetry_frame.Workset.Reported.{total-remove_range}
use open_cas_telemetry_frame.Workset.Spec.{Op, insert, remove, run, spec, nothing, run-empty}

abbrev range : ℕ → ℕ → Range
range b e = record { begin = b; end = e }

-- [0;100] and [200;300], as in the test removeAndSplitRanges.
abbrev two_ranges : Calculator
two_ranges = record {
  hit_ranges = range 0 100 ∷ range 200 300 ∷ [];
  max_workset = 0;
  is_max_fresh = false;
}

two_ranges-IsValid : IsValid two_ranges
two_ranges-IsValid = omega arith

two_ranges_built : insert_range 200 100 (insert_range 0 100 empty) ≡ two_ranges
unfolding insert_range empty
two_ranges_built = refl

merges : (insert_range 90 115 two_ranges).hit_ranges ≡ range 0 300 ∷ []
unfolding insert_range
merges = refl

splits : remove_range 50 200 two_ranges ≡ (
  record { hit_ranges = range 0 50 ∷ range 250 300 ∷ []; max_workset = 200; is_max_fresh = true },
  100,
)
unfolding remove_range
splits = refl

-- [200;300] lies in the removed range and stays.
covers_and_keeps : (remove_range 150 250 two_ranges).0.hit_ranges ≡ two_ranges.hit_ranges
unfolding remove_range
covers_and_keeps = refl

-- A removal of length 0 drops the sectors from 50 on.
zero_length_drops : remove_range 50 0 two_ranges ≡ (
  record two_ranges {
    hit_ranges = range 0 50 ∷ range 200 300 ∷ [];
    max_workset = 200;
    is_max_fresh = true;
  },
  0,
)
unfolding remove_range
zero_length_drops = refl

covered-insert_range_example :
    IsValid (insert_range 90 115 two_ranges)
    × ((s : ℕ)
        → covered s (insert_range 90 115 two_ranges).hit_ranges
          ≡ (requested 90 115 s || covered s two_ranges.hit_ranges))
covered-insert_range_example =
    covered-insert_range 90 115 two_ranges (omega arith) two_ranges-IsValid

covered-remove_range_example :
    IsValid (remove_range 150 250 two_ranges).0
    × ((s : ℕ)
        → covered s (remove_range 150 250 two_ranges).0.hit_ranges
          ≡ survives (range 150 400) s two_ranges.hit_ranges)
covered-remove_range_example =
    covered-remove_range 150 250 two_ranges (omega arith) (omega arith) two_ranges-IsValid

covered-remove_range_exact_example :
    covered 70 (remove_range 50 200 two_ranges).0.hit_ranges ≡ false
covered-remove_range_exact_example =
    covered-remove_range_exact 50 200 two_ranges (omega arith) (omega arith) two_ranges-IsValid refl
      70

remove_range_keeps_swallowed_example :
    (covered 250 (remove_range 150 250 two_ranges).0.hit_ranges ≡ true)
    × (requested 150 250 250 ≡ true)
remove_range_keeps_swallowed_example =
    remove_range_keeps_swallowed 150 250 two_ranges (range 0 100 ∷ []) (range 200 300) []
      (omega arith) (omega arith) two_ranges-IsValid refl refl 250 refl

total-remove_range_example :
    let (c, removed) = remove_range 50 200 two_ranges in removed + total c.hit_ranges ≡ 200
total-remove_range_example =
    total-remove_range 50 200 two_ranges (omega arith) (omega arith) two_ranges-IsValid

abbrev history : List Op
history = insert 0 100 ∷ remove 0 100 ∷ insert 100 100 ∷ []

run-empty_example :
    ((s : ℕ) → covered s (run empty history).hit_ranges ≡ (spec nothing history).sectors s)
    × (get_workset (run empty history) ≡ (spec nothing history).peak)
unfolding insert_range remove_range empty
run-empty_example =
    run-empty history (omega arith, (omega arith, omega arith, refl, (omega arith, tt)))

-- The example of the comment at `getWorkset`: 100 sectors, removed, and 100 others give 100.
peak_of_history : get_workset (run empty history) ≡ 100
unfolding run insert_range remove_range get_workset empty
peak_of_history = refl
