-- ===== src/IoStatistics/Tests.antt =====
-- Some requests, on which the theorems about the I/O statistics are applied.
use open_cas_telemetry_frame.Prelude.{ℕ, ◌%◌, ◌≡◌, refl, true, false, List, [], ◌∷◌, arith, u64_mod}
use open_cas_telemetry_frame.ParsedIo.Event.{ParsedEvent, no_flags, no_file}
use open_cas_telemetry_frame.IoStatistics.{
  IoStatistics, counted, out_of_bounds, divided_by_zero, hit_lbas, enable_lba_histogram, count,
  new_statistics,
}
use open_cas_telemetry_frame.IoStatistics.Conserved.{Measure, measure, parts, Grows}
use open_cas_telemetry_frame.IoStatistics.Counted.{IsSound}
use open_cas_telemetry_frame.IoStatistics.Requests.{adds, at_most}
use open_cas_telemetry_frame.IoStatistics.Totals.{
  IsCounted, count-Grows, new-IsSound, count_all, sum_adds, count_all-new_statistics,
}

abbrev request_of : ℕ → ℕ → ParsedEvent
request_of operation lba = record {
  header = record { sid = 1; timestamp = 70 };
  has_io = true;
  io = record {
    lba = lba;
    len = 8;
    operation = operation;
    flags = no_flags;
    write_hint = 0;
    qd = 2;
    latency = 300;
    error = true;
  };
  device = record { id = 7; name = []; partition = 7; model = [] };
  has_file = false;
  file = no_file;
  tags = [];
}

abbrev two_requests : List ParsedEvent
two_requests = request_of 1 40 ∷ request_of 3 44 ∷ []

count-Grows_example :
    (s' : IoStatistics) × (count (request_of 3 44) (new_statistics 20480) ≡ counted s')
    × IsSound (at_most 1) s'
    × ((m : Measure)
        → Grows (adds (request_of 3 44) m) m (new_statistics 20480) s'
          × IsCounted (request_of 3 44) m (new_statistics 20480) s')
count-Grows_example =
    count-Grows (request_of 3 44) 0 (new_statistics 20480) (omega arith)
      (omega arith, omega arith, omega arith) (omega arith) (new-IsSound 20480)

count_all-new_statistics_example :
    (s : IoStatistics) × (count_all two_requests (new_statistics 20480) ≡ counted s)
    × ((m : Measure)
        → (measure m s.total % u64_mod ≡ sum_adds two_requests m % u64_mod)
          × (parts m s % u64_mod ≡ sum_adds two_requests m % u64_mod))
count_all-new_statistics_example =
    count_all-new_statistics two_requests 20480
      (
        (omega arith, (omega arith, omega arith, omega arith)),
        ((omega arith, (omega arith, omega arith, omega arith)), tt),
      )
      (omega arith)

-- The type 4 passes the test of the type, and lies behind the end of the array.
behind_the_end : count (request_of 4 0) (new_statistics 20480) ≡ out_of_bounds
unfolding count
behind_the_end = refl

-- An LBA histogram of a range size of zero.
divides_by_zero :
    count (request_of 1 40) (enable_lba_histogram (new_statistics 0)) ≡ divided_by_zero
unfolding count hit_lbas enable_lba_histogram new_statistics
divides_by_zero = refl
