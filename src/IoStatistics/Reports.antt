-- ===== src/IoStatistics/Reports.antt =====
-- The reports of source/octf/analytics/statistics/IoStatistics.cpp.
use open_cas_telemetry_frame.Prelude.{
  ℕ, Option, none, some, List, [], ◌∷◌, if◌then◌else◌, add64, sub64,
}
use open_cas_telemetry_frame.Distribution.{get_statistics, get_histogram}
use open_cas_telemetry_frame.Distribution as Distribution
use open_cas_telemetry_frame.Workset.{get_workset}
use open_cas_telemetry_frame.IoStatistics.{
  Stats, IoStatistics, io_read, io_write, io_discard, nth_stats,
}

-- `getIoStatisticsEntry`, less the throughput and the bandwidth.
pub record Entry : Type 0 where
  pub size : Distribution.Statistics
  pub count : ℕ
  pub latency : Distribution.Statistics
  pub errors : ℕ
  pub workset : ℕ

abbrev pub entry : Stats → Entry
entry x = record {
  size = get_statistics x.size_distribution;
  count = x.count;
  latency = get_statistics x.latency_distribution;
  errors = x.errors;
  workset = get_workset x.wc;
}

-- The messages with a part for each kind; a histogram has some of them only.
pub record Report (A : Type 0) : Type 0 where
  pub read : A
  pub write : A
  pub discard : A
  pub flush : A
  pub total : A
  pub duration : ℕ

abbrev pub duration_of : IoStatistics → ℕ
duration_of s = sub64 s.end_time s.start_time

abbrev pub report : {A : Type 0} → (Stats → A) → IoStatistics → Report A
report f s = record {
  read = f (nth_stats io_read s.statistics);
  write = f (nth_stats io_write s.statistics);
  discard = f (nth_stats io_discard s.statistics);
  flush = f s.flush;
  total = f s.total;
  duration = duration_of s;
}

abbrev pub Rows : Type 0
Rows = Option (List (ℕ × ℕ × ℕ))

-- `getIoStatistics`, `getIoLatencyHistogram`, `getIoSizeHistogram` and `getQueueDepthHistogram`.
unfoldable pub get_io_statistics : IoStatistics → Report Entry
get_io_statistics s = report entry s

unfoldable pub get_io_latency_histogram : IoStatistics → Report Rows
get_io_latency_histogram s = report (λ x. some (get_histogram x.latency_distribution)) s

unfoldable pub get_io_size_histogram : IoStatistics → Report Rows
get_io_size_histogram s = record (report (λ x. some (get_histogram x.size_distribution)) s) {
  discard = none;
  flush = none;
  total = none;
}

unfoldable pub get_queue_depth_histogram : IoStatistics → Report Rows
get_queue_depth_histogram s = record (report (λ x. some (get_histogram x.qd_distribution)) s) {
  discard = none;
  flush = none;
}

-- `getLbaHistogramEntry` and `getIoLbaHistogram`, which fills in nothing where the histogram is off.
abbrev pub lba_rows : ℕ → List (ℕ × ℕ) → List (ℕ × ℕ × ℕ)
lba_rows size [] = []
lba_rows size (e ∷ es) = (e.0, sub64 (add64 e.0 size) 1, e.1) ∷ lba_rows size es

unfoldable pub get_io_lba_histogram : IoStatistics → Option (Report Rows)
get_io_lba_histogram s =
    if s.lba_hist_enabled
    then some (record (report (λ x. some (lba_rows s.lba_hist_range_size x.lba_hit_map)) s) {
      flush = none;
    })
    else none
