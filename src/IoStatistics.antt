-- ===== src/IoStatistics.antt =====
-- source/octf/analytics/statistics/IoStatistics.cpp: the statistics of the I/O of one device. The
-- throughput and the bandwidth, which are floating point, and the copies are left out.
use open_cas_telemetry_frame.Prelude.{
  ℕ, zero, suc, ◌+◌, ◌-◌, ◌*◌, ◌/◌, ◌%◌, ◌^◌, ◌≤◌, ◌<◌, min, max, ◌≡◌, refl, sym, ap, ap₂, ◌∙◌,
  subst, ◌≢◌, ◌↔◌, ◌⊎◌, inl, inr, Bool, true, false, ◌&&◌, ◌||◌, not, Option, none, some, List, [],
  ◌∷◌, ◌++◌, map, append-nil, append_assoc, arith, dec_lt, dec_le, ℕ_discrete, ltb, leb, ◌==◌,
  if◌then◌else◌, ltb→lt, lt→ltb, leb→le, ==_iff, Bool-cases, Option-cases, length, take, drop,
  replicate, set, get_or, length-append, take-append-drop, length-replicate, length-set, take-all,
  take-take, take_add, take-nil, length-take_le, take-prefix, drop-prefix, take-within, drop-within,
  length-take, length-drop, u64_mod, add64, sub64, mul64,
}
use open_cas_telemetry_frame.Distribution.{
  Distribution, Added, added, thrown, endless, new_distribution, get_statistics, get_histogram,
}
use open_cas_telemetry_frame.Distribution as Distribution
use open_cas_telemetry_frame.Workset.{Calculator, empty, insert_range, remove_range, get_workset}
use open_cas_telemetry_frame.ParsedIo.Event.{Io, ParsedEvent}
pub mod Reports
pub mod Counted
pub mod Conserved
pub mod Adding
pub mod Stages
pub mod Requests
pub mod Totals
mod Tests

-- `IoStatistics::Stats`; the std::map of the hits is the list of its entries in the order of the keys.
pub record Stats : Type 0 where
  pub size_distribution : Distribution
  pub count : ℕ
  pub latency_distribution : Distribution
  pub qd_distribution : Distribution
  pub errors : ℕ
  pub wc : Calculator
  pub lba_hit_map : List (ℕ × ℕ)

-- A distribution of the base 2, as the constructor makes it.
abbrev pub distribution : ℕ → Distribution
distribution ranges = record {
  ranges = ranges;
  base = 2;
  total = 0;
  count = 0;
  min_value = u64_mod - 1;
  max_value = 0;
  histogram = [];
}

unfoldable pub new_stats : Stats
new_stats = record {
  size_distribution = distribution 256;
  count = 0;
  latency_distribution = distribution 1;
  qd_distribution = distribution 128;
  errors = 0;
  wc = empty;
  lba_hit_map = [];
}

-- The statistics by the number of the `IoType`.
pub record IoStatistics : Type 0 where
  pub statistics : List Stats
  pub total : Stats
  pub flush : Stats
  pub lba_hist_range_size : ℕ
  pub start_time : ℕ
  pub end_time : ℕ
  pub lba_hist_enabled : Bool

-- `proto::trace::IoType` and its array size.
abbrev pub io_read : ℕ
io_read = 1

abbrev pub io_write : ℕ
io_write = 2

abbrev pub io_discard : ℕ
io_discard = 3

abbrev pub io_types : ℕ
io_types = 4

-- The constructor, and `enableLbaHistogram`.
unfoldable pub new_statistics : ℕ → IoStatistics
new_statistics range_size = record {
  statistics = new_stats ∷ new_stats ∷ new_stats ∷ new_stats ∷ [];
  total = new_stats;
  flush = new_stats;
  lba_hist_range_size = range_size;
  start_time = 0;
  end_time = 0;
  lba_hist_enabled = false;
}

unfoldable pub enable_lba_histogram : IoStatistics → IoStatistics
enable_lba_histogram s = record s { lba_hist_enabled = true }

-- The pointer `stats` of `count`.
pub data Target : Type 0 where
  of_type : ℕ → Target
  of_flush : Target

abbrev pub modify : (Stats → Stats) → ℕ → List Stats → List Stats
modify f i [] = []
modify f zero (x ∷ xs) = f x ∷ xs
modify f (suc i) (x ∷ xs) = x ∷ modify f i xs

abbrev pub on_target : (Stats → Stats) → Target → IoStatistics → IoStatistics
on_target f (of_type i) s = record s { statistics = modify f i s.statistics }
on_target f of_flush s = record s { flush = f s.flush }

abbrev pub nth_stats : ℕ → List Stats → Stats
nth_stats i [] = new_stats
nth_stats zero (x ∷ xs) = x
nth_stats (suc i) (x ∷ xs) = nth_stats i xs

abbrev pub target_stats : Target → IoStatistics → Stats
target_stats (of_type i) s = nth_stats i s.statistics
target_stats of_flush s = s.flush

-- A change of the target and of the total.
abbrev pub both : (Stats → Stats) → Target → IoStatistics → IoStatistics
both f t s = on_target f t (record s { total = f s.total })

-- What `count` ends with; the exceptions leave what was changed before them, and the accesses and the
-- divisions that C++ does not define end it.
pub data Outcome : Type 0 where
  counted failed : IoStatistics → Outcome
  out_of_bounds unending divided_by_zero : Outcome

abbrev pub and_then : Outcome → (IoStatistics → Outcome) → Outcome
and_then (counted s) f = f s
and_then (failed s) f = failed s
and_then out_of_bounds f = out_of_bounds
and_then unending f = unending
and_then divided_by_zero f = divided_by_zero

-- The distributions of a `Stats`.
pub data Which : Type 0 where
  sizes latencies depths : Which

abbrev pub get_which : Which → Stats → Distribution
get_which sizes s = s.size_distribution
get_which latencies s = s.latency_distribution
get_which depths s = s.qd_distribution

abbrev pub put_which : Which → Distribution → Stats → Stats
put_which sizes d s = record s { size_distribution = d }
put_which latencies d s = record s { latency_distribution = d }
put_which depths d s = record s { qd_distribution = d }

-- `total->... += value` and then `stats->... += value`.
abbrev pub after_target : Which → Target → IoStatistics → Added → Outcome
after_target w t s (added d) = counted (on_target (put_which w d) t s)
after_target w t s (thrown d) = failed (on_target (put_which w d) t s)
after_target w t s endless = unending

abbrev pub add_target : Which → ℕ → Target → IoStatistics → Outcome
add_target w value t s =
    after_target w t s (Distribution.add (get_which w (target_stats t s)) value)

abbrev pub after_total : Which → ℕ → Target → IoStatistics → Added → Outcome
after_total w value t s (added d) =
    add_target w value t (record s { total = put_which w d s.total })
after_total w value t s (thrown d) = failed (record s { total = put_which w d s.total })
after_total w value t s endless = unending

unfoldable pub add_both : Which → ℕ → Target → IoStatistics → Outcome
add_both w value t s =
    let r = after_total w value t s (Distribution.add (get_which w s.total) value) in
    if value == 0 then counted s else r

-- The hits of the ranges that a request spans.
unfoldable pub hit : ℕ → List (ℕ × ℕ) → List (ℕ × ℕ)
hit k [] = (k, 1) ∷ []
hit k (e ∷ es) =
    let rest = hit k es in
    if ltb k e.0 then (k, 1) ∷ e ∷ es else if ltb e.0 k then e ∷ rest else (e.0, add64 e.1 1) ∷ es

unfoldable pub hit_ranges : ℕ → ℕ → ℕ → ℕ → List (ℕ × ℕ) → List (ℕ × ℕ)
hit_ranges zero range begin size hits = hits
hit_ranges (suc n) range begin size hits =
    hit_ranges n (suc range) begin size (hit (add64 (mul64 range size) begin) hits)

unfoldable pub hit_lbas : Io → Target → IoStatistics → Outcome
hit_lbas io t s =
    let size = s.lba_hist_range_size in
    let begin = mul64 (io.lba / size) size in
    let end = mul64 (sub64 (add64 io.lba io.len) 1 / size) size in
    let span = add64 (sub64 end begin / size) 1 in
    if s.lba_hist_enabled && not (io.len == 0)
    then if size == 0
      then divided_by_zero
      else counted
          (both (λ x. record x { lba_hit_map = hit_ranges span 0 begin size x.lba_hit_map }) t s)
    else counted s

abbrev pub count_error : Io → Target → IoStatistics → IoStatistics
count_error io t s = if io.error then both (λ x. record x { errors = add64 x.errors 1 }) t s else s

-- The working sets; the range of a discard is kept in the target and leaves all others.
abbrev pub removed : Io → Stats → Stats
removed io x = record x { wc = (remove_range io.lba io.len x.wc).0 }

abbrev pub inserted : Io → Stats → Stats
inserted io x = record x { wc = insert_range io.lba io.len x.wc }

abbrev pub discard_all : Io → Option ℕ → List Stats → List Stats
discard_all io i [] = []
discard_all io none (x ∷ xs) = removed io x ∷ discard_all io none xs
discard_all io (some zero) (x ∷ xs) = inserted io x ∷ discard_all io none xs
discard_all io (some (suc i)) (x ∷ xs) = removed io x ∷ discard_all io (some i) xs

abbrev pub index_of : Target → Option ℕ
index_of (of_type i) = some i
index_of of_flush = none

unfoldable pub update_workset : Io → Target → IoStatistics → IoStatistics
update_workset io t s =
    if io.len == 0
    then s
    else if io.operation == io_discard
    then record s {
      statistics = discard_all io (index_of t) s.statistics;
      total = removed io s.total;
    }
    else both (inserted io) t s

-- The number of requests and the times.
unfoldable pub finish : ℕ → Target → IoStatistics → IoStatistics
finish time t s =
    let s' = both (λ x. record x { count = add64 x.count 1 }) t s in
    record s' { start_time = if s.start_time == 0 then time else s.start_time; end_time = time }

abbrev pub target_of : Io → Target
target_of io = if io.flags.flush && io.len == 0 then of_flush else of_type io.operation

-- `count` of a request whose type is one of the array.
abbrev pub count_at : ParsedEvent → Target → IoStatistics → Outcome
count_at e t s = and_then (hit_lbas e.io t s) λ s0.
    and_then (add_both latencies e.io.latency t s0) λ s1.
      and_then (add_both depths e.io.qd t s1) λ s2.
        and_then (add_both sizes e.io.len t (count_error e.io t s2))
          λ s3. counted (finish e.header.timestamp t (update_workset e.io t s3))

-- `count`. The type of the size of the array passes the test, and is behind the end of the array.
unfoldable pub count : ParsedEvent → IoStatistics → Outcome
count e s =
    if ltb io_types e.io.operation
    then failed s
    else if e.io.operation == io_types && not (e.io.flags.flush && e.io.len == 0)
    then out_of_bounds
    else count_at e (target_of e.io) s
