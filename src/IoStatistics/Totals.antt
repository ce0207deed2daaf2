-- ===== src/IoStatistics/Totals.antt =====
-- The totals of source/octf/analytics/statistics/IoStatistics.cpp over a run of requests.
use open_cas_telemetry_frame.Prelude.{
  ℕ, ◌+◌, ◌%◌, ◌≤◌, ◌<◌, ◌≡◌, refl, subst, inl, inr, Bool, false, ◌&&◌, List, [], ◌∷◌, arith, ltb,
  ◌==◌, if◌then◌else◌, Bool-cases, length, u64_mod,
}
use open_cas_telemetry_frame.ParsedIo.Event.{Io, ParsedEvent}
use open_cas_telemetry_frame.IoStatistics.{
  IoStatistics, io_types, Target, target_of, Which, sizes, latencies, depths, Outcome, counted,
  and_then, of_type, of_flush, nth_stats, count_error, update_workset, finish, count_at, count,
  new_statistics, new_stats, distribution,
}
use open_cas_telemetry_frame.IoStatistics.Conserved.{
  Measure, requests, error_count, sum_of, measure, parts, Grows, Grows-nothing, Grows-trans, Moves,
  PartsGrow, HasTarget,
}
use open_cas_telemetry_frame.Distribution.Counting.{IsDistribution}
use open_cas_telemetry_frame.Distribution.Level.{exact}
use open_cas_telemetry_frame.IoStatistics.Counted.{IsValid, IsSound, bump}
use open_cas_telemetry_frame.IoStatistics.Adding.{gain, Stage, IsSound-weaken, add_both-Stage}
use open_cas_telemetry_frame.IoStatistics.Stages.{
  plain, hit_lbas-Stage, count_error-Stage, finish-Stage,
}
use open_cas_telemetry_frame.IoStatistics.Requests.{
  update_workset-Stage, Stage-trans, adds, IsMeasured, at_most,
}

abbrev gains : ParsedEvent → Measure → ℕ
gains e m =
    plain 0 0 m
    + gain latencies e.io.latency m
    + gain depths e.io.qd m
    + plain 0 (if e.io.error then 1 else 0) m
    + gain sizes e.io.len m
    + plain 0 0 m
    + plain 1 0 m

gains_add : (e : ParsedEvent) (m : Measure) → gains e m ≡ adds e m
gains_add e requests = refl
gains_add e error_count = omega arith
gains_add e (sum_of sizes) = omega arith
gains_add e (sum_of latencies) = omega arith
gains_add e (sum_of depths) = omega arith

abbrev after : ℕ → Which → ℕ
after n = bump sizes (bump depths (bump latencies (at_most n)))

after_le : (n : ℕ) (w : Which) → after n w ≤ at_most (n + 1) w
after_le n sizes = omega arith
after_le n latencies = omega arith
after_le n depths = omega arith

count_at-Stage :
    (e : ParsedEvent) (t : Target) (n : ℕ) (s : IoStatistics)
    → IsMeasured e
    → n + 1 < u64_mod
    → HasTarget t s
    → IsSound (at_most n) s
    → (s' : IoStatistics) × (count_at e t s ≡ counted s') × Stage (after n) (gains e) t s s'
count_at-Stage e t n s (small_latency, small_qd, small_len) room within sound =
    let n1 = bump latencies (at_most n) in
    let n2 = bump depths n1 in
    let (s0, run0, st0) = hit_lbas-Stage e.io (at_most n) t s within sound in
    let (s1, run1, st1) =
      add_both-Stage latencies e.io.latency (at_most n) t s0 small_latency room st0.1 st0.0 in
    let (s2, run2, st2) = add_both-Stage depths e.io.qd n1 t s1 small_qd room st1.1 st1.0 in
    let s3 = count_error e.io t s2 in
    let st3 = count_error-Stage e.io n2 t s2 st2.1 st2.0 in
    let (s4, run4, st4) = add_both-Stage sizes e.io.len n2 t s3 small_len room st3.1 st3.0 in
    let s5 = update_workset e.io t s4 in
    let st5 = update_workset-Stage e.io (after n) t s4 st4.1 st4.0 in
    let s6 = finish e.header.timestamp t s5 in
    let st6 = finish-Stage e.header.timestamp (after n) t s5 st5.1 st5.0 in
    let run : count_at e t s ≡ counted s6 = rw run0 (rw run1 (rw run2 (rw run4 refl))) in
    let to1 =
      Stage-trans (at_most n) n1 (plain 0 0) (gain latencies e.io.latency) t s s0 s1 st0 st1 in
    let to2 = Stage-trans n1 n2 _ (gain depths e.io.qd) t s s1 s2 to1 st2 in
    let to3 = Stage-trans n2 n2 _ (plain 0 (if e.io.error then 1 else 0)) t s s2 s3 to2 st3 in
    let to4 = Stage-trans n2 (after n) _ (gain sizes e.io.len) t s s3 s4 to3 st4 in
    let to5 = Stage-trans (after n) (after n) _ (plain 0 0) t s s4 s5 to4 st5 in
    (s6, run, Stage-trans (after n) (after n) _ (plain 1 0) t s s5 s6 to5 st6)

target-HasTarget :
    (io : Io) (n : Which → ℕ) (s : IoStatistics)
    → io.operation < io_types
    → IsSound n s
    → HasTarget (target_of io) s
target-HasTarget io n s known (a, b, c, d, _) = elim (Bool-cases (io.flags.flush && io.len == 0)) [
  | inl flushes ↦ rw flushes tt
  | inr other ↦ rw other (omega (arith, d, known))
]

-- A request that flushes and has no length.
abbrev pub is_flush : ParsedEvent → Bool
is_flush e = e.io.flags.flush && e.io.len == 0

-- What the type `i` and the flushes get of a request.
abbrev pub to_type : ParsedEvent → ℕ → Measure → ℕ
to_type e i m = if is_flush e then 0 else if i == e.io.operation then adds e m else 0

abbrev pub to_flush : ParsedEvent → Measure → ℕ
to_flush e m = if is_flush e then adds e m else 0

-- From `s` to `s'`, the total, each type and the flushes grow by what is theirs of the request.
abbrev pub IsCounted : ParsedEvent → Measure → IoStatistics → IoStatistics → Type 0
IsCounted e m s s' =
    (measure m s'.total % u64_mod ≡ (measure m s.total + adds e m) % u64_mod)
    × ((i : ℕ)
        → measure m (nth_stats i s'.statistics) % u64_mod
          ≡ (measure m (nth_stats i s.statistics) + to_type e i m) % u64_mod)
    × (measure m s'.flush % u64_mod ≡ (measure m s.flush + to_flush e m) % u64_mod)

PartsGrow-IsCounted :
    (e : ParsedEvent) (m : Measure) (s s' : IoStatistics)
    → measure m s'.total % u64_mod ≡ (measure m s.total + adds e m) % u64_mod
    → PartsGrow (adds e m) m (target_of e.io) s s'
    → IsCounted e m s s'
PartsGrow-IsCounted e m s s' total parts_grow = elim (Bool-cases (is_flush e)) [
  | inl flushes ↦
      let same : target_of e.io ≡ of_flush = rw flushes refl in
      let parts_grow = subst (λ (t : Target). PartsGrow (adds e m) m t s s') same parts_grow in
      rw flushes (total, (λ i. parts_grow (of_type i)), parts_grow of_flush)
  | inr other ↦
      let same : target_of e.io ≡ of_type e.io.operation = rw other refl in
      let parts_grow = subst (λ (t : Target). PartsGrow (adds e m) m t s s') same parts_grow in
      rw other (total, (λ i. parts_grow (of_type i)), parts_grow of_flush)
]

-- A request of a known type whose latency, queue depth and size are below 2 ^ 52, where the distributions
-- are well-formed and have counted at most `n` values, `n` being less than 2 ^ 64 - 1, and the LBA
-- histogram, if it is enabled, has ranges of some size: it is counted without an exception, and the
-- state stays so for `n + 1`. The total grows by one request, by an error if it failed, and by its
-- size, latency and queue depth.
-- These numbers of the flushes grow by the same if the request flushes and has no length, otherwise those
-- of its own type do; those of every other part stay.
pub count-Grows :
    (e : ParsedEvent) (n : ℕ) (s : IoStatistics)
    → e.io.operation < io_types
    → IsMeasured e
    → n + 1 < u64_mod
    → IsSound (at_most n) s
    → (s' : IoStatistics) × (count e s ≡ counted s')
      × IsSound (at_most (n + 1)) s'
      × ((m : Measure) → Grows (adds e m) m s s' × IsCounted e m s s')
unfolding count
count-Grows e n s known measured room sound =
    let (s', run, (sound', _, grows)) =
      count_at-Stage e (target_of e.io) n s measured room
        (target-HasTarget e.io (at_most n) s known sound) sound in
    let allowed : ltb io_types e.io.operation ≡ false = ground arith in
    let inside : e.io.operation == io_types ≡ false = ground arith in
    (
      s',
      rw allowed (rw inside run),
      IsSound-weaken (after n) (at_most (n + 1)) s' (after_le n) sound',
      (λ m.
          let moves : Moves (adds e m) m (target_of e.io) s s' =
            subst (λ (k : ℕ). Moves k m (target_of e.io) s s') (gains_add e m) (grows m) in
          (moves.0, PartsGrow-IsCounted e m s s' moves.0.0 moves.1)),
    )

-- The requests of a device, one after the other.
unfoldable pub count_all : List ParsedEvent → IoStatistics → Outcome
count_all [] s = counted s
count_all (e ∷ es) s = and_then (count e s) (count_all es)

abbrev pub sum_adds : List ParsedEvent → Measure → ℕ
sum_adds [] m = 0
sum_adds (e ∷ es) m = adds e m + sum_adds es m

abbrev pub AreMeasured : List ParsedEvent → Type 0
AreMeasured [] = Unit {0}
AreMeasured (e ∷ es) = ((e.io.operation < io_types) × IsMeasured e) × AreMeasured es

count_all-Grows :
    (es : List ParsedEvent) (n : ℕ) (s : IoStatistics)
    → AreMeasured es
    → n + length es < u64_mod
    → IsSound (at_most n) s
    → (s' : IoStatistics) × (count_all es s ≡ counted s')
      × ((m : Measure) → Grows (sum_adds es m) m s s')
unfolding count_all
count_all-Grows [] n s measured room sound = (s, refl, λ m. Grows-nothing m s)
count_all-Grows (e ∷ es) n s measured room sound =
    let (s1, run, sound1, grows) =
      count-Grows e n s measured.0.0 measured.0.1 (omega arith) sound in
    let (s2, run2, grows2) = count_all-Grows es (n + 1) s1 measured.1 (omega arith) sound1 in
    (s2, rw run run2, λ m. Grows-trans (adds e m) (sum_adds es m) m s s1 s2 (grows m).0 (grows2 m))

distribution-IsDistribution :
    (ranges : ℕ) → 1 ≤ ranges → ranges < exact → IsDistribution (distribution ranges)
distribution-IsDistribution ranges some_range fit = record {
  base_ok = omega arith;
  ranges_ok = some_range;
  ranges_fit = fit;
  shaped = tt;
  all_counted = refl;
}

pub new-IsSound : (size : ℕ) → IsSound (at_most 0) (new_statistics size)
unfolding new_statistics new_stats
new-IsSound size = ((valid, (valid, (valid, (valid, tt)))), valid, valid, refl, refl)
  where
    valid : IsValid (at_most 0) new_stats
    valid sizes = (distribution-IsDistribution 256 (omega arith) (omega arith), refl, omega arith)
    valid latencies = (distribution-IsDistribution 1 (omega arith) (omega arith), refl, omega arith)
    valid depths = (distribution-IsDistribution 128 (omega arith) (omega arith), refl, omega arith)

measure_new : (m : Measure) → measure m new_stats ≡ 0
unfolding new_stats
measure_new requests = refl
measure_new error_count = refl
measure_new (sum_of sizes) = refl
measure_new (sum_of latencies) = refl
measure_new (sum_of depths) = refl

parts_new : (size : ℕ) (m : Measure) → parts m (new_statistics size) ≡ 0
unfolding new_statistics
parts_new size m = omega (arith, measure_new m)

from_zero : (a b n : ℕ) → b ≡ 0 → a % u64_mod ≡ (b + n) % u64_mod → a % u64_mod ≡ n % u64_mod
from_zero a b n zero_at h = omega (arith, zero_at, h)

-- Fewer than 2 ^ 64 requests of known types whose latencies, queue depths and sizes are below 2 ^ 52,
-- counted one after the other by new statistics: no exception is thrown; and of the number of requests
-- and errors, and of the sums of the sizes, latencies and queue depths, what the total has and what the
-- types and the flushes have together are both the sum over the requests, as a 64-bit word has it.
pub count_all-new_statistics :
    (es : List ParsedEvent) (size : ℕ)
    → AreMeasured es
    → length es < u64_mod
    → (s : IoStatistics) × (count_all es (new_statistics size) ≡ counted s)
      × ((m : Measure)
          → (measure m s.total % u64_mod ≡ sum_adds es m % u64_mod)
            × (parts m s % u64_mod ≡ sum_adds es m % u64_mod))
unfolding new_statistics new_stats
count_all-new_statistics es size measured room =
    let (s, run, grows) =
      count_all-Grows es 0 (new_statistics size) measured (omega (arith, room))
        (new-IsSound size) in
    (
      s,
      run,
      λ m. (
        from_zero _ _ (sum_adds es m) (measure_new m) (grows m).0,
        from_zero _ _ (sum_adds es m) (parts_new size m) (grows m).1,
      ),
    )
