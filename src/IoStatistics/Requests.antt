-- ===== src/IoStatistics/Requests.antt =====
-- A request that IoStatistics::count of source/octf/analytics/statistics/IoStatistics.cpp counts.
use open_cas_telemetry_frame.Prelude.{
  ℕ, zero, suc, ◌+◌, ◌*◌, ◌%◌, ◌<◌, ◌≡◌, refl, ap₂, ◌∙◌, inl, inr, Option, none, some, List, [],
  ◌∷◌, arith, ◌==◌, if◌then◌else◌, Bool-cases, length, u64_mod,
}
use open_cas_telemetry_frame.Distribution.Level.{exact}
use open_cas_telemetry_frame.ParsedIo.Event.{Io, ParsedEvent}
use open_cas_telemetry_frame.IoStatistics.{
  Stats, IoStatistics, nth_stats, target_stats, io_discard, Target, of_type, of_flush, Which, sizes,
  latencies, depths, discard_all, index_of, removed, inserted, update_workset, target_stats,
}
use open_cas_telemetry_frame.IoStatistics.Conserved.{
  Measure, requests, error_count, sum_of, measure, sum_types, share_zero, Moves, Moves-trans,
  HasTarget, share,
}
use open_cas_telemetry_frame.IoStatistics.Counted.{IsSound}
use open_cas_telemetry_frame.IoStatistics.Adding.{Stage}
use open_cas_telemetry_frame.IoStatistics.Stages.{
  plain, IsPlain, IsPlain-IsValid, nothing-Stage, both-Stage, discard_all-AreValid,
  length-discard_all,
}

removed-measure : (io : Io) (m : Measure) (x : Stats) → measure m (removed io x) ≡ measure m x
removed-measure io requests x = refl
removed-measure io error_count x = refl
removed-measure io (sum_of sizes) x = refl
removed-measure io (sum_of latencies) x = refl
removed-measure io (sum_of depths) x = refl

inserted-measure : (io : Io) (m : Measure) (x : Stats) → measure m (inserted io x) ≡ measure m x
inserted-measure io requests x = refl
inserted-measure io error_count x = refl
inserted-measure io (sum_of sizes) x = refl
inserted-measure io (sum_of latencies) x = refl
inserted-measure io (sum_of depths) x = refl

discard_all-sum :
    (io : Io) (i : Option ℕ) (m : Measure) (xs : List Stats)
    → sum_types m (discard_all io i xs) ≡ sum_types m xs
discard_all-sum io i m [] = refl
discard_all-sum io none m (x ∷ xs) =
    ap₂ (λ (a b : ℕ). a + b) (removed-measure io m x) (discard_all-sum io none m xs)
discard_all-sum io (some zero) m (x ∷ xs) =
    ap₂ (λ (a b : ℕ). a + b) (inserted-measure io m x) (discard_all-sum io none m xs)
discard_all-sum io (some (suc i)) m (x ∷ xs) =
    ap₂ (λ (a b : ℕ). a + b) (removed-measure io m x) (discard_all-sum io (some i) m xs)

discard_all-nth :
    (io : Io) (i : Option ℕ) (m : Measure) (j : ℕ) (xs : List Stats)
    → measure m (nth_stats j (discard_all io i xs)) ≡ measure m (nth_stats j xs)
discard_all-nth io i m j [] = refl
discard_all-nth io none m zero (x ∷ xs) = removed-measure io m x
discard_all-nth io none m (suc j) (x ∷ xs) = discard_all-nth io none m j xs
discard_all-nth io (some zero) m zero (x ∷ xs) = inserted-measure io m x
discard_all-nth io (some zero) m (suc j) (x ∷ xs) = discard_all-nth io none m j xs
discard_all-nth io (some (suc i)) m zero (x ∷ xs) = removed-measure io m x
discard_all-nth io (some (suc i)) m (suc j) (x ∷ xs) = discard_all-nth io (some i) m j xs

discard-part :
    (io : Io) (t : Target) (u : Target) (m : Measure) (s : IoStatistics)
    → measure m (
          target_stats u (record s {
            statistics = discard_all io (index_of t) s.statistics;
            total = removed io s.total;
          }))
        % u64_mod
      ≡ (measure m (target_stats u s) + share t u 0) % u64_mod
discard-part io t (of_type j) m s =
    omega (arith, discard_all-nth io (index_of t) m j s.statistics, share_zero t (of_type j))
discard-part io t of_flush m s = omega (arith, share_zero t of_flush)

discard-HasTarget :
    (io : Io) (t : Target) (s : IoStatistics) (xs : List Stats) (x : Stats)
    → length xs ≡ length s.statistics
    → HasTarget t s
    → HasTarget t (record s { statistics = xs; total = x })
discard-HasTarget io (of_type i) s xs x h within = omega (arith, h, within)
discard-HasTarget io of_flush s xs x h within = tt

discard-Stage :
    (io : Io) (n : Which → ℕ) (t : Target) (s : IoStatistics)
    → HasTarget t s
    → IsSound n s
    → Stage n (plain 0 0) t s (record s {
      statistics = discard_all io (index_of t) s.statistics;
      total = removed io s.total;
    })
discard-Stage io n t s within (a, b, c, d, hits) =
    let i = index_of t in
    let len : length (discard_all io i s.statistics) ≡ length s.statistics =
      length-discard_all io i s.statistics in
    let plain_total : IsPlain 0 0 s.total (removed io s.total) =
      (refl, refl, refl, omega arith, omega arith) in
    (
      (
        discard_all-AreValid io i n s.statistics a,
        IsPlain-IsValid 0 0 n s.total (removed io s.total) plain_total b,
        c,
        len ∙ d,
        hits,
      ),
      discard-HasTarget io t s (discard_all io i s.statistics) (removed io s.total) len within,
      (λ m. discard_grows m),
    )
  where
    same_parts :
        (m : Measure)
        → sum_types m (discard_all io (index_of t) s.statistics) ≡ sum_types m s.statistics
    same_parts m = discard_all-sum io (index_of t) m s.statistics

    still :
        (m : Measure)
        → Moves 0 m t s (record s {
          statistics = discard_all io (index_of t) s.statistics;
          total = removed io s.total;
        })
    still m = (
      (omega (arith, removed-measure io m s.total), omega (arith, same_parts m)),
      (λ u. discard-part io t u m s),
    )

    discard_grows :
        (m : Measure)
        → Moves (plain 0 0 m) m t s (record s {
          statistics = discard_all io (index_of t) s.statistics;
          total = removed io s.total;
        })
    discard_grows requests = still requests
    discard_grows error_count = still error_count
    discard_grows (sum_of w) = still (sum_of w)

pub update_workset-Stage :
    (io : Io) (n : Which → ℕ) (t : Target) (s : IoStatistics)
    → HasTarget t s
    → IsSound n s
    → Stage n (plain 0 0) t s (update_workset io t s)
unfolding update_workset
update_workset-Stage io n t s within sound = elim (Bool-cases (io.len == 0)) [
  | inl nothing ↦ rw nothing (nothing-Stage n t s within sound)
  | inr some_len ↦ rw some_len (elim (Bool-cases (io.operation == io_discard)) [
    | inl discard ↦ rw discard (discard-Stage io n t s within sound)
    | inr other ↦ rw other (
        both-Stage (inserted io) 0 0 n t s (λ x. (refl, refl, refl, omega arith, omega arith))
          within sound)
  ])
]

pub Stage-trans :
    (n n' : Which → ℕ) (k k' : Measure → ℕ) (t : Target) (s s' s'' : IoStatistics)
    → Stage n k t s s'
    → Stage n' k' t s' s''
    → Stage n' (λ m. k m + k' m) t s s''
Stage-trans n n' k k' t s s' s'' (_, _, g) (sound, within, g') =
    (sound, within, λ m. Moves-trans (k m) (k' m) m t s s' s'' (g m) (g' m))

-- What a request adds to each number.
abbrev pub adds : ParsedEvent → Measure → ℕ
adds e requests = 1
adds e error_count = if e.io.error then 1 else 0
adds e (sum_of sizes) = e.io.len
adds e (sum_of latencies) = e.io.latency
adds e (sum_of depths) = e.io.qd

-- The values of a request that the distributions take.
abbrev pub IsMeasured : ParsedEvent → Type 0
IsMeasured e = (e.io.latency * 2 < exact) × (e.io.qd * 2 < exact) × (e.io.len * 2 < exact)

abbrev pub at_most : ℕ → Which → ℕ
at_most n w = n
