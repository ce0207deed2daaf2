-- ===== src/IoStatistics/Stages.antt =====
-- The steps of IoStatistics::count of source/octf/analytics/statistics/IoStatistics.cpp that leave the
-- distributions, and the whole of it.
use open_cas_telemetry_frame.Prelude.{
  ℕ, zero, suc, ◌+◌, ◌/◌, ◌%◌, ◌≤◌, ◌≡◌, refl, sym, ap, ◌∙◌, subst, inl, inr, Bool, true, false,
  ◌&&◌, not, Option, none, some, List, [], ◌∷◌, arith, ◌==◌, if◌then◌else◌, Bool-cases, length,
  u64_mod, add64, sub64, mul64,
}
use open_cas_telemetry_frame.Distribution.{Distribution}
use open_cas_telemetry_frame.Distribution.Counting.{IsDistribution}
use open_cas_telemetry_frame.ParsedIo.Event.{Io}
use open_cas_telemetry_frame.IoStatistics.{
  Stats, IoStatistics, Target, of_type, of_flush, target_stats, both, Which, sizes, latencies,
  depths, get_which, hit_lbas, count_error, discard_all, removed, inserted, finish, counted,
  hit_ranges,
}
use open_cas_telemetry_frame.IoStatistics.Conserved.{
  Measure, requests, error_count, sum_of, measure, Moves, Moves-nothing, HasTarget, changed-Moves,
}
use open_cas_telemetry_frame.IoStatistics.Counted.{IsValid, AreValid, IsSound}
use open_cas_telemetry_frame.IoStatistics.Adding.{
  Stage, target-IsValid, changed-IsSound, changed-HasTarget,
}

-- The growth of a step that leaves the distributions.
abbrev pub plain : ℕ → ℕ → Measure → ℕ
plain more_requests more_errors requests = more_requests
plain more_requests more_errors error_count = more_errors
plain more_requests more_errors (sum_of w) = 0

abbrev pub IsPlain : ℕ → ℕ → Stats → Stats → Type 0
IsPlain more_requests more_errors x y =
    (y.size_distribution ≡ x.size_distribution)
    × (y.latency_distribution ≡ x.latency_distribution)
    × (y.qd_distribution ≡ x.qd_distribution)
    × (y.count % u64_mod ≡ (x.count + more_requests) % u64_mod)
    × (y.errors % u64_mod ≡ (x.errors + more_errors) % u64_mod)

IsPlain-which :
    (k l : ℕ) (x y : Stats) → IsPlain k l x y → (w : Which) → get_which w y ≡ get_which w x
IsPlain-which k l x y (a, b, c, d, e) sizes = a
IsPlain-which k l x y (a, b, c, d, e) latencies = b
IsPlain-which k l x y (a, b, c, d, e) depths = c

pub IsPlain-measure :
    (k l : ℕ) (x y : Stats)
    → IsPlain k l x y
    → (m : Measure) → measure m y % u64_mod ≡ (measure m x + plain k l m) % u64_mod
IsPlain-measure k l x y (a, b, c, d, e) requests = d
IsPlain-measure k l x y (a, b, c, d, e) error_count = e
IsPlain-measure k l x y h (sum_of w) =
    let same : (get_which w y).total ≡ (get_which w x).total =
      ap (λ (d : Distribution). d.total) (IsPlain-which k l x y h w) in
    omega (arith, same)

pub IsPlain-IsValid :
    (k l : ℕ) (n : Which → ℕ) (x y : Stats) → IsPlain k l x y → IsValid n x → IsValid n y
IsPlain-IsValid k l n x y h v w =
    subst (λ (d : Distribution). IsDistribution d × (d.base ≡ 2) × (d.count ≤ n w))
      (sym (IsPlain-which k l x y h w)) (v w)

pub nothing-Stage :
    (n : Which → ℕ) (t : Target) (s : IoStatistics)
    → HasTarget t s
    → IsSound n s
    → Stage n (plain 0 0) t s s
nothing-Stage n t s within sound = (sound, within, nothing_grows)
  where
    nothing_grows : (m : Measure) → Moves (plain 0 0 m) m t s s
    nothing_grows requests = Moves-nothing requests t s
    nothing_grows error_count = Moves-nothing error_count t s
    nothing_grows (sum_of w) = Moves-nothing (sum_of w) t s

-- A change of the target and the total that leaves the distributions.
pub both-Stage :
    (f : Stats → Stats) (k l : ℕ) (n : Which → ℕ) (t : Target) (s : IoStatistics)
    → ((x : Stats) → IsPlain k l x (f x))
    → HasTarget t s
    → IsSound n s
    → Stage n (plain k l) t s (both f t s)
both-Stage f k l n t s h within sound =
    let x = target_stats t s in
    (
      changed-IsSound n n f f t s (λ w. omega arith)
          (IsPlain-IsValid k l n s.total (f s.total) (h s.total) sound.1)
          (IsPlain-IsValid k l n x (f x) (h x) (target-IsValid n t s within sound)) sound,
      changed-HasTarget f f t s within,
      (λ m.
          changed-Moves m f f (plain k l m) t s within
            (IsPlain-measure k l s.total (f s.total) (h s.total) m)
            (IsPlain-measure k l x (f x) (h x) m)),
    )

divides :
    (on nothing zero_size : Bool)
    → (on && not nothing) ≡ true
    → (on && zero_size) ≡ false
    → zero_size ≡ false
divides true false z h g = g
divides true true z h g = ground arith
divides false nothing z h g = ground arith

pub hit_lbas-Stage :
    (io : Io) (n : Which → ℕ) (t : Target) (s : IoStatistics)
    → HasTarget t s
    → IsSound n s
    → (s' : IoStatistics) × (hit_lbas io t s ≡ counted s') × Stage n (plain 0 0) t s s'
unfolding hit_lbas
hit_lbas-Stage io n t s within sound = elim (Bool-cases (s.lba_hist_enabled && not (io.len == 0))) [
  | inl on ↦
      let size = s.lba_hist_range_size in
      let begin = mul64 (io.lba / size) size in
      let end = mul64 (sub64 (add64 io.lba io.len) 1 / size) size in
      let span = add64 (sub64 end begin / size) 1 in
      let some_size : size == 0 ≡ false =
        divides s.lba_hist_enabled (io.len == 0) (size == 0) on sound.4 in
      (
        both (λ x. record x { lba_hit_map = hit_ranges span 0 begin size x.lba_hit_map }) t s,
        rw on (rw some_size refl),
        both-Stage _ 0 0 n t s (λ x. (refl, refl, refl, omega arith, omega arith)) within sound,
      )
  | inr off ↦ (s, rw off refl, nothing-Stage n t s within sound)
]

pub count_error-Stage :
    (io : Io) (n : Which → ℕ) (t : Target) (s : IoStatistics)
    → HasTarget t s
    → IsSound n s
    → Stage n (plain 0 (if io.error then 1 else 0)) t s (count_error io t s)
count_error-Stage io n t s within sound = elim (Bool-cases io.error) [
  | inl bad ↦ rw bad (
      both-Stage (λ x. record x { errors = add64 x.errors 1 }) 0 1 n t s
        (λ x. (refl, refl, refl, omega arith, omega arith)) within sound)
  | inr good ↦ rw good (nothing-Stage n t s within sound)
]

-- The times are in none of the parts.
abbrev timed : ℕ → ℕ → IoStatistics → IoStatistics
timed from to s = record s { start_time = from; end_time = to }

timed-target :
    (from to : ℕ) (s : IoStatistics) (u : Target)
    → target_stats u (timed from to s) ≡ target_stats u s
timed-target from to s (of_type i) = refl
timed-target from to s of_flush = refl

timed-HasTarget :
    (from to : ℕ) (t : Target) (s : IoStatistics) → HasTarget t s → HasTarget t (timed from to s)
timed-HasTarget from to (of_type i) s h = h
timed-HasTarget from to of_flush s h = h

timed-Stage :
    (from to : ℕ) (n : Which → ℕ) (k : Measure → ℕ) (t : Target) (s s' : IoStatistics)
    → Stage n k t s s'
    → Stage n k t s (timed from to s')
timed-Stage from to n k t s s' (sound, within, moves) = (
  sound,
  timed-HasTarget from to t s' within,
  λ m. (
    (moves m).0,
    λ u. ap (λ (x : Stats). measure m x % u64_mod) (timed-target from to s' u) ∙ (moves m).1 u,
  ),
)

pub finish-Stage :
    (time : ℕ) (n : Which → ℕ) (t : Target) (s : IoStatistics)
    → HasTarget t s
    → IsSound n s
    → Stage n (plain 1 0) t s (finish time t s)
unfolding finish
finish-Stage time n t s within sound =
    timed-Stage (if s.start_time == 0 then time else s.start_time) time n (plain 1 0) t s
      (both (λ x. record x { count = add64 x.count 1 }) t s)
      (both-Stage (λ x. record x { count = add64 x.count 1 }) 1 0 n t s
        (λ x. (refl, refl, refl, omega arith, omega arith)) within sound)

-- The working sets of a discard.
pub discard_all-AreValid :
    (io : Io) (i : Option ℕ) (n : Which → ℕ) (xs : List Stats)
    → AreValid n xs
    → AreValid n (discard_all io i xs)
discard_all-AreValid io i n [] h = tt
discard_all-AreValid io none n (x ∷ xs) h = (
  IsPlain-IsValid 0 0 n x (removed io x) (refl, refl, refl, omega arith, omega arith) h.0,
  discard_all-AreValid io none n xs h.1,
)
discard_all-AreValid io (some zero) n (x ∷ xs) h = (
  IsPlain-IsValid 0 0 n x (inserted io x) (refl, refl, refl, omega arith, omega arith) h.0,
  discard_all-AreValid io none n xs h.1,
)
discard_all-AreValid io (some (suc i)) n (x ∷ xs) h = (
  IsPlain-IsValid 0 0 n x (removed io x) (refl, refl, refl, omega arith, omega arith) h.0,
  discard_all-AreValid io (some i) n xs h.1,
)

pub length-discard_all :
    (io : Io) (i : Option ℕ) (xs : List Stats) → length (discard_all io i xs) ≡ length xs
length-discard_all io i [] = refl
length-discard_all io none (x ∷ xs) = ap suc (length-discard_all io none xs)
length-discard_all io (some zero) (x ∷ xs) = ap suc (length-discard_all io none xs)
length-discard_all io (some (suc i)) (x ∷ xs) = ap suc (length-discard_all io (some i) xs)
