-- ===== src/IoStatistics/Adding.antt =====
-- A value that source/octf/analytics/statistics/IoStatistics.cpp adds to a distribution of the total and to
-- that of the type of the request.
use open_cas_telemetry_frame.Prelude.{
  ℕ, zero, suc, ◌+◌, ◌*◌, ◌%◌, ◌≤◌, ◌<◌, ◌≡◌, refl, sym, ap, ◌∙◌, subst, inl, inr, false, List, [],
  ◌∷◌, arith, ◌==◌, Bool-cases, length, u64_mod, add64,
}
use open_cas_telemetry_frame.Distribution.{Distribution, Added, added, thrown, endless}
use open_cas_telemetry_frame.Distribution as Distribution
use open_cas_telemetry_frame.Distribution.Level.{exact}
use open_cas_telemetry_frame.IoStatistics.{
  Stats, IoStatistics, Target, of_type, of_flush, modify, nth_stats, target_stats, Which, sizes,
  latencies, depths, get_which, put_which, counted, after_target, add_both,
}
use open_cas_telemetry_frame.IoStatistics.Conserved.{
  Measure, requests, error_count, sum_of, measure, Moves, Moves-nothing, HasTarget, same_target,
  changed, changed-Moves,
}
use open_cas_telemetry_frame.IoStatistics.Counted.{
  IsValid, AreValid, IsSound, bump, bump_le, weaken, add-AddsWhich,
}

-- By how much the numbers grow.
abbrev pub gain : Which → ℕ → Measure → ℕ
gain w value requests = 0
gain w value error_count = 0
gain sizes value (sum_of sizes) = value
gain sizes value (sum_of latencies) = 0
gain sizes value (sum_of depths) = 0
gain latencies value (sum_of sizes) = 0
gain latencies value (sum_of latencies) = value
gain latencies value (sum_of depths) = 0
gain depths value (sum_of sizes) = 0
gain depths value (sum_of latencies) = 0
gain depths value (sum_of depths) = value

gain_zero : (w : Which) (m : Measure) → gain w 0 m ≡ 0
gain_zero w requests = refl
gain_zero w error_count = refl
gain_zero sizes (sum_of sizes) = refl
gain_zero sizes (sum_of latencies) = refl
gain_zero sizes (sum_of depths) = refl
gain_zero latencies (sum_of sizes) = refl
gain_zero latencies (sum_of latencies) = refl
gain_zero latencies (sum_of depths) = refl
gain_zero depths (sum_of sizes) = refl
gain_zero depths (sum_of latencies) = refl
gain_zero depths (sum_of depths) = refl

measure-put_which :
    (w : Which) (value : ℕ) (m : Measure) (d : Distribution) (x : Stats)
    → d.total ≡ add64 (get_which w x).total value
    → measure m (put_which w d x) % u64_mod ≡ (measure m x + gain w value m) % u64_mod
measure-put_which sizes value requests d x h = omega (arith, h)
measure-put_which sizes value error_count d x h = omega (arith, h)
measure-put_which sizes value (sum_of sizes) d x h = omega (arith, h)
measure-put_which sizes value (sum_of latencies) d x h = omega (arith, h)
measure-put_which sizes value (sum_of depths) d x h = omega (arith, h)
measure-put_which latencies value requests d x h = omega (arith, h)
measure-put_which latencies value error_count d x h = omega (arith, h)
measure-put_which latencies value (sum_of sizes) d x h = omega (arith, h)
measure-put_which latencies value (sum_of latencies) d x h = omega (arith, h)
measure-put_which latencies value (sum_of depths) d x h = omega (arith, h)
measure-put_which depths value requests d x h = omega (arith, h)
measure-put_which depths value error_count d x h = omega (arith, h)
measure-put_which depths value (sum_of sizes) d x h = omega (arith, h)
measure-put_which depths value (sum_of latencies) d x h = omega (arith, h)
measure-put_which depths value (sum_of depths) d x h = omega (arith, h)

-- The state after a step for the target `t`, with the growth of each number.
abbrev pub Stage : (Which → ℕ) → (Measure → ℕ) → Target → IoStatistics → IoStatistics → Type 0
Stage n k t s s' = IsSound n s' × HasTarget t s' × ((m : Measure) → Moves (k m) m t s s')

AreValid-weaken :
    (n n' : Which → ℕ) (xs : List Stats)
    → ((w : Which) → n w ≤ n' w)
    → AreValid n xs
    → AreValid n' xs
AreValid-weaken n n' [] le h = tt
AreValid-weaken n n' (x ∷ xs) le h = (weaken n n' x le h.0, AreValid-weaken n n' xs le h.1)

pub IsSound-weaken :
    (n n' : Which → ℕ) (s : IoStatistics) → ((w : Which) → n w ≤ n' w) → IsSound n s → IsSound n' s
IsSound-weaken n n' s le (a, b, c, d, hits) = (
  AreValid-weaken n n' s.statistics le a,
  weaken n n' s.total le b,
  weaken n n' s.flush le c,
  d,
  hits,
)

nth-IsValid :
    (n : Which → ℕ) (i : ℕ) (xs : List Stats)
    → i < length xs
    → AreValid n xs
    → IsValid n (nth_stats i xs)
nth-IsValid n i [] within h = ground arith
nth-IsValid n zero (x ∷ xs) within h = h.0
nth-IsValid n (suc i) (x ∷ xs) within h = nth-IsValid n i xs (omega arith) h.1

pub target-IsValid :
    (n : Which → ℕ) (t : Target) (s : IoStatistics)
    → HasTarget t s
    → IsSound n s
    → IsValid n (target_stats t s)
target-IsValid n (of_type i) s within (a, b, c, d, _) = nth-IsValid n i s.statistics within a
target-IsValid n of_flush s within (a, b, c, d, _) = c

modify-AreValid :
    (n n' : Which → ℕ) (f : Stats → Stats) (i : ℕ) (xs : List Stats)
    → ((w : Which) → n w ≤ n' w)
    → IsValid n' (f (nth_stats i xs))
    → AreValid n xs
    → AreValid n' (modify f i xs)
modify-AreValid n n' f i [] le v h = tt
modify-AreValid n n' f zero (x ∷ xs) le v h = (v, AreValid-weaken n n' xs le h.1)
modify-AreValid n n' f (suc i) (x ∷ xs) le v h =
    (weaken n n' x le h.0, modify-AreValid n n' f i xs le v h.1)

length-modify : (f : Stats → Stats) (i : ℕ) (xs : List Stats) → length (modify f i xs) ≡ length xs
length-modify f i [] = refl
length-modify f zero (x ∷ xs) = refl
length-modify f (suc i) (x ∷ xs) = ap suc (length-modify f i xs)

pub changed-IsSound :
    (n n' : Which → ℕ) (f g : Stats → Stats) (t : Target) (s : IoStatistics)
    → ((w : Which) → n w ≤ n' w)
    → IsValid n' (f s.total)
    → IsValid n' (g (target_stats t s))
    → IsSound n s
    → IsSound n' (changed f g t s)
changed-IsSound n n' f g (of_type i) s le v v' (a, b, c, d, hits) = (
  modify-AreValid n n' g i s.statistics le v' a,
  v,
  weaken n n' s.flush le c,
  length-modify g i s.statistics ∙ d,
  hits,
)
changed-IsSound n n' f g of_flush s le v v' (a, b, c, d, hits) =
    (AreValid-weaken n n' s.statistics le a, v, v', d, hits)

pub changed-HasTarget :
    (f g : Stats → Stats) (t : Target) (s : IoStatistics)
    → HasTarget t s
    → HasTarget t (changed f g t s)
changed-HasTarget f g (of_type i) s h = rw (length-modify g i s.statistics) h
changed-HasTarget f g of_flush s h = h

add_both-run :
    (w : Which) (value : ℕ) (t : Target) (s : IoStatistics) (d d' : Distribution)
    → value == 0 ≡ false
    → Distribution.add (get_which w s.total) value ≡ added d
    → Distribution.add (get_which w (target_stats t s)) value ≡ added d'
    → add_both w value t s ≡ counted (changed (put_which w d) (put_which w d') t s)
unfolding add_both
add_both-run w value t s d d' some_value run run' = rw some_value (
    rw run (
      ap (after_target w t (record s { total = put_which w d s.total })) (
        ap (λ (x : Stats). Distribution.add (get_which w x) value)
          (same_target t s (put_which w d s.total))
        ∙ run')))

pub add_both-Stage :
    (w : Which) (value : ℕ) (n : Which → ℕ) (t : Target) (s : IoStatistics)
    → value * 2 < exact
    → n w + 1 < u64_mod
    → HasTarget t s
    → IsSound n s
    → (s' : IoStatistics) × (add_both w value t s ≡ counted s')
      × Stage (bump w n) (gain w value) t s s'
unfolding add_both
add_both-Stage w value n t s small room within sound = elim (Bool-cases (value == 0)) [
  | inl nothing ↦
      let zero_value : value ≡ 0 = ground arith in
      (
        s,
        rw nothing refl,
        (
          IsSound-weaken n (bump w n) s (λ v. bump_le w v n) sound,
          within,
          (λ m.
              subst (λ (k : ℕ). Moves k m t s s)
                (sym (gain_zero w m) ∙ ap (λ (v : ℕ). gain w v m) (sym zero_value))
                (Moves-nothing m t s)),
        ),
      )
  | inr some_value ↦
      let (d, (run, total, v)) = add-AddsWhich w value n s.total small room sound.1 in
      let (d', (run', total', v')) =
        add-AddsWhich w value n (target_stats t s) small room (target-IsValid n t s within sound) in
      (
        changed (put_which w d) (put_which w d') t s,
        add_both-run w value t s d d' some_value run run',
        (
          changed-IsSound n (bump w n) (put_which w d) (put_which w d') t s (λ x. bump_le w x n) v
              v' sound,
          changed-HasTarget (put_which w d) (put_which w d') t s within,
          (λ m.
              changed-Moves m (put_which w d) (put_which w d') (gain w value m) t s within
                (measure-put_which w value m d s.total total)
                (measure-put_which w value m d' (target_stats t s) total')),
        ),
      )
]
