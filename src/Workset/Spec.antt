-- ===== src/Workset/Spec.antt =====
-- What WorksetCalculator promises (WorksetCalculator.h): the largest number of distinct sectors that
-- were in the working set at one time, against the calculator.
use open_cas_telemetry_frame.Prelude.{
  ℕ, zero, suc, ◌+◌, ◌≤◌, ◌<◌, max, ◌≡◌, refl, sym, ap, ◌∙◌, Bool, false, ◌&&◌, ◌||◌, not, List, [],
  ◌∷◌, arith, u64_mod,
}
use open_cas_telemetry_frame.Prelude.{fun_ext}
use open_cas_telemetry_frame.Workset.Total.{get_workset-remove_range, remove_found-IsCurrent}
use open_cas_telemetry_frame.Workset.Gap.{covered_of_survives}
use open_cas_telemetry_frame.Workset.Insert.{insert_range-zero}
use open_cas_telemetry_frame.Workset.{
  Range, Calculator, set_find, get_workset, remove_range, insert_range, empty,
}
use open_cas_telemetry_frame.Workset.Ordered.{covered}
use open_cas_telemetry_frame.Workset.Insert.{IsValid, requested, covered-insert_range}
use open_cas_telemetry_frame.Workset.Gap.{
  swallows_any, covered-remove_range_exact, covered-remove_range, remove_range_lem,
}
use open_cas_telemetry_frame.Workset.Total.{
  total, count, count_mono, total-count_valid, IsCurrent, get_workset-total,
}

-- The set of sectors, and the peak of its size.
pub record Workset : Type 0 where
  pub sectors : ℕ → Bool
  pub peak : ℕ

pub nothing : Workset
nothing = record { sectors = λ s. false; peak = 0 }

pub add_sectors : ℕ → ℕ → Workset → Workset
add_sectors begin len w =
    let sectors = λ (s : ℕ). requested begin len s || w.sectors s in
    record { sectors = sectors; peak = max w.peak (count u64_mod sectors) }

pub drop_sectors : ℕ → ℕ → Workset → Workset
drop_sectors begin len w = record w { sectors = λ s. w.sectors s && not (requested begin len s) }

pub data Op : Type 0 where
  insert remove : ℕ → ℕ → Op

pub spec : Workset → List Op → Workset
unfolding add_sectors drop_sectors
spec w [] = w
spec w (insert begin len ∷ ops) = spec (add_sectors begin len w) ops
spec w (remove begin len ∷ ops) = spec (drop_sectors begin len w) ops

unfoldable pub run : Calculator → List Op → Calculator
run c [] = c
run c (insert begin len ∷ ops) = run (insert_range begin len c) ops
run c (remove begin len ∷ ops) = run (remove_range begin len c).0 ops

-- No range wraps, and no removal is empty or covers a stored range without being equal to it.
abbrev pub IsAdmissible : Calculator → List Op → Type 0
IsAdmissible c [] = Unit {0}
IsAdmissible c (insert begin len ∷ ops) =
    (begin + len < u64_mod) × IsAdmissible (insert_range begin len c) ops
IsAdmissible c (remove begin len ∷ ops) =
    (begin + len < u64_mod)
    × (0 < len)
    × (swallows_any (record { begin = begin; end = begin + len }) c.hit_ranges ≡ false)
    × IsAdmissible (remove_range begin len c).0 ops

pub record Refines (c : Calculator) (w : Workset) : Type 0 where
  pub valid : IsValid c
  pub current : IsCurrent c
  pub same : (s : ℕ) → covered s c.hit_ranges ≡ w.sectors s
  pub workset : get_workset c ≡ w.peak

count_same : (n : ℕ) (p q : ℕ → Bool) → ((s : ℕ) → p s ≡ q s) → count n p ≡ count n q
count_same n p q h = ap (count n) (fun_ext h)

max_workset-insert_range :
    (begin len : ℕ) (c : Calculator) → (insert_range begin len c).max_workset ≡ c.max_workset
unfolding insert_range
max_workset-insert_range begin len c = ground arith

is_max_fresh-insert_range :
    (begin len : ℕ) (c : Calculator) → (insert_range begin (suc len) c).is_max_fresh ≡ false
unfolding insert_range
is_max_fresh-insert_range begin len c = ground arith

insert_range-IsCurrent :
    (begin len : ℕ) (c : Calculator) → IsCurrent c → IsCurrent (insert_range begin len c)
insert_range-IsCurrent begin zero c k = rw insert_range-zero k
insert_range-IsCurrent begin (suc len) c k =
    λ e. absurd (ground (arith, is_max_fresh-insert_range begin len c))

insert_range-Refines :
    (begin len : ℕ) (c : Calculator) (w : Workset)
    → begin + len < u64_mod
    → Refines c w
    → Refines (insert_range begin len c) (add_sectors begin len w)
unfolding add_sectors
insert_range-Refines begin len c w h r =
    let (v, same) = covered-insert_range begin len c h r.valid in
    let k = insert_range-IsCurrent begin len c r.current in
    record {
      valid = v;
      current = k;
      same = λ s. same s ∙ ap (λ b. requested begin len s || b) (r.same s);
      workset = omega (
        arith,
        get_workset-total (insert_range begin len c) v k,
        get_workset-total c r.valid r.current,
        max_workset-insert_range begin len c,
        total-count_valid c r.valid,
        total-count_valid (insert_range begin len c) v,
        r.workset,
        count_same u64_mod _ _ (λ s. same s ∙ ap (λ b. requested begin len s || b) (r.same s)),
        count_mono u64_mod (λ s. covered s c.hit_ranges)
            (λ s. covered s (insert_range begin len c).hit_ranges) (λ s e. ground (arith, same s)),
      );
    }

remove_range-IsCurrent :
    (begin len : ℕ) (c : Calculator)
    → begin + len < u64_mod
    → 0 < len
    → IsValid c
    → IsCurrent c
    → IsCurrent (remove_range begin len c).0
remove_range-IsCurrent begin len c h n v k =
    let x : Range = record { begin = begin; end = begin + len } in
    let (v', same) = covered-remove_range begin len c h n v in
    let less : total (remove_range begin len c).0.hit_ranges ≤ get_workset c = omega (
      arith,
      get_workset-total c v k,
      total-count_valid c v,
      total-count_valid (remove_range begin len c).0 v',
      count_mono u64_mod (λ s. covered s (remove_range begin len c).0.hit_ranges)
          (λ s. covered s c.hit_ranges)
          (λ s e. covered_of_survives x s c.hit_ranges (sym (same s) ∙ e)),
    ) in
    rw (remove_range_lem begin len c h) (
      remove_found-IsCurrent x c (set_find x c.hit_ranges)
        (rw (remove_range_lem begin len c h) at less) k)

remove_range-Refines :
    (begin len : ℕ) (c : Calculator) (w : Workset)
    → begin + len < u64_mod
    → 0 < len
    → swallows_any (record { begin = begin; end = begin + len }) c.hit_ranges ≡ false
    → Refines c w
    → Refines (remove_range begin len c).0 (drop_sectors begin len w)
unfolding drop_sectors
remove_range-Refines begin len c w h n e r = record {
  valid = (covered-remove_range begin len c h n r.valid).0;
  current = remove_range-IsCurrent begin len c h n r.valid r.current;
  same = λ s.
      covered-remove_range_exact begin len c h n r.valid e s
      ∙ ap (λ b. b && not (requested begin len s)) (r.same s);
  workset = get_workset-remove_range begin len c ∙ r.workset;
}

run-Refines :
    (ops : List Op) (c : Calculator) (w : Workset)
    → IsAdmissible c ops
    → Refines c w
    → Refines (run c ops) (spec w ops)
unfolding run spec
run-Refines [] c w a r = r
run-Refines (insert begin len ∷ ops) c w a r =
    run-Refines ops _ _ a.1 (insert_range-Refines begin len c w a.0 r)
run-Refines (remove begin len ∷ ops) c w a r =
    run-Refines ops _ _ a.3 (remove_range-Refines begin len c w a.0 a.1 a.2 r)

empty-Refines : Refines empty nothing
unfolding empty nothing get_workset
empty-Refines = record {
  valid = omega arith;
  current = λ e. omega arith;
  same = λ s. refl;
  workset = refl;
}

-- From an empty calculator, after any history of insertions and removals in which no range wraps
-- and no removal is empty or covers a stored range without being equal to it, the calculator covers
-- exactly the sectors of the history's set and `getWorkset` returns the largest number of distinct
-- sectors that were in the set at one time.
pub run-empty :
    (ops : List Op)
    → IsAdmissible empty ops
    → ((s : ℕ) → covered s (run empty ops).hit_ranges ≡ (spec nothing ops).sectors s)
      × (get_workset (run empty ops) ≡ (spec nothing ops).peak)
run-empty ops a = let r = run-Refines ops empty nothing a empty-Refines in (r.same, r.workset)
