-- ===== src/IoStatistics/Conserved.antt =====
-- What source/octf/analytics/statistics/IoStatistics.cpp counts in the total is what it counts for the
-- types and the flushes together.
use open_cas_telemetry_frame.Prelude.{
  ℕ, zero, suc, ◌+◌, ◌%◌, ◌<◌, ◌≡◌, refl, sym, ap, ◌∙◌, subst, inl, inr, false, List, [], ◌∷◌,
  arith, ◌==◌, if◌then◌else◌, Bool-cases, length, u64_mod,
}
use open_cas_telemetry_frame.IoStatistics.{
  Stats, IoStatistics, Target, of_type, of_flush, modify, on_target, nth_stats, target_stats, Which,
  get_which,
}

-- A number that each `Stats` keeps.
pub data Measure : Type 0 where
  requests error_count : Measure
  sum_of : Which → Measure

abbrev pub measure : Measure → Stats → ℕ
measure requests x = x.count
measure error_count x = x.errors
measure (sum_of w) x = (get_which w x).total

abbrev pub sum_types : Measure → List Stats → ℕ
sum_types m [] = 0
sum_types m (x ∷ xs) = measure m x + sum_types m xs

abbrev pub parts : Measure → IoStatistics → ℕ
parts m s = sum_types m s.statistics + measure m s.flush

-- From `s` to `s'` the total and the parts grow by `k`, as 64-bit words do.
abbrev pub Grows : ℕ → Measure → IoStatistics → IoStatistics → Type 0
Grows k m s s' =
    (measure m s'.total % u64_mod ≡ (measure m s.total + k) % u64_mod)
    × (parts m s' % u64_mod ≡ (parts m s + k) % u64_mod)

pub Grows-nothing : (m : Measure) (s : IoStatistics) → Grows 0 m s s
Grows-nothing m s = (omega arith, omega arith)

pub Grows-trans :
    (k k' : ℕ) (m : Measure) (s s' s'' : IoStatistics)
    → Grows k m s s'
    → Grows k' m s' s''
    → Grows (k + k') m s s''
Grows-trans k k' m s s' s'' (a, b) (a', b') = (omega (arith, a, a'), omega (arith, b, b'))

-- The target is a type of the array or the flushes.
abbrev pub HasTarget : Target → IoStatistics → Type 0
HasTarget (of_type i) s = i < length s.statistics
HasTarget of_flush s = Unit {0}

sum_types-modify :
    (m : Measure) (f : Stats → Stats) (k i : ℕ) (xs : List Stats)
    → i < length xs
    → measure m (f (nth_stats i xs)) % u64_mod ≡ (measure m (nth_stats i xs) + k) % u64_mod
    → sum_types m (modify f i xs) % u64_mod ≡ (sum_types m xs + k) % u64_mod
sum_types-modify m f k i [] within h = omega arith
sum_types-modify m f k zero (x ∷ xs) within h = omega (arith, h)
sum_types-modify m f k (suc i) (x ∷ xs) within h =
    omega (arith, sum_types-modify m f k i xs (omega arith) h)

pub parts-on_target :
    (m : Measure) (f : Stats → Stats) (k : ℕ) (t : Target) (s : IoStatistics)
    → HasTarget t s
    → measure m (f (target_stats t s)) % u64_mod ≡ (measure m (target_stats t s) + k) % u64_mod
    → parts m (on_target f t s) % u64_mod ≡ (parts m s + k) % u64_mod
parts-on_target m f k (of_type i) s within h =
    omega (arith, sum_types-modify m f k i s.statistics within h)
parts-on_target m f k of_flush s within h = omega (arith, h)

-- A change of the total, and a change of the target, by the same amount.
abbrev pub changed : (Stats → Stats) → (Stats → Stats) → Target → IoStatistics → IoStatistics
changed f g t s = on_target g t (record s { total = f s.total })

total-on_target :
    (m : Measure) (g : Stats → Stats) (t : Target) (s : IoStatistics)
    → measure m (on_target g t s).total ≡ measure m s.total
total-on_target m g (of_type i) s = refl
total-on_target m g of_flush s = refl

pub same_target :
    (t : Target) (s : IoStatistics) (x : Stats)
    → target_stats t (record s { total = x }) ≡ target_stats t s
same_target (of_type i) s x = refl
same_target of_flush s x = refl

pub HasTarget-same :
    (t : Target) (s : IoStatistics) (x : Stats)
    → HasTarget t s
    → HasTarget t (record s { total = x })
HasTarget-same (of_type i) s x h = h
HasTarget-same of_flush s x h = h

changed-Grows :
    (m : Measure) (f g : Stats → Stats) (k : ℕ) (t : Target) (s : IoStatistics)
    → HasTarget t s
    → measure m (f s.total) % u64_mod ≡ (measure m s.total + k) % u64_mod
    → measure m (g (target_stats t s)) % u64_mod ≡ (measure m (target_stats t s) + k) % u64_mod
    → Grows k m s (changed f g t s)
changed-Grows m f g k t s within h h' =
    let s1 : IoStatistics = record s { total = f s.total } in
    (
      ap (λ (n : ℕ). n % u64_mod) (total-on_target m g t s1) ∙ h,
      parts-on_target m g k t s1 (HasTarget-same t s (f s.total) within) (
          subst (λ (x : Stats). measure m (g x) % u64_mod ≡ (measure m x + k) % u64_mod)
            (sym (same_target t s (f s.total))) h'),
    )

-- What the part `u` has of an amount for the part `t`.
abbrev pub share : Target → Target → ℕ → ℕ
share (of_type i) (of_type j) k = if j == i then k else 0
share (of_type i) of_flush k = 0
share of_flush (of_type j) k = 0
share of_flush of_flush k = k

-- Each part grows by its share, as 64-bit words do.
abbrev pub PartsGrow : ℕ → Measure → Target → IoStatistics → IoStatistics → Type 0
PartsGrow k m t s s' =
    (u : Target)
    → measure m (target_stats u s') % u64_mod
      ≡ (measure m (target_stats u s) + share t u k) % u64_mod

pub share_zero : (t u : Target) → share t u 0 ≡ 0
share_zero (of_type i) (of_type j) = elim (Bool-cases (j == i)) [
  | inl e ↦ rw e refl
  | inr e ↦ rw e refl
]
share_zero (of_type i) of_flush = refl
share_zero of_flush (of_type j) = refl
share_zero of_flush of_flush = refl

share_add : (t u : Target) (k k' : ℕ) → share t u (k + k') ≡ share t u k + share t u k'
share_add (of_type i) (of_type j) k k' = elim (Bool-cases (j == i)) [
  | inl e ↦ rw e refl
  | inr e ↦ rw e refl
]
share_add (of_type i) of_flush k k' = refl
share_add of_flush (of_type j) k k' = refl
share_add of_flush of_flush k k' = refl

-- The total, the parts together, and each part for itself.
abbrev pub Moves : ℕ → Measure → Target → IoStatistics → IoStatistics → Type 0
Moves k m t s s' = Grows k m s s' × PartsGrow k m t s s'

pub Moves-nothing : (m : Measure) (t : Target) (s : IoStatistics) → Moves 0 m t s s
Moves-nothing m t s = (Grows-nothing m s, λ u. omega (arith, share_zero t u))

pub Moves-trans :
    (k k' : ℕ) (m : Measure) (t : Target) (s s' s'' : IoStatistics)
    → Moves k m t s s'
    → Moves k' m t s' s''
    → Moves (k + k') m t s s''
Moves-trans k k' m t s s' s'' (a, b) (a', b') =
    (Grows-trans k k' m s s' s'' a a', λ u. omega (arith, b u, b' u, share_add t u k k'))

nth_stats-modify :
    (m : Measure) (g : Stats → Stats) (k i j : ℕ) (xs : List Stats)
    → i < length xs
    → measure m (g (nth_stats i xs)) % u64_mod ≡ (measure m (nth_stats i xs) + k) % u64_mod
    → measure m (nth_stats j (modify g i xs)) % u64_mod
      ≡ (measure m (nth_stats j xs) + (if j == i then k else 0)) % u64_mod
nth_stats-modify m g k i j [] within h = ground arith
nth_stats-modify m g k zero zero (x ∷ xs) within h = h
nth_stats-modify m g k zero (suc j) (x ∷ xs) within h =
    let other : suc j == 0 ≡ false = ground arith in rw other (omega arith)
nth_stats-modify m g k (suc i) zero (x ∷ xs) within h =
    let other : 0 == suc i ≡ false = ground arith in rw other (omega arith)
nth_stats-modify m g k (suc i) (suc j) (x ∷ xs) within h =
    let same : (suc j == suc i) ≡ (j == i) = ground arith in
    rw same (nth_stats-modify m g k i j xs (omega arith) h)

changed-PartsGrow :
    (m : Measure) (f g : Stats → Stats) (k : ℕ) (t : Target) (s : IoStatistics)
    → HasTarget t s
    → measure m (g (target_stats t s)) % u64_mod ≡ (measure m (target_stats t s) + k) % u64_mod
    → PartsGrow k m t s (changed f g t s)
changed-PartsGrow m f g k (of_type i) s within h (of_type j) =
    nth_stats-modify m g k i j s.statistics within h
changed-PartsGrow m f g k (of_type i) s within h of_flush = omega arith
changed-PartsGrow m f g k of_flush s within h (of_type j) = omega arith
changed-PartsGrow m f g k of_flush s within h of_flush = h

pub changed-Moves :
    (m : Measure) (f g : Stats → Stats) (k : ℕ) (t : Target) (s : IoStatistics)
    → HasTarget t s
    → measure m (f s.total) % u64_mod ≡ (measure m s.total + k) % u64_mod
    → measure m (g (target_stats t s)) % u64_mod ≡ (measure m (target_stats t s) + k) % u64_mod
    → Moves k m t s (changed f g t s)
changed-Moves m f g k t s within h h' =
    (changed-Grows m f g k t s within h h', changed-PartsGrow m f g k t s within h')
