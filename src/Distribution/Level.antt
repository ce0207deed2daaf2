-- ===== src/Distribution/Level.antt =====
-- The level that getBucket of source/octf/analytics/statistics/Distribution.cpp chooses for a value.
use open_cas_telemetry_frame.Prelude.{
  ℕ, zero, suc, ◌*◌, ◌^◌, ◌≤◌, ◌<◌, ◌≡◌, refl, ap, inl, inr, false, some, arith, ltb, Bool-cases,
  u64_mod, sub64, mul64,
}
use native.Mathlib.Nat.{
  mul-le-mul_right, mul-le-mul_left, mul_assoc, mul_comm, mul_right_comm, mul-one, mul-pos, one-mul,
}
use open_cas_telemetry_frame.Distribution.{
  power, Distribution, find_level, level_of, bucket_begin, bucket_end, level_bound,
}

-- Below this a double holds every whole number.
abbrev pub exact : ℕ
exact = 2 ^ 53

pub power-pos : (b n : ℕ) → 2 ≤ b → 1 ≤ power b n
power-pos b zero h = omega arith
power-pos b (suc n) h = mul-pos (power-pos b n h) (omega arith)

-- The loop at `level`: it ends at a level whose bucket holds the value.
pub find_level_lem :
    (k : ℕ) (d : Distribution) (level value : ℕ)
    → 2 ≤ d.base
    → 1 ≤ d.ranges
    → value * d.base < exact
    → power d.base level * d.ranges < exact
    → bucket_begin level d.ranges d.base ≤ value
    → value < power d.base level * d.ranges * power 2 k
    → (l : ℕ) × (find_level k d level (power d.base level) (bucket_end level d.ranges d.base) value
        ≡ some l)
      × (bucket_begin l d.ranges d.base ≤ value)
      × (value ≤ bucket_end l d.ranges d.base)
      × (power d.base l * d.ranges < exact)
unfolding find_level
find_level_lem zero d level value b r small fits from enough =
    let e : ltb (bucket_end level d.ranges d.base) value ≡ false =
      ground (arith, mul-one (power d.base level * d.ranges)) in
    (level, rw e refl, from, ground arith, fits)
find_level_lem (suc k) d level value b r small fits from enough =
    elim (Bool-cases (ltb (bucket_end level d.ranges d.base) value)) [
      | inr e ↦ (level, rw e refl, from, ground arith, fits)
      | inl e ↦
          let p = power d.base level in
          let q = p * d.ranges in
          let below : q ≤ value = ground (arith, mul-pos (power-pos d.base level b) r) in
          let grown : q * d.base ≤ value * d.base = mul-le-mul_right d.base below in
          let p_below : p * d.base ≤ q * d.base =
            mul-le-mul_right d.base (omega (arith, mul-le-mul_left p r, mul-one p)) in
          let same : p * d.base * d.ranges ≡ q * d.base = mul_right_comm p d.base d.ranges in
          let next : mul64 p d.base ≡ p * d.base = omega (arith, p_below, grown) in
          let next_end : sub64 (mul64 (p * d.base) d.ranges) 1
              ≡ bucket_end (suc level) d.ranges d.base =
            omega (arith, same, grown, mul-pos (power-pos d.base (suc level) b) r) in
          let rest =
            find_level_lem k d (suc level) value b r small (omega (arith, same, grown)) below (
              omega (
                arith,
                same,
                mul_assoc q 2 (power 2 k),
                ap (◌*◌ q) (mul_comm 2 (power 2 k)),
                mul-le-mul_right (power 2 k) (mul-le-mul_left q b),
                ap (λ x. x * power 2 k) same,
              )) in
          rw e (rw next (rw next_end rest))
    ]

two_to_64 : power 2 level_bound ≡ u64_mod
two_to_64 = refl

-- `getBucket` ends for every value below the bound, at a level whose bucket holds it.
pub level_of_lem :
    (d : Distribution) (value : ℕ)
    → 2 ≤ d.base
    → 1 ≤ d.ranges
    → d.ranges < exact
    → value * d.base < exact
    → (l : ℕ) × (level_of d value ≡ some l)
      × (bucket_begin l d.ranges d.base ≤ value)
      × (value ≤ bucket_end l d.ranges d.base)
      × (power d.base l * d.ranges < exact)
level_of_lem d value b r fits small =
    let one : 1 * d.ranges ≡ d.ranges = one-mul d.ranges in
    let below : value * 2 ≤ value * d.base = mul-le-mul_left value b in
    let start : sub64 d.ranges 1 ≡ bucket_end 0 d.ranges d.base = omega (arith, one) in
    let enough : value < 1 * d.ranges * power 2 level_bound = omega (arith, below) in
    rw start
      (find_level_lem level_bound d 0 value b r small (omega (arith, one)) (omega arith) enough)
