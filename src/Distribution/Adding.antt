-- ===== src/Distribution/Adding.antt =====
-- What operator+= of source/octf/analytics/statistics/Distribution.cpp does to the histogram.
use open_cas_telemetry_frame.Prelude.{
  ℕ, zero, suc, ◌+◌, ◌-◌, ◌*◌, ◌/◌, ◌≤◌, ◌<◌, ◌≡◌, refl, sym, ap, ap₂, ◌∙◌, subst, true, false,
  ◌||◌, some, List, [], ◌∷◌, arith, ltb, length, set, get_or, length-set, u64_mod, add64, sub64,
}
use native.Mathlib.Nat.{
  add-mul, mul-le-mul_left, one-mul, mul-pos, div-mul-le_self, lt-div-mul-add, mul-div_cancel,
  mul-le-mul, div-lt_iff_lt-mul, mul_comm,
}
use open_cas_telemetry_frame.Distribution.{
  power, Bucket, bucket_begin, bucket_end, range_id, bucket_add,
}
use open_cas_telemetry_frame.Distribution.Level.{exact, power-pos}

-- The width of a range of a bucket.
abbrev pub span : ℕ → ℕ → ℕ
span zero base = 1
span (suc level) base = power base level * base - power base level

module _ (ranges base : ℕ) (b : 2 ≤ base) (r : 1 ≤ ranges) where
  span_pos : (level : ℕ) → 1 ≤ span level base
  span_pos zero = omega arith
  span_pos (suc level) = omega (arith, mul-le-mul_left (power base level) b, power-pos base level b)

  -- The ranges of a bucket fill it.
  begin_span :
      (level : ℕ)
      → bucket_begin level ranges base + span level base * ranges ≡ power base level * ranges
  begin_span zero = omega arith
  begin_span (suc level) =
      let p = power base level in
      let e : p + (p * base - p) ≡ p * base = omega (arith, mul-le-mul_left p b) in
      sym (add-mul p (p * base - p) ranges) ∙ ap (λ x. x * ranges) e

  width :
      (level : ℕ)
      → power base level * ranges < exact
      → add64 (sub64 (bucket_end level ranges base) (bucket_begin level ranges base)) 1
        ≡ span level base * ranges
  width level fits =
      let some_wide : 1 * 1 ≤ span level base * ranges = mul-le-mul (span_pos level) r in
      omega (arith, begin_span level)

-- The bucket of a level, whatever was counted in it.
pub record IsBucket (ranges base level : ℕ) (x : Bucket) : Type 0 where
  pub begin_set : x.begin ≡ bucket_begin level ranges base
  pub end_set : x.end ≡ bucket_end level ranges base
  pub ranges_set : x.ranges_count ≡ ranges
  pub size_set :
      x.range_size
      ≡ add64 (sub64 (bucket_end level ranges base) (bucket_begin level ranges base)) 1 / ranges
  pub counts : length x.count ≡ ranges
  pub sums : length x.sum ≡ ranges

abbrev pub sum_of : List ℕ → ℕ
sum_of [] = 0
sum_of (x ∷ xs) = x + sum_of xs

sum_of-set :
    (xs : List ℕ) (i v : ℕ) → i < length xs → sum_of (set xs i v) + get_or xs i 0 ≡ sum_of xs + v
sum_of-set [] i v h = ground arith
sum_of-set (x ∷ xs) zero v h = omega arith
sum_of-set (x ∷ xs) (suc i) v h = omega (arith, sum_of-set xs i v (omega arith))

get_or-le : (xs : List ℕ) (i : ℕ) → get_or xs i 0 ≤ sum_of xs
get_or-le [] i = omega arith
get_or-le (x ∷ xs) zero = omega arith
get_or-le (x ∷ xs) (suc i) = omega (arith, get_or-le xs i)

-- The range `i` counts the value.
abbrev pub counted_in : ℕ → ℕ → Bucket → Bucket
counted_in i value x = record x {
  sum = set x.sum i (add64 (get_or x.sum i 0) value);
  count = set x.count i (add64 (get_or x.count i 0) 1);
}

-- The value lies in the range `i`, and the bucket has this range.
abbrev pub IsIn : ℕ → ℕ → Bucket → Type 0
IsIn i value x =
    (i < x.ranges_count)
    × (x.begin + i * x.range_size ≤ value)
    × (value < x.begin + (i + 1) * x.range_size)

-- A bucket that holds the value takes it: one range counts one more.
pub bucket_add_lem :
    (ranges base level : ℕ) (x : Bucket) (value : ℕ)
    → 2 ≤ base
    → 1 ≤ ranges
    → power base level * ranges < exact
    → IsBucket ranges base level x
    → bucket_begin level ranges base ≤ value
    → value ≤ bucket_end level ranges base
    → sum_of x.count + 1 < u64_mod
    → (y : Bucket) × (bucket_add x value ≡ some y)
      × IsBucket ranges base level y
      × (sum_of y.count ≡ sum_of x.count + 1)
      × (i : ℕ) × IsIn i value x
      × (y ≡ counted_in i value x)
unfolding bucket_add
bucket_add_lem ranges base level x value b r fits i from to room =
    let w = bucket_begin level ranges base in
    let s = span level base in
    let id = range_id x value in
    let positive = span_pos ranges base b r level in
    let size : x.range_size ≡ s =
      i.size_set ∙ ap (λ n. n / ranges) (width ranges base b r level fits) ∙ mul-div_cancel s r in
    let off : sub64 value x.begin ≡ value - w = omega (arith, i.begin_set) in
    let id_lem : id ≡ (value - w) / s = ap₂ ◌/◌ off size in
    let within : value - w < ranges * s =
      omega (arith, begin_span ranges base b r level, mul_comm ranges s, mul-pos positive r) in
    let inside : id < ranges =
      subst (λ n. n < ranges) (sym id_lem) ((div-lt_iff_lt-mul positive).1 within) in
    let lower : id * x.range_size ≤ value - w =
      subst (λ n. n ≤ value - w) (sym (ap₂ ◌*◌ id_lem size)) (div-mul-le_self (value - w) s) in
    let upper : value - w < (id + 1) * x.range_size = omega (
      arith,
      lt-div-mul-add {a = value - w} positive,
      add-mul id 1 x.range_size,
      ap₂ ◌*◌ id_lem size,
      one-mul x.range_size,
      size,
    ) in
    let held : (ltb value x.begin || ltb x.end value) ≡ false =
      ground (arith, i.begin_set, i.end_set) in
    let chosen : ltb id x.ranges_count ≡ true = ground (arith, i.ranges_set, inside) in
    let n = get_or x.count id 0 in
    let counted : add64 n 1 ≡ n + 1 = omega (arith, get_or-le x.count id) in
    let more = sum_of-set x.count id (add64 n 1) (omega (arith, i.counts)) in
    (
      record x {
        sum = set x.sum id (add64 (get_or x.sum id 0) value);
        count = set x.count id (add64 n 1);
      },
      rw held (rw chosen refl),
      record {
        begin_set = i.begin_set;
        end_set = i.end_set;
        ranges_set = i.ranges_set;
        size_set = i.size_set;
        counts = length-set x.count id (add64 n 1) ∙ i.counts;
        sums = length-set x.sum id (add64 (get_or x.sum id 0) value) ∙ i.sums;
      },
      omega (arith, more, counted),
      id,
      (
        omega (arith, i.ranges_set, inside),
        omega (arith, lower, i.begin_set),
        omega (arith, upper, i.begin_set),
      ),
      refl,
    )
