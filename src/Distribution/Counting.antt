-- ===== src/Distribution/Counting.antt =====
-- The histogram of source/octf/analytics/statistics/Distribution.cpp, and operator+= as a whole.
use open_cas_telemetry_frame.Prelude.{
  ℕ, zero, suc, ◌+◌, ◌-◌, ◌*◌, ◌≤◌, ◌<◌, min, max, ◌≡◌, refl, ap, ◌∙◌, subst, inl, inr, List, [],
  ◌∷◌, ◌++◌, arith, leb, leb→le, Bool-cases, length, replicate, set, get_or, length-append,
  length-replicate, u64_mod, add64,
}
use open_cas_telemetry_frame.Distribution.{
  Bucket, make_bucket, Distribution, buckets, grow, no_bucket, added, put_bucket, add_at, add,
}
use open_cas_telemetry_frame.Distribution.Level.{exact, level_of_lem}
use open_cas_telemetry_frame.Distribution.Adding.{
  IsBucket, sum_of, bucket_add_lem, IsIn, counted_in,
}

-- The buckets of the levels from `j`, in order.
abbrev pub IsShaped : ℕ → ℕ → ℕ → List Bucket → Type 0
IsShaped ranges base j [] = Unit {0}
IsShaped ranges base j (x ∷ xs) = IsBucket ranges base j x × IsShaped ranges base (suc j) xs

-- Everything that the histogram counted.
abbrev pub counted : List Bucket → ℕ
counted [] = 0
counted (x ∷ xs) = sum_of x.count + counted xs

sum_of-replicate : (n : ℕ) → sum_of (replicate n 0) ≡ 0
sum_of-replicate zero = refl
sum_of-replicate (suc n) = omega (arith, sum_of-replicate n)

make_bucket-IsBucket : (ranges base j : ℕ) → IsBucket ranges base j (make_bucket j ranges base)
make_bucket-IsBucket ranges base j = record {
  begin_set = refl;
  end_set = refl;
  ranges_set = refl;
  size_set = refl;
  counts = length-replicate {A = ℕ} ranges 0;
  sums = length-replicate {A = ℕ} ranges 0;
}

module _ (ranges base : ℕ) where
  buckets-IsShaped : (j n : ℕ) → IsShaped ranges base j (buckets ranges base j n)
  unfolding buckets
  buckets-IsShaped j zero = tt
  buckets-IsShaped j (suc n) = (make_bucket-IsBucket ranges base j, buckets-IsShaped (suc j) n)

  counted-buckets : (j n : ℕ) → counted (buckets ranges base j n) ≡ 0
  unfolding buckets
  counted-buckets j zero = refl
  counted-buckets j (suc n) = omega (arith, sum_of-replicate ranges, counted-buckets (suc j) n)

  length-buckets : (j n : ℕ) → length (buckets ranges base j n) ≡ n
  unfolding buckets
  length-buckets j zero = refl
  length-buckets j (suc n) = ap suc (length-buckets (suc j) n)

  IsShaped-append :
      (j k : ℕ) (xs ys : List Bucket)
      → k ≡ j + length xs
      → IsShaped ranges base j xs
      → IsShaped ranges base k ys
      → IsShaped ranges base j (xs ++ ys)
  IsShaped-append j k [] ys e s t =
      let f : k ≡ j = omega (arith, e) in subst (λ n. IsShaped ranges base n ys) f t
  IsShaped-append j k (x ∷ xs) ys e s t =
      (s.0, IsShaped-append (suc j) k xs ys (omega (arith, e)) s.1 t)

  get_or-IsBucket :
      (j i k : ℕ) (xs : List Bucket)
      → k ≡ j + i
      → i < length xs
      → IsShaped ranges base j xs
      → IsBucket ranges base k (get_or xs i no_bucket)
  get_or-IsBucket j i k [] e h s = ground arith
  get_or-IsBucket j zero k (x ∷ xs) e h s =
      let f : j ≡ k = omega (arith, e) in subst (λ n. IsBucket ranges base n x) f s.0
  get_or-IsBucket j (suc i) k (x ∷ xs) e h s =
      get_or-IsBucket (suc j) i k xs (omega (arith, e)) (omega arith) s.1

  set-IsShaped :
      (j i k : ℕ) (xs : List Bucket) (y : Bucket)
      → k ≡ j + i
      → IsShaped ranges base j xs
      → IsBucket ranges base k y
      → IsShaped ranges base j (set xs i y)
  set-IsShaped j i k [] y e s t = tt
  set-IsShaped j zero k (x ∷ xs) y e s t =
      let f : k ≡ j = omega (arith, e) in (subst (λ n. IsBucket ranges base n y) f t, s.1)
  set-IsShaped j (suc i) k (x ∷ xs) y e s t =
      (s.0, set-IsShaped (suc j) i k xs y (omega (arith, e)) s.1 t)

counted-append : (xs ys : List Bucket) → counted (xs ++ ys) ≡ counted xs + counted ys
counted-append [] ys = omega arith
counted-append (x ∷ xs) ys = omega (arith, counted-append xs ys)

counted-set :
    (xs : List Bucket) (i : ℕ) (y : Bucket)
    → i < length xs
    → counted (set xs i y) + sum_of (get_or xs i no_bucket).count ≡ counted xs + sum_of y.count
counted-set [] i y h = ground arith
counted-set (x ∷ xs) zero y h = omega arith
counted-set (x ∷ xs) (suc i) y h = omega (arith, counted-set xs i y (omega arith))

counted-get_or : (xs : List Bucket) (i : ℕ) → sum_of (get_or xs i no_bucket).count ≤ counted xs
counted-get_or [] i = omega arith
counted-get_or (x ∷ xs) zero = omega arith
counted-get_or (x ∷ xs) (suc i) = omega (arith, counted-get_or xs i)

-- The state of a distribution whose exceptions cannot be reached: its buckets are those of their
-- levels, and their counts add up to the count of values.
pub record IsDistribution (d : Distribution) : Type 0 where
  pub base_ok : 2 ≤ d.base
  pub ranges_ok : 1 ≤ d.ranges
  pub ranges_fit : d.ranges < exact
  pub shaped : IsShaped d.ranges d.base 0 d.histogram
  pub all_counted : counted d.histogram ≡ d.count

module _ (d : Distribution) (level : ℕ) (s : IsShaped d.ranges d.base 0 d.histogram) where
  grow-IsShaped : IsShaped d.ranges d.base 0 (grow d level)
  grow-IsShaped = elim (Bool-cases (leb (length d.histogram) level)) [
    | inl e ↦ rw e (
        IsShaped-append d.ranges d.base 0 (length d.histogram) d.histogram _ (omega arith) s
          (buckets-IsShaped d.ranges d.base (length d.histogram) (level + 1 - length d.histogram)))
    | inr e ↦ rw e s
  ]

  length-grow : level < length (grow d level)
  length-grow = elim (Bool-cases (leb (length d.histogram) level)) [
    | inl e ↦ rw e (
        omega (
          arith,
          length-append d.histogram
              (buckets d.ranges d.base (length d.histogram) (level + 1 - length d.histogram)),
          length-buckets d.ranges d.base (length d.histogram) (level + 1 - length d.histogram),
          leb→le (length d.histogram) level e,
        ))
    | inr e ↦ rw e (ground arith)
  ]

  counted-grow : counted (grow d level) ≡ counted d.histogram
  counted-grow = elim (Bool-cases (leb (length d.histogram) level)) [
    | inl e ↦ rw e (
        omega (
          arith,
          counted-append d.histogram
              (buckets d.ranges d.base (length d.histogram) (level + 1 - length d.histogram)),
          counted-buckets d.ranges d.base (length d.histogram) (level + 1 - length d.histogram),
        ))
    | inr e ↦ rw e refl
  ]

-- What `operator+=` does to a distribution.
pub record Adds (d : Distribution) (value : ℕ) (d' : Distribution) : Type 0 where
  pub level : ℕ
  pub bucket : Bucket
  pub ranges_same : d'.ranges ≡ d.ranges
  pub base_same : d'.base ≡ d.base
  pub total_set : d'.total ≡ add64 d.total value
  pub count_set : d'.count ≡ d.count + 1
  pub min_set : d'.min_value ≡ min d.min_value value
  pub max_set : d'.max_value ≡ max d.max_value value
  pub histogram_set : d'.histogram ≡ set (grow d level) level bucket
  pub level_there : level < length (grow d level)
  pub range : ℕ
  pub range_holds : IsIn range value (get_or (grow d level) level no_bucket)
  pub bucket_set : bucket ≡ counted_in range value (get_or (grow d level) level no_bucket)

-- operator+= of a value below 2 ^ 53 / base on a distribution whose buckets fit their levels: it
-- throws no exception; total, count, minimum and maximum are updated; one range of one bucket counts
-- one more, and the value lies in this range; the counts of all ranges still add up to the count.
pub add-Adds :
    (d : Distribution) (value : ℕ)
    → value * d.base < exact
    → d.count + 1 < u64_mod
    → IsDistribution d
    → (d' : Distribution) × (add d value ≡ added d') × IsDistribution d' × Adds d value d'
unfolding add
add-Adds d value small room inv =
    let d1 : Distribution = record d {
      total = add64 d.total value;
      count = add64 d.count 1;
      min_value = min d.min_value value;
      max_value = max d.max_value value;
    } in
    let (level, found, from, to, fits) =
      level_of_lem d1 value inv.base_ok inv.ranges_ok inv.ranges_fit small in
    let h = grow d level in
    let x = get_or h level no_bucket in
    let there = length-grow d level inv.shaped in
    let is_bucket =
      get_or-IsBucket d.ranges d.base 0 level level h (omega arith) there
        (grow-IsShaped d level inv.shaped) in
    let same = counted-grow d level inv.shaped in
    let (y, taken, y_is_bucket, more, range, holds, set_to) =
      bucket_add_lem d.ranges d.base level x value inv.base_ok inv.ranges_ok fits is_bucket from to
        (omega (arith, counted-get_or h level, same, inv.all_counted)) in
    let d' : Distribution = record d1 { histogram = set h level y } in
    (
      d',
      ap (add_at d1 value) found ∙ ap (put_bucket (record d1 { histogram = h }) level) taken,
      record {
        base_ok = inv.base_ok;
        ranges_ok = inv.ranges_ok;
        ranges_fit = inv.ranges_fit;
        shaped =
            set-IsShaped d.ranges d.base 0 level level h y (omega arith)
              (grow-IsShaped d level inv.shaped) y_is_bucket;
        all_counted = omega (arith, counted-set h level y there, more, same, inv.all_counted);
      },
      record {
        level = level;
        bucket = y;
        ranges_same = refl;
        base_same = refl;
        total_set = refl;
        count_set = omega arith;
        min_set = refl;
        max_set = refl;
        histogram_set = refl;
        level_there = there;
        range = range;
        range_holds = holds;
        bucket_set = set_to;
      },
    )
