-- ===== src/Distribution/Summary.antt =====
-- What getHistogram and the sums of source/octf/analytics/statistics/Distribution.cpp report
-- after a run of values.
use open_cas_telemetry_frame.Prelude.{
  ℕ, ◌+◌, ◌*◌, ◌<◌, min, max, ◌≡◌, refl, sym, ap, ◌∙◌, subst, inl, inr, List, [], ◌∷◌, ◌++◌, arith,
  ◌==◌, Bool-cases, length, u64_mod, add64, sub64,
}
use open_cas_telemetry_frame.Distribution.{
  Bucket, Distribution, Added, added, thrown, endless, add, bucket_rows, histogram_rows,
  get_histogram,
}
use open_cas_telemetry_frame.Distribution.Level.{exact}
use open_cas_telemetry_frame.Distribution.Adding.{sum_of}
use open_cas_telemetry_frame.Distribution.Counting.{IsDistribution, add-Adds, counted}

-- The counts in the rows of a histogram.
abbrev pub rows_total : List (ℕ × ℕ × ℕ) → ℕ
rows_total [] = 0
rows_total (r ∷ rs) = r.2 + rows_total rs

rows_total-append :
    (xs ys : List (ℕ × ℕ × ℕ)) → rows_total (xs ++ ys) ≡ rows_total xs + rows_total ys
rows_total-append [] ys = omega arith
rows_total-append (x ∷ xs) ys = omega (arith, rows_total-append xs ys)

bucket_rows-total : (size b e : ℕ) (ns : List ℕ) → rows_total (bucket_rows size b e ns) ≡ sum_of ns
bucket_rows-total size b e [] = refl
bucket_rows-total size b e (n ∷ ns) =
    omega (arith, bucket_rows-total size (add64 b size) (add64 e size) ns)

histogram_rows-total : (bs : List Bucket) → rows_total (histogram_rows bs) ≡ counted bs
histogram_rows-total [] = refl
histogram_rows-total (b ∷ bs) = omega (
  arith,
  rows_total-append
      (bucket_rows b.range_size b.begin (sub64 (add64 b.begin b.range_size) 1) b.count)
      (histogram_rows bs),
  bucket_rows-total b.range_size b.begin (sub64 (add64 b.begin b.range_size) 1) b.count,
  histogram_rows-total bs,
)

get_histogram-total : (d : Distribution) → IsDistribution d → rows_total (get_histogram d) ≡ d.count
unfolding get_histogram
get_histogram-total d inv = elim (Bool-cases (d.count == 0)) [
  | inl e ↦ let none : d.count ≡ 0 = ground arith in rw e (sym none)
  | inr e ↦ rw e (histogram_rows-total d.histogram ∙ inv.all_counted)
]

-- A run of `operator+=`, as long as no exception stops it.
abbrev pub add_next : (Distribution → Added) → Added → Added
add_next next (added d) = next d
add_next next (thrown d) = thrown d
add_next next endless = endless

unfoldable pub add_all : List ℕ → Distribution → Added
add_all [] d = added d
add_all (v ∷ vs) d = add_next (add_all vs) (add d v)

abbrev pub AreExact : ℕ → List ℕ → Type 0
AreExact base [] = Unit {0}
AreExact base (v ∷ vs) = (v * base < exact) × AreExact base vs

abbrev pub total_of : ℕ → List ℕ → ℕ
total_of t [] = t
total_of t (v ∷ vs) = total_of (add64 t v) vs

abbrev pub least_of : ℕ → List ℕ → ℕ
least_of m [] = m
least_of m (v ∷ vs) = least_of (min m v) vs

abbrev pub greatest_of : ℕ → List ℕ → ℕ
greatest_of m [] = m
greatest_of m (v ∷ vs) = greatest_of (max m v) vs

-- The state after a run.
pub record Summarises (d : Distribution) (vs : List ℕ) (d' : Distribution) : Type 0 where
  pub well : IsDistribution d'
  pub count_all : d'.count ≡ d.count + length vs
  pub total_all : d'.total ≡ total_of d.total vs
  pub min_all : d'.min_value ≡ least_of d.min_value vs
  pub max_all : d'.max_value ≡ greatest_of d.max_value vs
  pub rows_all : rows_total (get_histogram d') ≡ d.count + length vs

-- On a distribution whose buckets fit their levels, any run of operator+= with values below
-- 2 ^ 53 / base, fewer than 2 ^ 64 in all, ends without an exception; count, total (modulo 2 ^ 64), minimum and maximum are those of the values, and the counts
-- in the rows of getHistogram add up to the number of values.
pub add_all-Summarises :
    (d : Distribution) (vs : List ℕ)
    → AreExact d.base vs
    → d.count + length vs < u64_mod
    → IsDistribution d
    → (d' : Distribution) × (add_all vs d ≡ added d') × Summarises d vs d'
unfolding add_all
add_all-Summarises d [] e room inv = (
  d,
  refl,
  record {
    well = inv;
    count_all = omega arith;
    total_all = refl;
    min_all = refl;
    max_all = refl;
    rows_all = omega (arith, get_histogram-total d inv);
  },
)
add_all-Summarises d (v ∷ vs) e room inv =
    let (d1, first, inv1, a) = add-Adds d v e.0 (omega arith) inv in
    let exact_rest : AreExact d1.base vs = subst (λ b. AreExact b vs) (sym a.base_same) e.1 in
    let (d2, after, all) = add_all-Summarises d1 vs exact_rest (omega (arith, a.count_set)) inv1 in
    (
      d2,
      ap (add_next (add_all vs)) first ∙ after,
      record {
        well = all.well;
        count_all = omega (arith, all.count_all, a.count_set);
        total_all = all.total_all ∙ ap (λ t. total_of t vs) a.total_set;
        min_all = all.min_all ∙ ap (λ n. least_of n vs) a.min_set;
        max_all = all.max_all ∙ ap (λ n. greatest_of n vs) a.max_set;
        rows_all = omega (arith, all.rows_all, a.count_set);
      },
    )
