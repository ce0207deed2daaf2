-- ===== src/Workset/Total.antt =====
-- What WorksetCalculator reports: getWorkset against the number of distinct sectors, and the length
-- that removeRange returns.
use open_cas_telemetry_frame.Prelude.{
  ℕ, zero, suc, ◌+◌, ◌-◌, ◌≤◌, ◌<◌, min, max, ◌≡◌, refl, sym, ◌∙◌, Bool, true, false, ◌&&◌, ◌||◌,
  List, [], ◌∷◌, arith, if◌then◌else◌, u64_mod, add64, sub64, Option, some, none,
}
use open_cas_telemetry_frame.Workset.{
  Range, Calculator, sum_lengths, get_workset, remove_range, Position, set_find, remove_found,
}
use open_cas_telemetry_frame.Workset.Ordered.{
  inside, covered, IsWithin, IsWithin-le, IsOrdered-of_within, covered_below, IsWithin-mono,
}
use open_cas_telemetry_frame.Workset.Insert.{IsValid}

abbrev pub total : List Range → ℕ
total [] = 0
total (r ∷ rs) = (r.end - r.begin) + total rs

pub total-le : (lo : ℕ) (rs : List Range) (hi : ℕ) → IsWithin lo rs hi → total rs ≤ hi - lo
total-le lo [] hi w = omega arith
total-le lo (r ∷ rs) hi w =
    omega (arith, total-le (r.end + 1) rs hi w.2, IsWithin-le (r.end + 1) rs hi w.2)

pub sum_lengths-total :
    (workset lo : ℕ) (rs : List Range) (hi : ℕ)
    → IsWithin lo rs hi
    → hi ≤ u64_mod
    → workset + total rs < u64_mod
    → sum_lengths workset rs ≡ workset + total rs
unfolding sum_lengths
sum_lengths-total workset lo [] hi w b h = omega arith
sum_lengths-total workset lo (r ∷ rs) hi w b h =
    let e : add64 workset (sub64 r.end r.begin) ≡ workset + (r.end - r.begin) =
      omega (arith, IsWithin-le (r.end + 1) rs hi w.2) in
    rw e (
      sum_lengths-total (workset + (r.end - r.begin)) (r.end + 1) rs hi w.2 b (omega arith)
      ∙ omega arith)

-- How many of the sectors below `n` have the property.
pub count : ℕ → (ℕ → Bool) → ℕ
count zero p = 0
count (suc n) p = count n p + (if p n then 1 else 0)

count-false : (n : ℕ) (p : ℕ → Bool) → ((s : ℕ) → p s ≡ false) → count n p ≡ 0
unfolding count
count-false zero p h = refl
count-false (suc n) p h = ground (arith, h n, count-false n p h)

count_or :
    (n : ℕ) (p q : ℕ → Bool)
    → ((s : ℕ) → (p s && q s) ≡ false)
    → count n (λ s. p s || q s) ≡ count n p + count n q
unfolding count
count_or zero p q h = omega arith
count_or (suc n) p q h = ground (arith, h n, count_or n p q h)

count-inside : (n : ℕ) (r : Range) → count n (λ s. inside s r) ≡ min n r.end - min n r.begin
unfolding count
count-inside zero r = omega arith
count-inside (suc n) r = ground (arith, count-inside n r)

-- The summed lengths of disjoint ranges are the number of sectors in them.
total-count :
    (n lo : ℕ) (rs : List Range) → IsWithin lo rs (n + 1) → total rs ≡ count n (λ s. covered s rs)
total-count n lo [] w = sym (count-false n (λ s. false) (λ s. refl))
total-count n lo (r ∷ rs) w = omega (
  arith,
  count_or n (λ s. inside s r) (λ s. covered s rs)
      (λ s.
        ground
          (arith, covered_below s (r.end + 1) rs (IsOrdered-of_within (r.end + 1) rs (n + 1) w.2))),
  count-inside n r,
  total-count n (r.end + 1) rs w.2,
  IsWithin-le (r.end + 1) rs (n + 1) w.2,
)

pub count_mono :
    (n : ℕ) (p q : ℕ → Bool) → ((s : ℕ) → p s ≡ true → q s ≡ true) → count n p ≤ count n q
unfolding count
count_mono zero p q h = omega arith
count_mono (suc n) p q h = ground (arith, h n, count_mono n p q h)

pub total-count_valid :
    (c : Calculator) → IsValid c → total c.hit_ranges ≡ count u64_mod (λ s. covered s c.hit_ranges)
total-count_valid c v =
    total-count u64_mod 0 c.hit_ranges
      (IsWithin-mono 0 c.hit_ranges u64_mod (u64_mod + 1) (omega arith) v)

total-lt : (lo : ℕ) (rs : List Range) (hi : ℕ) → 0 < hi → IsWithin lo rs hi → total rs < hi
total-lt lo [] hi p w = p
total-lt lo (r ∷ rs) hi p w =
    omega (arith, total-le (r.end + 1) rs hi w.2, IsWithin-le (r.end + 1) rs hi w.2)

pub total_bound : (c : Calculator) → IsValid c → total c.hit_ranges < u64_mod
total_bound c v = total-lt 0 c.hit_ranges u64_mod (omega arith) v

-- The cached maximum covers the present ranges.
abbrev pub IsCurrent : Calculator → Type 0
IsCurrent c = c.is_max_fresh ≡ true → total c.hit_ranges ≤ c.max_workset

pub get_workset-total :
    (c : Calculator)
    → IsValid c
    → IsCurrent c
    → get_workset c ≡ max c.max_workset (total c.hit_ranges)
unfolding get_workset
get_workset-total c v k = ground (
  arith,
  sum_lengths-total 0 0 c.hit_ranges u64_mod v (omega arith) (omega (arith, total_bound c v)),
  k,
)

get_workset-remove_found :
    (x : Range) (c : Calculator) (o : Option Position)
    → get_workset (remove_found x c o).0 ≡ get_workset c
unfolding get_workset
get_workset-remove_found x c none = refl
get_workset-remove_found x c (some p) = ground arith

-- A removal never changes what getWorkset reports.
pub get_workset-remove_range :
    (begin len : ℕ) (c : Calculator) → get_workset (remove_range begin len c).0 ≡ get_workset c
unfolding remove_range
get_workset-remove_range begin len c =
    let x : Range = record { begin = begin; end = add64 begin len } in
    get_workset-remove_found x c (set_find x c.hit_ranges)

pub remove_found-IsCurrent :
    (x : Range) (c : Calculator) (o : Option Position)
    → total (remove_found x c o).0.hit_ranges ≤ get_workset c
    → IsCurrent c
    → IsCurrent (remove_found x c o).0
unfolding get_workset
remove_found-IsCurrent x c none h k = k
remove_found-IsCurrent x c (some p) h k = ground arith
