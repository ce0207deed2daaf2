-- ===== src/Workset.antt =====
-- source/octf/analytics/statistics/WorksetCalculator.{h,cpp}: the union of the sectors that the I/O
-- requests touched, kept as a set of disjoint ranges.
pub mod Ordered
pub mod Insert
pub mod Remove
pub mod Gap
pub mod Total
pub mod Spec
pub mod Reported
mod Tests
use open_cas_telemetry_frame.Prelude.{
  ℕ, ◌+◌, ◌-◌, min, max, Bool, true, false, ◌&&◌, ◌||◌, List, [], ◌∷◌, ◌++◌, Option, none, some,
  ltb, leb, ◌==◌, if◌then◌else◌, add64, sub64,
}

pub record Range : Type 0 where
  pub begin : ℕ
  pub end : ℕ

-- `Range::doRangesOverlap`: ranges that only touch overlap too.
unfoldable pub overlap : Range → Range → Bool
overlap r s = leb r.begin s.end && leb s.begin r.end

-- `Range::operator<`, the order of the set: overlapping ranges count as equal.
unfoldable pub range_lt : Range → Range → Bool
unfolding overlap
range_lt r s = if overlap r s then false else ltb r.begin s.begin

-- `std::set<Range>` as the list of its elements in order. An element is absent or present up to
-- the equivalence that `range_lt` gives, as in the standard library.
pub set_insert : Range → List Range → List Range
unfolding range_lt
set_insert x [] = x ∷ []
set_insert x (r ∷ rs) =
    let rest = set_insert x rs in
    if range_lt r x then r ∷ rest else if range_lt x r then x ∷ r ∷ rs else r ∷ rs

-- What `find` returns: the elements before the iterator, the one at it, those after it.
pub record Position : Type 0 where
  pub before : List Range
  pub hit : Range
  pub after : List Range

abbrev pub prepend : Range → Option Position → Option Position
prepend r none = none
prepend r (some p) = some (record p { before = r ∷ p.before })

pub set_find : Range → List Range → Option Position
unfolding range_lt
set_find x [] = none
set_find x (r ∷ rs) =
    let rest = prepend r (set_find x rs) in
    if range_lt r x
    then rest
    else if range_lt x r
    then none
    else some (record { before = []; hit = r; after = rs })

pub record Calculator : Type 0 where
  pub hit_ranges : List Range
  pub max_workset : ℕ
  pub is_max_fresh : Bool

pub empty : Calculator
empty = record { hit_ranges = []; max_workset = 0; is_max_fresh = true }

-- The loop of `mergeRanges`: it drops what overlaps the new range and keeps the largest end.
pub absorb : Range → ℕ → List Range → ℕ × List Range
unfolding overlap
absorb x max_end [] = (max_end, [])
absorb x max_end (r ∷ rs) =
    let rest = absorb x (max max_end r.end) rs in if overlap x r then rest else (max_end, r ∷ rs)

pub merge_ranges : Range → Position → List Range
unfolding absorb set_insert
merge_ranges x p =
    if leb p.hit.begin x.begin && leb x.end p.hit.end
    then p.before ++ p.hit ∷ p.after
    else let (max_end, rest) = absorb x (max p.hit.end x.end) p.after in
      set_insert (record { begin = min p.hit.begin x.begin; end = max_end }) (p.before ++ rest)

abbrev pub merge_or_insert : Range → List Range → Option Position → List Range
merge_or_insert x rs none = set_insert x rs
merge_or_insert x rs (some p) = merge_ranges x p

pub insert_range : ℕ → ℕ → Calculator → Calculator
unfolding set_find merge_ranges set_insert
insert_range begin len c =
    if len == 0
    then c
    else let x : Range = record { begin = begin; end = add64 begin len } in
      record c {
        hit_ranges = merge_or_insert x c.hit_ranges (set_find x c.hit_ranges);
        is_max_fresh = false;
      }

-- The accumulating loop of `getWorkset`.
pub sum_lengths : ℕ → List Range → ℕ
sum_lengths workset [] = workset
sum_lengths workset (r ∷ rs) = sum_lengths (add64 workset (sub64 r.end r.begin)) rs

pub get_workset : Calculator → ℕ
unfolding sum_lengths
get_workset c =
    if c.is_max_fresh then c.max_workset else max c.max_workset (sum_lengths 0 c.hit_ranges)

-- The default `Range()`, which stands for a piece that is not there.
abbrev pub no_range : Range
no_range = record { begin = 0; end = 0 }

abbrev pub split_begin : Range → Range → Range
split_begin x r =
    if ltb r.begin x.begin then record { begin = r.begin; end = x.begin } else no_range

abbrev pub split_end : Range → Range → Range
split_end x r = if ltb x.end r.end then record { begin = x.end; end = r.end } else no_range

-- The flag `removeRange` of one round.
abbrev pub is_removed : Range → Range → Bool
is_removed x r = ltb r.begin x.begin || (ltb x.end r.end || (r.end == x.end && r.begin == x.begin))

abbrev pub add_piece : Range → List Range × ℕ → List Range × ℕ
add_piece p (before, removed) =
    if p.begin == p.end
    then (before, removed)
    else (set_insert p before, sub64 removed (sub64 p.end p.begin))

-- One round of the loop at the element `r`: what stands before the iterator afterwards, and
-- `lengthRemoved`. The set is ordered, so the pieces of `r` go before the element after `r`.
pub remove_step : Range → Range → List Range → ℕ → List Range × ℕ
unfolding set_insert
remove_step x r before removed =
    if is_removed x r
    then add_piece (split_end x r)
        (add_piece (split_begin x r) (before, add64 removed (sub64 r.end r.begin)))
    else (before ++ r ∷ [], removed)

pub remove_loop : Range → List Range → List Range → ℕ → List Range × ℕ
unfolding overlap remove_step
remove_loop x before [] removed = (before, removed)
remove_loop x before (r ∷ rs) removed =
    let step = remove_step x r before removed in
    let rest = remove_loop x step.0 rs step.1 in
    if overlap x r then rest else (before ++ r ∷ rs, removed)

-- `m_max` is brought up to date before the first range goes.
abbrev pub refresh_max : Calculator → Calculator
refresh_max c =
    if c.is_max_fresh
    then c
    else record c { max_workset = max (get_workset c) c.max_workset; is_max_fresh = true }

abbrev pub remove_found : Range → Calculator → Option Position → Calculator × ℕ
remove_found x c none = (c, 0)
remove_found x c (some p) =
    let loop = remove_loop x p.before (p.hit ∷ p.after) 0 in
    (record (refresh_max c) { hit_ranges = loop.0 }, loop.1)

-- `removeRange`: the new state and the length that it reports.
pub remove_range : ℕ → ℕ → Calculator → Calculator × ℕ
unfolding set_find remove_loop get_workset
remove_range begin len c =
    let x : Range = record { begin = begin; end = add64 begin len } in
    remove_found x c (set_find x c.hit_ranges)
