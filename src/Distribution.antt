-- ===== src/Distribution.antt =====
-- source/octf/analytics/statistics/Distribution.{h,cpp}: a histogram with buckets that grow by powers of
-- a base. The unit, a label, is left out; std::pow is taken exact, which it is below 2 ^ 53.
use open_cas_telemetry_frame.Prelude.{
  ℕ, zero, suc, ◌+◌, ◌-◌, ◌*◌, ◌/◌, ◌%◌, ◌^◌, ◌≤◌, ◌<◌, min, max, ◌≡◌, refl, sym, ap, ap₂, ◌∙◌,
  subst, ◌≢◌, ◌↔◌, ◌⊎◌, inl, inr, Bool, true, false, ◌&&◌, ◌||◌, not, Option, none, some, List, [],
  ◌∷◌, ◌++◌, map, append-nil, append_assoc, arith, dec_lt, dec_le, ℕ_discrete, ltb, leb, ◌==◌,
  if◌then◌else◌, ltb→lt, lt→ltb, leb→le, ==_iff, Bool-cases, Option-cases, length, take, drop,
  replicate, set, get_or, length-append, take-append-drop, length-replicate, length-set, take-all,
  take-take, take_add, take-nil, length-take_le, take-prefix, drop-prefix, take-within, drop-within,
  length-take, length-drop, u64_mod, add64, sub64, mul64,
}
pub mod Level
pub mod Adding
pub mod Counting
pub mod Summary
mod Tests

abbrev pub power : ℕ → ℕ → ℕ
power b zero = 1
power b (suc n) = power b n * b

-- `Distribution::Bucket`.
pub record Bucket : Type 0 where
  pub level : ℕ
  pub ranges_count : ℕ
  pub begin : ℕ
  pub end : ℕ
  pub range_size : ℕ
  pub sum : List ℕ
  pub count : List ℕ

-- `Bucket(level, ranges, base)`.
abbrev pub bucket_begin : ℕ → ℕ → ℕ → ℕ
bucket_begin zero ranges base = 0
bucket_begin (suc level) ranges base = power base level * ranges

abbrev pub bucket_end : ℕ → ℕ → ℕ → ℕ
bucket_end level ranges base = power base level * ranges - 1

abbrev pub make_bucket : ℕ → ℕ → ℕ → Bucket
make_bucket level ranges base =
    let begin = bucket_begin level ranges base in
    let end = bucket_end level ranges base in
    record {
      level = level;
      ranges_count = ranges;
      begin = begin;
      end = end;
      range_size = add64 (sub64 end begin) 1 / ranges;
      sum = replicate ranges 0;
      count = replicate ranges 0;
    }

-- `Bucket::operator+=`, with `none` for its exceptions.
abbrev pub range_id : Bucket → ℕ → ℕ
range_id b value = sub64 value b.begin / b.range_size

unfoldable pub bucket_add : Bucket → ℕ → Option Bucket
bucket_add b value =
    let id = range_id b value in
    if ltb value b.begin || ltb b.end value
    then none
    else if ltb id b.ranges_count
    then some (record b {
      sum = set b.sum id (add64 (get_or b.sum id 0) value);
      count = set b.count id (add64 (get_or b.count id 0) 1);
    })
    else none

pub record Distribution : Type 0 where
  pub ranges : ℕ
  pub base : ℕ
  pub total : ℕ
  pub count : ℕ
  pub min_value : ℕ
  pub max_value : ℕ
  pub histogram : List Bucket

-- The constructor, with `none` for its exception.
unfoldable pub new_distribution : ℕ → ℕ → Option Distribution
new_distribution ranges base =
    if ltb base 2
    then none
    else some (record {
      ranges = ranges;
      base = base;
      total = 0;
      count = 0;
      min_value = u64_mod - 1;
      max_value = 0;
      histogram = [];
    })

-- The loop of `getBucket`: the level of a value. `none` stands for a loop that has not ended.
unfoldable pub find_level : ℕ → Distribution → ℕ → ℕ → ℕ → ℕ → Option ℕ
find_level zero d level base end value = if ltb end value then none else some level
find_level (suc k) d level base end value =
    let base' = mul64 base d.base in
    let rest = find_level k d (suc level) base' (sub64 (mul64 base' d.ranges) 1) value in
    if ltb end value then rest else some level

-- The rounds that `find_level` is given.
abbrev pub level_bound : ℕ
level_bound = 64

-- The buckets that `getBucket` adds, from the level `j`.
unfoldable pub buckets : ℕ → ℕ → ℕ → ℕ → List Bucket
buckets ranges base j zero = []
buckets ranges base j (suc n) = make_bucket j ranges base ∷ buckets ranges base (suc j) n

abbrev pub grow : Distribution → ℕ → List Bucket
grow d level =
    let size = length d.histogram in
    if leb size level
    then d.histogram ++ buckets d.ranges d.base size (level + 1 - size)
    else d.histogram

abbrev pub no_bucket : Bucket
no_bucket = record {
  level = 0;
  ranges_count = 0;
  begin = 0;
  end = 0;
  range_size = 0;
  sum = [];
  count = [];
}

-- What `Distribution::operator+=` ends with; an exception leaves what was changed before it.
pub data Added : Type 0 where
  added thrown : Distribution → Added
  endless : Added

abbrev pub put_bucket : Distribution → ℕ → Option Bucket → Added
put_bucket d level none = thrown d
put_bucket d level (some b) = added (record d { histogram = set d.histogram level b })

abbrev pub add_at : Distribution → ℕ → Option ℕ → Added
add_at d value none = endless
add_at d value (some level) =
    let d' = record d { histogram = grow d level } in
    put_bucket d' level (bucket_add (get_or d'.histogram level no_bucket) value)

-- `getBucket` up to the level.
abbrev pub level_of : Distribution → ℕ → Option ℕ
level_of d value = find_level level_bound d 0 1 (sub64 d.ranges 1) value

-- `Distribution::operator+=`.
unfoldable pub add : Distribution → ℕ → Added
add d value =
    let d' = record d {
      total = add64 d.total value;
      count = add64 d.count 1;
      min_value = min d.min_value value;
      max_value = max d.max_value value;
    } in
    add_at d' value (level_of d' value)

-- `getStatistics` less the percentiles, which are floating point.
pub record Statistics : Type 0 where
  pub average : ℕ
  pub least : ℕ
  pub greatest : ℕ
  pub sum_of_values : ℕ

unfoldable pub get_statistics : Distribution → Statistics
get_statistics d = record {
  average = if d.count == 0 then 0 else d.total / d.count;
  least = if d.count == 0 then 0 else d.min_value;
  greatest = d.max_value;
  sum_of_values = d.total;
}

-- `getHistogram`: the begin, the end and the count of each range.
abbrev pub bucket_rows : ℕ → ℕ → ℕ → List ℕ → List (ℕ × ℕ × ℕ)
bucket_rows size range_begin range_end [] = []
bucket_rows size range_begin range_end (n ∷ ns) =
    (range_begin, range_end, n)
    ∷ bucket_rows size (add64 range_begin size) (add64 range_end size) ns

abbrev pub histogram_rows : List Bucket → List (ℕ × ℕ × ℕ)
histogram_rows [] = []
histogram_rows (b ∷ bs) =
    bucket_rows b.range_size b.begin (sub64 (add64 b.begin b.range_size) 1) b.count
    ++ histogram_rows bs

unfoldable pub get_histogram : Distribution → List (ℕ × ℕ × ℕ)
get_histogram d = if d.count == 0 then [] else histogram_rows d.histogram
