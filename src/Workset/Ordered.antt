-- ===== src/Workset/Ordered.antt =====
-- The invariant of the range set of WorksetCalculator, the sectors that a set covers, and the
-- operations of the ordered set under the invariant.
use open_cas_telemetry_frame.Prelude.{
  ℕ, ◌+◌, ◌-◌, min, ◌≤◌, ◌<◌, ◌≡◌, refl, Bool, true, false, ◌&&◌, ◌||◌, List, [], ◌∷◌, ◌++◌, Option,
  some, none, ltb, leb, arith, if◌then◌else◌,
}
use open_cas_telemetry_frame.Workset.{
  Range, Position, overlap, range_lt, set_insert, set_find, prepend,
}

abbrev pub inside : ℕ → Range → Bool
inside x r = leb r.begin x && ltb x r.end

abbrev pub covered : ℕ → List Range → Bool
covered x [] = false
covered x (r ∷ rs) = inside x r || covered x rs

-- Nonempty ranges from `lo` on, in ascending order, with a gap between neighbours.
abbrev pub IsOrdered : ℕ → List Range → Type 0
IsOrdered lo [] = Unit {0}
IsOrdered lo (r ∷ rs) = (lo ≤ r.begin) × (r.begin < r.end) × IsOrdered (r.end + 1) rs

-- The same, and a range that starts at `hi` or later may follow.
abbrev pub IsWithin : ℕ → List Range → ℕ → Type 0
IsWithin lo [] hi = lo ≤ hi
IsWithin lo (r ∷ rs) hi = (lo ≤ r.begin) × (r.begin < r.end) × IsWithin (r.end + 1) rs hi

pub IsOrdered-mono : (l m : ℕ) (rs : List Range) → l ≤ m → IsOrdered m rs → IsOrdered l rs
IsOrdered-mono l m [] h o = tt
IsOrdered-mono l m (r ∷ rs) h o = (omega arith, o.1, o.2)

pub IsWithin-le : (lo : ℕ) (rs : List Range) (hi : ℕ) → IsWithin lo rs hi → lo ≤ hi
IsWithin-le lo [] hi w = w
IsWithin-le lo (r ∷ rs) hi w = omega (arith, IsWithin-le (r.end + 1) rs hi w.2)

pub IsWithin-mono :
    (lo : ℕ) (rs : List Range) (hi hi' : ℕ) → hi ≤ hi' → IsWithin lo rs hi → IsWithin lo rs hi'
IsWithin-mono lo [] hi hi' h w = omega arith
IsWithin-mono lo (r ∷ rs) hi hi' h w = (w.0, w.1, IsWithin-mono (r.end + 1) rs hi hi' h w.2)

pub IsWithin-min :
    (lo : ℕ) (rs : List Range) (a b : ℕ)
    → IsWithin lo rs a
    → IsWithin lo rs b
    → IsWithin lo rs (min a b)
IsWithin-min lo [] a b v w = omega arith
IsWithin-min lo (r ∷ rs) a b v w = (v.0, v.1, IsWithin-min (r.end + 1) rs a b v.2 w.2)

pub IsWithin-append :
    (lo : ℕ) (rs : List Range) (hi : ℕ) (ss : List Range)
    → IsWithin lo rs hi
    → IsOrdered hi ss
    → IsOrdered lo (rs ++ ss)
IsWithin-append lo [] hi ss w o = IsOrdered-mono lo hi ss w o
IsWithin-append lo (r ∷ rs) hi ss w o = (w.0, w.1, IsWithin-append (r.end + 1) rs hi ss w.2 o)

pub IsWithin-concat :
    (lo : ℕ) (rs : List Range) (mid : ℕ) (ss : List Range) (hi : ℕ)
    → IsWithin lo rs mid
    → IsWithin mid ss hi
    → IsWithin lo (rs ++ ss) hi
IsWithin-concat lo [] mid [] hi v w = omega arith
IsWithin-concat lo [] mid (s ∷ ss) hi v w = (omega arith, w.1, w.2)
IsWithin-concat lo (r ∷ rs) mid ss hi v w =
    (v.0, v.1, IsWithin-concat (r.end + 1) rs mid ss hi v.2 w)

pub IsWithin-snoc :
    (lo : ℕ) (rs : List Range) (hi : ℕ) (x : Range)
    → IsWithin lo rs hi
    → hi ≤ x.begin
    → x.begin < x.end
    → IsWithin lo (rs ++ x ∷ []) (x.end + 1)
IsWithin-snoc lo [] hi x w h n = omega arith
IsWithin-snoc lo (r ∷ rs) hi x w h n = (w.0, w.1, IsWithin-snoc (r.end + 1) rs hi x w.2 h n)

pub IsOrdered-append :
    (lo : ℕ) (rs : List Range) (h : Range) (ss : List Range)
    → IsOrdered lo (rs ++ h ∷ ss)
    → IsWithin lo rs h.begin × (h.begin < h.end) × IsOrdered (h.end + 1) ss
IsOrdered-append lo [] h ss o = o
IsOrdered-append lo (r ∷ rs) h ss o =
    let t = IsOrdered-append (r.end + 1) rs h ss o.2 in ((o.0, o.1, t.0), t.1, t.2)

pub IsWithin-append_right :
    (lo : ℕ) (rs : List Range) (h : Range) (ss : List Range) (hi : ℕ)
    → IsWithin lo (rs ++ h ∷ ss) hi
    → IsWithin h.begin (h ∷ ss) hi
IsWithin-append_right lo [] h ss hi w = (omega arith, w.1, w.2)
IsWithin-append_right lo (r ∷ rs) h ss hi w = IsWithin-append_right (r.end + 1) rs h ss hi w.2

pub covered-append :
    (x : ℕ) (rs ss : List Range) → covered x (rs ++ ss) ≡ (covered x rs || covered x ss)
covered-append x [] ss = refl
covered-append x (r ∷ rs) ss = ground (arith, covered-append x rs ss)

-- Below the first range nothing is covered.
pub covered_below : (x lo : ℕ) (rs : List Range) → IsOrdered lo rs → x < lo → covered x rs ≡ false
covered_below x lo [] o h = refl
covered_below x lo (r ∷ rs) o h = ground (arith, covered_below x (r.end + 1) rs o.2)

pub covered_above :
    (x lo : ℕ) (rs : List Range) (hi : ℕ) → IsWithin lo rs hi → hi ≤ x → covered x rs ≡ false
covered_above x lo [] hi w h = refl
covered_above x lo (r ∷ rs) hi w h =
    ground (arith, covered_above x (r.end + 1) rs hi w.2, IsWithin-le (r.end + 1) rs hi w.2)

pub IsOrdered-of_within : (lo : ℕ) (rs : List Range) (hi : ℕ) → IsWithin lo rs hi → IsOrdered lo rs
IsOrdered-of_within lo [] hi w = tt
IsOrdered-of_within lo (r ∷ rs) hi w = (w.0, w.1, IsOrdered-of_within (r.end + 1) rs hi w.2)

pub covered_within :
    (s lo : ℕ) (rs : List Range) (hi : ℕ) → IsWithin lo rs hi → covered s rs ≡ true → s + 1 < hi
covered_within s lo [] hi w e = cc
covered_within s lo (r ∷ rs) hi w e =
    ground (arith, covered_within s (r.end + 1) rs hi w.2, IsWithin-le (r.end + 1) rs hi w.2)

-- The bound of a set follows from the sectors that it covers.
pub IsWithin-of_covered :
    (lo : ℕ) (rs : List Range) (hi : ℕ)
    → lo ≤ hi
    → IsOrdered lo rs
    → ((s : ℕ) → covered s rs ≡ true → s + 1 < hi)
    → IsWithin lo rs hi
IsWithin-of_covered lo [] hi l o h = l
IsWithin-of_covered lo (r ∷ rs) hi l o h = (
  o.0,
  o.1,
  IsWithin-of_covered (r.end + 1) rs hi (ground (arith, h (r.end - 1))) o.2
      (λ s e. h s (ground arith)),
)

-- A range that starts past all of `before` and ends before all of `after` is put between them.
pub set_insert_between :
    (lo : ℕ) (before : List Range) (x : Range) (after : List Range)
    → IsWithin lo before x.begin
    → x.begin < x.end
    → IsOrdered (x.end + 1) after
    → set_insert x (before ++ after) ≡ before ++ x ∷ after
unfolding set_insert range_lt overlap
set_insert_between lo [] x [] w n o = refl
set_insert_between lo [] x (a ∷ after) w n o = ground arith
set_insert_between lo (r ∷ before) x after w n o = ground (
  arith,
  set_insert_between (r.end + 1) before x after w.2 n o,
  IsWithin-le (r.end + 1) before x.begin w.2,
)

-- What `find` says of a set from `lo` on: it is `before`, `hit`, `after`; all of `before` ends before
-- `x` starts, and `hit` overlaps `x`.
pub record IsFound (lo : ℕ) (x : Range) (rs : List Range) (p : Position) : Type 0 where
  pub below : IsWithin lo p.before x.begin
  pub parts : rs ≡ p.before ++ p.hit ∷ p.after
  pub lower : p.hit.begin ≤ x.end
  pub upper : x.begin ≤ p.hit.end

-- One step of `find`, given what it finds in the rest of the set.
IsFound-step :
    (lo : ℕ) (x r : Range) (rs : List Range) (o : Option Position) (p : Position)
    → x.begin ≤ x.end
    → lo ≤ r.begin
    → lo ≤ x.begin
    → r.begin < r.end
    → ((q : Position) → r.end + 1 ≤ x.begin → o ≡ some q → IsFound (r.end + 1) x rs q)
    → (if range_lt r x
        then prepend r o
        else if range_lt x r
        then none
        else some (record { before = []; hit = r; after = rs }))
      ≡ some p
    → IsFound lo x (r ∷ rs) p
unfolding range_lt overlap
IsFound-step lo x r rs none p n l k m ih e = ground arith
IsFound-step lo x r rs (some q) p n l k m ih e =
    ground (arith, λ (h : r.end + 1 ≤ x.begin). ih q h refl)

pub set_find-IsFound :
    (lo : ℕ) (x : Range) (rs : List Range) (p : Position)
    → x.begin ≤ x.end
    → lo ≤ x.begin
    → IsOrdered lo rs
    → set_find x rs ≡ some p
    → IsFound lo x rs p
unfolding set_find
set_find-IsFound lo x [] p n l o e = cc
set_find-IsFound lo x (r ∷ rs) p n l o e =
    IsFound-step lo x r rs (set_find x rs) p n o.0 l o.1
      (λ q k h. set_find-IsFound (r.end + 1) x rs q n k o.2 h) e
