-- ===== src/Workset/Gap.antt =====
-- Which sectors removeRange of WorksetCalculator leaves covered, from the code's own round by round
-- behaviour.
use open_cas_telemetry_frame.Prelude.{
  ℕ, ◌+◌, ◌≤◌, ◌<◌, ◌≡◌, refl, sym, ◌∙◌, ap, subst, ◌||◌, ◌&&◌, not, List, [], ◌∷◌, ◌++◌, some,
  none, arith, Option-cases, Bool-cases, inl, inr, u64_mod, Option, Bool, true, false,
}
use open_cas_telemetry_frame.Workset.{
  Range, Position, Calculator, overlap, range_lt, set_find, remove_found, remove_range,
}
use open_cas_telemetry_frame.Workset.Ordered.{
  inside, covered, IsOrdered, IsWithin, IsWithin-append, IsOrdered-append, IsWithin-le,
  covered-append, set_find-IsFound, IsOrdered-of_within, covered_within, IsWithin-of_covered,
}
use open_cas_telemetry_frame.Workset.Insert.{IsValid, requested}
use open_cas_telemetry_frame.Workset.Remove.{
  pieces, remainder, remove_loop_lem, remainder-IsOrdered, swallows, survives, covered-pieces,
  survives_above, overlap_bounds, overlap_missed,
}

covered-remainder_above :
    (x : Range) (s lo : ℕ) (rs : List Range)
    → x.begin < x.end
    → x.begin ≤ lo
    → IsOrdered lo rs
    → covered s (remainder x rs) ≡ survives x s rs
covered-remainder_above x s lo [] n l o = refl
covered-remainder_above x s lo (r ∷ rs) n l o = elim (Bool-cases (overlap x r)) [
  | inl hit ↦
      let t = overlap_bounds x r hit in
      rw hit (
        rw (
          covered-append s (pieces x r) (remainder x rs),
          covered-pieces x r s n t.0 t.1 o.1,
          covered-remainder_above x s (r.end + 1) rs n (omega arith) o.2,
        ))
  | inr miss ↦
      rw miss (ground (arith, overlap_missed x r miss, survives_above x s (x.end + 1) (r ∷ rs)))
]

-- At the first range that `find` hits.
covered-remainder :
    (x : Range) (s : ℕ) (h : Range) (rs : List Range)
    → x.begin < x.end
    → x.begin ≤ h.end
    → h.begin ≤ x.end
    → h.begin < h.end
    → IsOrdered (h.end + 1) rs
    → covered s (remainder x (h ∷ rs)) ≡ survives x s (h ∷ rs)
unfolding overlap
covered-remainder x s h rs n l u m o =
    let hit : overlap x h ≡ true = ground arith in
    rw hit (
      rw (
        covered-append s (pieces x h) (remainder x rs),
        covered-pieces x h s n l u m,
        covered-remainder_above x s (h.end + 1) rs n (omega arith) o,
      ))

-- What ends before `x` survives.
survives-append :
    (x : Range) (s lo : ℕ) (before rs : List Range)
    → x.begin < x.end
    → IsWithin lo before x.begin
    → survives x s (before ++ rs) ≡ (covered s before || survives x s rs)
survives-append x s lo [] rs n w = refl
survives-append x s lo (r ∷ before) rs n w = ground (
  arith,
  survives-append x s (r.end + 1) before rs n w.2,
  IsWithin-le (r.end + 1) before x.begin w.2,
)

survives_missed :
    (x : Range) (s lo : ℕ) (rs : List Range)
    → x.begin < x.end
    → IsOrdered lo rs
    → set_find x rs ≡ none
    → survives x s rs ≡ covered s rs
unfolding set_find range_lt overlap
survives_missed x s lo [] n o e = refl
survives_missed x s lo (r ∷ rs) n o e = elim (Option-cases (set_find x rs)) [
  | inl miss ↦ ground (
    arith,
    miss,
    survives_missed x s (r.end + 1) rs n o.2 miss,
    survives_above x s (r.end + 1) rs,
  )
  | inr (q, hit) ↦ ground (arith, hit, survives_above x s (r.end + 1) rs)
]

-- `rs` with `x` taken out the way the code does it.
record IsCut (x : Range) (rs out : List Range) : Type 0 where
  ordered : IsOrdered 0 out
  same : (s : ℕ) → covered s out ≡ survives x s rs

remove_found-IsCut :
    (x : Range) (c : Calculator) (o : Option Position)
    → set_find x c.hit_ranges ≡ o
    → x.begin < x.end
    → IsOrdered 0 c.hit_ranges
    → IsCut x c.hit_ranges (remove_found x c o).0.hit_ranges
remove_found-IsCut x c none e n o = record {
  ordered = o;
  same = λ s. sym (survives_missed x s 0 c.hit_ranges n o e);
}
remove_found-IsCut x c (some p) e n o =
    let f = set_find-IsFound 0 x c.hit_ranges p (omega arith) (omega arith) o e in
    let t = IsOrdered-append 0 p.before p.hit p.after (subst (IsOrdered 0) f.parts o) in
    let out =
      remove_loop_lem x p.before p.hit.begin (p.hit ∷ p.after) 0 n t.0 (omega arith, t.1, t.2) in
    record {
      ordered = rw out (
          IsWithin-append 0 p.before p.hit.begin _ t.0
            (remainder-IsOrdered x p.hit.begin (p.hit ∷ p.after) n (omega arith, t.1, t.2)));
      same = λ s. rw out (
          rw f.parts (
            rw (
              survives-append x s 0 p.before (p.hit ∷ p.after) n f.below,
              covered-append s p.before (remainder x (p.hit ∷ p.after)),
              covered-remainder x s p.hit p.after n f.upper f.lower t.1 t.2,
            )));
    }

-- Where the end of the range does not wrap.
pub remove_range_lem :
    (begin len : ℕ) (c : Calculator)
    → begin + len < u64_mod
    → let x : Range = record { begin = begin; end = begin + len } in
      remove_range begin len c ≡ remove_found x c (set_find x c.hit_ranges)
unfolding remove_range
remove_range_lem begin len c h =
    ap
      (λ e.
        let x : Range = record { begin = begin; end = e } in
        remove_found x c (set_find x c.hit_ranges))
      (omega arith)

pub covered_of_survives :
    (x : Range) (s : ℕ) (rs : List Range) → survives x s rs ≡ true → covered s rs ≡ true
covered_of_survives x s [] e = e
covered_of_survives x s (r ∷ rs) e = ground (arith, covered_of_survives x s rs)

abbrev pub swallows_any : Range → List Range → Bool
swallows_any x [] = false
swallows_any x (r ∷ rs) = swallows x r || swallows_any x rs

survives_exact :
    (x : Range) (s : ℕ) (rs : List Range)
    → swallows_any x rs ≡ false
    → survives x s rs ≡ (covered s rs && not (inside s x))
survives_exact x s [] e = refl
survives_exact x s (r ∷ rs) e = ground (arith, survives_exact x s rs)

survives_swallowed :
    (x : Range) (s : ℕ) (before : List Range) (r : Range) (after : List Range)
    → swallows x r ≡ true
    → inside s r ≡ true
    → survives x s (before ++ r ∷ after) ≡ true
survives_swallowed x s [] r after h e = ground arith
survives_swallowed x s (b ∷ before) r after h e =
    ground (arith, survives_swallowed x s before r after h e)

-- `removeRange` with a length other than 0 that does not wrap leaves exactly the sectors that were
-- covered and are outside the removed range or in a stored range that the removed range covers
-- without being equal to it. The ranges are again nonempty, disjoint, not touching, in order and
-- below 2^64.
pub covered-remove_range :
    (begin len : ℕ) (c : Calculator)
    → begin + len < u64_mod
    → 0 < len
    → IsValid c
    → IsValid (remove_range begin len c).0
      × ((s : ℕ)
          → covered s (remove_range begin len c).0.hit_ranges
            ≡ survives (record { begin = begin; end = begin + len }) s c.hit_ranges)
covered-remove_range begin len c h n v =
    let x : Range = record { begin = begin; end = begin + len } in
    let cut =
      remove_found-IsCut x c (set_find x c.hit_ranges) refl (omega arith)
        (IsOrdered-of_within 0 c.hit_ranges u64_mod v) in
    let e = remove_range_lem begin len c h in
    rw e (
      IsWithin-of_covered 0 _ u64_mod (omega arith) cut.ordered (λ s k.
          covered_within s 0 c.hit_ranges u64_mod v
            (covered_of_survives x s c.hit_ranges (sym (cut.same s) ∙ k))),
      cut.same,
    )

-- Where no stored range lies in the removed range without being equal to it, `removeRange` takes out
-- exactly the sectors of the removed range.
pub covered-remove_range_exact :
    (begin len : ℕ) (c : Calculator)
    → begin + len < u64_mod
    → 0 < len
    → IsValid c
    → swallows_any (record { begin = begin; end = begin + len }) c.hit_ranges ≡ false
    → (s : ℕ)
    → covered s (remove_range begin len c).0.hit_ranges
      ≡ (covered s c.hit_ranges && not (requested begin len s))
covered-remove_range_exact begin len c h n v e s =
    (covered-remove_range begin len c h n v).1 s
    ∙ survives_exact (record { begin = begin; end = begin + len }) s c.hit_ranges e

-- A stored range that lies in the removed range and is not equal to it stays whole: after the
-- removal each of its sectors is still covered, although it was asked to be removed.
pub remove_range_keeps_swallowed :
    (begin len : ℕ) (c : Calculator) (before : List Range) (r : Range) (after : List Range)
    → begin + len < u64_mod
    → 0 < len
    → IsValid c
    → c.hit_ranges ≡ before ++ r ∷ after
    → swallows (record { begin = begin; end = begin + len }) r ≡ true
    → (s : ℕ) → inside s r ≡ true
    → (covered s (remove_range begin len c).0.hit_ranges ≡ true) × (requested begin len s ≡ true)
remove_range_keeps_swallowed begin len c before r after h n v e w s i =
    let x : Range = record { begin = begin; end = begin + len } in
    (
      (covered-remove_range begin len c h n v).1 s
          ∙ ap (survives x s) e
          ∙ survives_swallowed x s before r after w i,
      ground arith,
    )
