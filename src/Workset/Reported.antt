-- ===== src/Workset/Reported.antt =====
-- The length that removeRange of WorksetCalculator returns.
use open_cas_telemetry_frame.Prelude.{
  ℕ, ◌+◌, ◌-◌, ◌≤◌, ◌<◌, ◌≡◌, refl, ap, ◌∙◌, subst, inl, inr, Option, none, some, List, [], ◌∷◌,
  ◌++◌, arith, Bool-cases, u64_mod,
}
use open_cas_telemetry_frame.Workset.{
  Range, Position, Calculator, set_find, overlap, remove_step, remove_loop, remove_range,
  remove_found,
}
use open_cas_telemetry_frame.Workset.Ordered.{
  IsOrdered, IsWithin, set_find-IsFound, IsOrdered-append, IsOrdered-of_within,
  IsWithin-append_right, IsWithin-le,
}
use open_cas_telemetry_frame.Workset.Insert.{IsValid}
use open_cas_telemetry_frame.Workset.Remove.{pieces, remainder, remove_loop_lem, overlap_bounds}
use open_cas_telemetry_frame.Workset.Gap.{remove_range_lem}
use open_cas_telemetry_frame.Workset.Total.{total, total_bound}

total-append : (rs ss : List Range) → total (rs ++ ss) ≡ total rs + total ss
total-append [] ss = omega arith
total-append (r ∷ rs) ss = omega (arith, total-append rs ss)

reported_step :
    (x r : Range) (before : List Range) (removed : ℕ)
    → x.begin < x.end
    → x.begin ≤ r.end
    → r.begin ≤ x.end
    → r.begin < r.end
    → r.end < u64_mod
    → removed + (r.end - r.begin) < u64_mod
    → (remove_step x r before removed).1 + total (pieces x r) ≡ removed + (r.end - r.begin)
unfolding remove_step
reported_step x r before removed n l u m b h = ground arith

reported_loop :
    (x : Range) (before : List Range) (lo : ℕ) (rs : List Range) (removed : ℕ)
    → x.begin < x.end
    → IsWithin lo rs u64_mod
    → removed + total rs < u64_mod
    → (remove_loop x before rs removed).1 + total (remainder x rs) ≡ removed + total rs
unfolding remove_loop
reported_loop x before lo [] removed n w h = refl
reported_loop x before lo (r ∷ rs) removed n w h = elim (Bool-cases (overlap x r)) [
  | inl hit ↦
      let t = overlap_bounds x r hit in
      let step =
        reported_step x r before removed n t.0 t.1 w.1
          (omega (arith, IsWithin-le (r.end + 1) rs u64_mod w.2)) (omega arith) in
      rw hit (
        omega (
          arith,
          step,
          total-append (pieces x r) (remainder x rs),
          reported_loop x (remove_step x r before removed).0 (r.end + 1) rs
              (remove_step x r before removed).1 n w.2 (omega (arith, step)),
        ))
  | inr miss ↦ rw miss
]

reported_found :
    (x : Range) (c : Calculator) (o : Option Position)
    → set_find x c.hit_ranges ≡ o
    → x.begin < x.end
    → IsValid c
    → let (c', removed) = remove_found x c o in removed + total c'.hit_ranges ≡ total c.hit_ranges
reported_found x c none e n v = omega arith
reported_found x c (some p) e n v =
    let o = IsOrdered-of_within 0 c.hit_ranges u64_mod v in
    let f = set_find-IsFound 0 x c.hit_ranges p (omega arith) (omega arith) o e in
    let t = IsOrdered-append 0 p.before p.hit p.after (subst (IsOrdered 0) f.parts o) in
    let out =
      remove_loop_lem x p.before p.hit.begin (p.hit ∷ p.after) 0 n t.0 (omega arith, t.1, t.2) in
    let w =
      IsWithin-append_right 0 p.before p.hit p.after u64_mod
        (subst (λ rs. IsWithin 0 rs u64_mod) f.parts v) in
    let sum = ap total f.parts ∙ total-append p.before (p.hit ∷ p.after) in
    omega (
      arith,
      reported_loop x p.before p.hit.begin (p.hit ∷ p.after) 0 n w
          (omega (arith, sum, total_bound c v)),
      ap total out ∙ total-append p.before (remainder x (p.hit ∷ p.after)),
      sum,
    )

-- `removeRange` with a length other than 0 that does not wrap returns by how much the summed length
-- of the stored ranges falls.
pub total-remove_range :
    (begin len : ℕ) (c : Calculator)
    → begin + len < u64_mod
    → 0 < len
    → IsValid c
    → let (c', removed) = remove_range begin len c in
      removed + total c'.hit_ranges ≡ total c.hit_ranges
total-remove_range begin len c h n v =
    let x : Range = record { begin = begin; end = begin + len } in
    rw (remove_range_lem begin len c h)
      (reported_found x c (set_find x c.hit_ranges) refl (omega arith) v)
