-- ===== src/Workset/Remove.antt =====
-- removeRange of WorksetCalculator: which sectors stay, and the length that it reports.
use open_cas_telemetry_frame.Prelude.{
  ℕ, ◌+◌, ◌≤◌, ◌<◌, ◌≡◌, refl, sym, ◌∙◌, ap, subst, ◌||◌, ◌&&◌, not, List, [], ◌∷◌, ◌++◌, arith,
  append-nil, append_assoc, Bool-cases, inl, inr, leb, ltb, ltb→lt, ◌==◌, Bool, true, false,
  if◌then◌else◌, ℕ_discrete, ◌≢◌, ◌⊎◌,
}
use open_cas_telemetry_frame.Workset.{
  Range, overlap, set_insert, is_removed, add_piece, split_begin, split_end, remove_step,
  remove_loop,
}
use open_cas_telemetry_frame.Workset.Ordered.{
  inside, covered, IsOrdered, IsWithin, IsWithin-mono, IsOrdered-mono, IsWithin-snoc,
  IsWithin-concat, IsWithin-append, set_insert_between,
}

abbrev pub piece : Range → List Range
piece p = if p.begin == p.end then [] else p ∷ []

-- What is left of a range that `x` overlaps.
abbrev pub pieces : Range → Range → List Range
pieces x r = if is_removed x r then piece (split_begin x r) ++ piece (split_end x r) else r ∷ []

-- What the loop leaves from the first range that `x` overlaps on.
abbrev pub remainder : Range → List Range → List Range
remainder x [] = []
remainder x (r ∷ rs) =
    let rest = remainder x rs in if overlap x r then pieces x r ++ rest else r ∷ rs

set_insert_last :
    (lo : ℕ) (before : List Range) (x : Range)
    → IsWithin lo before x.begin
    → x.begin < x.end
    → set_insert x before ≡ before ++ x ∷ []
set_insert_last lo before x w n =
    ap (set_insert x) (sym (append-nil before)) ∙ set_insert_between lo before x [] w n tt

pub overlap_bounds : (x r : Range) → overlap x r ≡ true → (x.begin ≤ r.end) × (r.begin ≤ x.end)
unfolding overlap
overlap_bounds x r h = ground arith

pub overlap_missed : (x r : Range) → overlap x r ≡ false → (r.end < x.begin) ⊎ (x.end < r.begin)
unfolding overlap
overlap_missed x r h = ground arith

add_piece_lem :
    (p : Range) (t : List Range × ℕ)
    → (p.begin ≢ p.end → IsWithin 0 t.0 p.begin × (p.begin < p.end))
    → (add_piece p t).0 ≡ t.0 ++ piece p
add_piece_lem p t h = elim (ℕ_discrete p.begin p.end) [
  | yes e ↦ ground (arith, append-nil t.0)
  | no ne ↦ ground (arith, set_insert_last 0 t.0 p (h ne).0 (h ne).1)
]

module _ (x r : Range) (before : List Range) (removed : ℕ) (n : x.begin < x.end)
    (l : x.begin ≤ r.end) (u : r.begin ≤ x.end) (m : r.begin < r.end)
    (w : IsWithin 0 before r.begin) where
  first_piece :
      (add_piece (split_begin x r) (before, removed)).0 ≡ before ++ piece (split_begin x r)
  first_piece = add_piece_lem (split_begin x r) (before, removed) (λ ne. ground arith)

  IsWithin-first : IsWithin 0 (before ++ piece (split_begin x r)) x.end
  IsWithin-first = elim (Bool-cases (ltb r.begin x.begin)) [
    | inl cut ↦
        let lt = ltb→lt r.begin x.begin cut in
        let sb : Range = record { begin = r.begin; end = x.begin } in
        let w' =
          IsWithin-mono 0 (before ++ sb ∷ []) (x.begin + 1) x.end (omega arith)
            (IsWithin-snoc 0 before r.begin sb w (omega arith) lt) in
        rw cut (ground (arith, w'))
    | inr all ↦ rw all (rw append-nil (IsWithin-mono 0 before r.begin x.end u w))
  ]

  both_pieces :
      (add_piece (split_end x r) (add_piece (split_begin x r) (before, removed))).0
      ≡ before ++ piece (split_begin x r) ++ piece (split_end x r)
  both_pieces =
      add_piece_lem (split_end x r) (add_piece (split_begin x r) (before, removed))
        (λ ne. rw first_piece (ground (arith, IsWithin-first)))
      ∙ ap (λ t. t ++ piece (split_end x r)) first_piece

remove_step_lem :
    (x r : Range) (before : List Range) (removed : ℕ)
    → x.begin < x.end
    → x.begin ≤ r.end
    → r.begin ≤ x.end
    → r.begin < r.end
    → IsWithin 0 before r.begin
    → (remove_step x r before removed).0 ≡ before ++ pieces x r
unfolding remove_step
remove_step_lem x r before removed n l u m w = elim (Bool-cases (is_removed x r)) [
  | inl cut ↦ rw cut (
      both_pieces x r before _ n l u m w
      ∙ append_assoc before (piece (split_begin x r)) (piece (split_end x r)))
  | inr kept ↦ rw kept
]

pieces-IsWithin :
    (x r : Range)
    → x.begin < x.end
    → x.begin ≤ r.end
    → r.begin ≤ x.end
    → r.begin < r.end
    → IsWithin r.begin (pieces x r) (r.end + 1)
pieces-IsWithin x r n l u m = ground arith

pub remove_loop_lem :
    (x : Range) (before : List Range) (lo : ℕ) (rs : List Range) (removed : ℕ)
    → x.begin < x.end
    → IsWithin 0 before lo
    → IsOrdered lo rs
    → (remove_loop x before rs removed).0 ≡ before ++ remainder x rs
unfolding remove_loop
remove_loop_lem x before lo [] removed n w o = sym (append-nil before)
remove_loop_lem x before lo (r ∷ rs) removed n w o = elim (Bool-cases (overlap x r)) [
  | inl hit ↦ rw hit (
      let t = overlap_bounds x r hit in
      let w' = IsWithin-mono 0 before lo r.begin o.0 w in
      let step = remove_step_lem x r before removed n t.0 t.1 o.1 w' in
      let w'' =
        subst (λ b. IsWithin 0 b (r.end + 1)) (sym step)
          (IsWithin-concat 0 before r.begin (pieces x r) (r.end + 1) w'
            (pieces-IsWithin x r n t.0 t.1 o.1)) in
      remove_loop_lem x (remove_step x r before removed).0 (r.end + 1) rs
        (remove_step x r before removed).1 n w'' o.2
      ∙ ap (λ b. b ++ remainder x rs) step
      ∙ append_assoc before (pieces x r) (remainder x rs))
  | inr miss ↦ rw miss
]

pub remainder-IsOrdered :
    (x : Range) (lo : ℕ) (rs : List Range)
    → x.begin < x.end
    → IsOrdered lo rs
    → IsOrdered lo (remainder x rs)
remainder-IsOrdered x lo [] n o = tt
remainder-IsOrdered x lo (r ∷ rs) n o = elim (Bool-cases (overlap x r)) [
  | inl hit ↦
      let t = overlap_bounds x r hit in
      rw hit (
        IsOrdered-mono lo r.begin _ o.0 (
          IsWithin-append r.begin (pieces x r) (r.end + 1) (remainder x rs)
            (pieces-IsWithin x r n t.0 t.1 o.1) (remainder-IsOrdered x (r.end + 1) rs n o.2)))
  | inr miss ↦ rw miss o
]

-- The case in which the code leaves a range alone that it should remove: `x` covers it and is not
-- equal to it.
abbrev pub swallows : Range → Range → Bool
swallows x r =
    leb x.begin r.begin && (leb r.end x.end && not (r.end == x.end && r.begin == x.begin))

-- Sector `s` is in a range of the set, and either outside `x` or in a range that `x` swallows.
abbrev pub survives : Range → ℕ → List Range → Bool
survives x s [] = false
survives x s (r ∷ rs) = (inside s r && (not (inside s x) || swallows x r)) || survives x s rs

pub covered-pieces :
    (x r : Range) (s : ℕ)
    → x.begin < x.end
    → x.begin ≤ r.end
    → r.begin ≤ x.end
    → r.begin < r.end
    → covered s (pieces x r) ≡ (inside s r && (not (inside s x) || swallows x r))
covered-pieces x r s n l u m = ground arith

-- Past the first range that `x` misses, nothing changes.
pub survives_above :
    (x : Range) (s lo : ℕ) (rs : List Range)
    → x.end < lo
    → IsOrdered lo rs
    → survives x s rs ≡ covered s rs
survives_above x s lo [] h o = refl
survives_above x s lo (r ∷ rs) h o =
    ground (arith, survives_above x s (r.end + 1) rs (omega arith) o.2)
