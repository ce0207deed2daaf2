-- ===== src/Workset/Insert.antt =====
-- insertRange of source/octf/analytics/statistics/WorksetCalculator.cpp, and the sectors that are
-- covered after it.
use open_cas_telemetry_frame.Prelude.{
  ℕ, zero, suc, ◌+◌, ◌≤◌, ◌<◌, ◌≡◌, refl, subst, ◌||◌, List, [], ◌∷◌, ◌++◌, min, max, some, none,
  inl, inr, arith, Option-cases, Bool-cases, u64_mod, leb, ltb, ◌&&◌, Option, Bool,
}
use open_cas_telemetry_frame.Workset.{
  Range, Position, Calculator, overlap, range_lt, set_insert, set_find, absorb, merge_ranges,
  merge_or_insert, insert_range,
}
use open_cas_telemetry_frame.Workset.Ordered.{
  inside, covered, IsOrdered, IsWithin, IsWithin-append, IsOrdered-append, covered-append,
  set_insert_between, IsFound, set_find-IsFound, IsWithin-min, IsOrdered-of_within, covered_within,
  IsWithin-of_covered,
}

set_insert-IsOrdered :
    (lo : ℕ) (x : Range) (rs : List Range)
    → set_find x rs ≡ none
    → lo ≤ x.begin
    → x.begin < x.end
    → IsOrdered lo rs
    → IsOrdered lo (set_insert x rs)
unfolding set_insert set_find range_lt overlap
set_insert-IsOrdered lo x [] e h n o = (h, n, tt)
set_insert-IsOrdered lo x (r ∷ rs) e h n o = elim (Option-cases (set_find x rs)) [
  | inl missing ↦ ground (arith, missing, set_insert-IsOrdered (r.end + 1) x rs missing)
  | inr (q, hit) ↦ ground (arith, hit)
]

covered-set_insert :
    (s : ℕ) (x : Range) (rs : List Range)
    → set_find x rs ≡ none
    → covered s (set_insert x rs) ≡ (inside s x || covered s rs)
unfolding set_insert set_find range_lt overlap
covered-set_insert s x [] e = refl
covered-set_insert s x (r ∷ rs) e = elim (Option-cases (set_find x rs)) [
  | inl missing ↦ ground (arith, missing, covered-set_insert s x rs missing)
  | inr (q, hit) ↦ ground (arith, hit)
]

-- What the loop of mergeRanges leaves, started at the end `e` of the range that `find` hit.
record IsAbsorbed (x : Range) (e : ℕ) (rs : List Range) (out : ℕ × List Range) : Type 0 where
  grows : max e x.end ≤ out.0
  rest : IsOrdered (out.0 + 1) out.1
  same :
      (s b : ℕ)
      → b ≤ x.begin
      → (inside s (record { begin = b; end = max e x.end }) || covered s rs)
        ≡ (inside s (record { begin = b; end = out.0 }) || covered s out.1)

absorb-IsAbsorbed :
    (x : Range) (e : ℕ) (rs : List Range)
    → x.begin < x.end
    → x.begin ≤ e
    → IsOrdered (e + 1) rs
    → IsAbsorbed x e rs (absorb x (max e x.end) rs)
unfolding absorb overlap
absorb-IsAbsorbed x e [] n h o = record { grows = omega arith; rest = tt; same = λ s b k. refl }
absorb-IsAbsorbed x e (r ∷ rs) n h o = record {
  grows = ground (arith, absorb-IsAbsorbed x r.end rs n);
  rest = ground (arith, absorb-IsAbsorbed x r.end rs n);
  same = λ s b k. ground (
    arith,
    absorb-IsAbsorbed x r.end rs n,
    (absorb-IsAbsorbed x r.end rs n (omega arith) o.2).same s b k,
  );
}

-- `rs` with the range `x` added: still ordered, and covering one range more.
pub record IsAdded (lo : ℕ) (x : Range) (rs out : List Range) : Type 0 where
  pub ordered : IsOrdered lo out
  pub same : (s : ℕ) → covered s out ≡ (inside s x || covered s rs)

module _ (lo : ℕ) (x : Range) (rs : List Range) (p : Position) where
  merged : Range
  merged = record {
    begin = min p.hit.begin x.begin;
    end = (absorb x (max p.hit.end x.end) p.after).0;
  }

  module _ (n : x.begin < x.end) (o : IsOrdered lo rs) (f : IsFound lo x rs p) where
    found_parts :
        IsWithin lo p.before p.hit.begin
        × (p.hit.begin < p.hit.end)
        × IsOrdered (p.hit.end + 1) p.after
    found_parts = IsOrdered-append lo p.before p.hit p.after (subst (IsOrdered lo) f.parts o)

    absorbed : IsAbsorbed x p.hit.end p.after (absorb x (max p.hit.end x.end) p.after)
    absorbed = absorb-IsAbsorbed x p.hit.end p.after n f.upper found_parts.2

    IsWithin-merged : IsWithin lo p.before merged.begin
    unfolding merged
    IsWithin-merged = IsWithin-min lo p.before p.hit.begin x.begin found_parts.0 f.below

    set_insert-merged :
        set_insert merged (p.before ++ (absorb x (max p.hit.end x.end) p.after).1)
        ≡ p.before ++ merged ∷ (absorb x (max p.hit.end x.end) p.after).1
    unfolding merged
    set_insert-merged =
        set_insert_between lo p.before merged _ IsWithin-merged (omega (arith, absorbed.grows))
          absorbed.rest

    merged-IsAdded :
        IsAdded lo x rs (p.before ++ merged ∷ (absorb x (max p.hit.end x.end) p.after).1)
    unfolding merged
    merged-IsAdded = record {
      ordered =
          IsWithin-append lo p.before merged.begin _ IsWithin-merged
            (omega arith, omega (arith, absorbed.grows), absorbed.rest);
      same = λ s. rw f.parts (
          ground (
            arith,
            covered-append s p.before (merged ∷ (absorb x (max p.hit.end x.end) p.after).1),
            covered-append s p.before (p.hit ∷ p.after),
            absorbed.same s merged.begin (omega arith),
            found_parts,
            f.lower,
            f.upper,
          ));
    }

    merge_ranges-IsAdded : IsAdded lo x rs (merge_ranges x p)
    unfolding merge_ranges merged
    merge_ranges-IsAdded = elim (Bool-cases (leb p.hit.begin x.begin && leb x.end p.hit.end)) [
      | inl sub ↦ rw sub (record {
        ordered = subst (IsOrdered lo) f.parts o;
        same = λ s. rw f.parts (ground (arith, covered-append s p.before (p.hit ∷ p.after), sub));
      })
      | inr new ↦ rw new (rw set_insert-merged merged-IsAdded)
    ]

insert-IsAdded :
    (lo : ℕ) (x : Range) (rs : List Range) (o : Option Position)
    → set_find x rs ≡ o
    → x.begin < x.end
    → lo ≤ x.begin
    → IsOrdered lo rs
    → IsAdded lo x rs (merge_or_insert x rs o)
insert-IsAdded lo x rs none e n l o = record {
  ordered = set_insert-IsOrdered lo x rs e l n o;
  same = λ s. covered-set_insert s x rs e;
}
insert-IsAdded lo x rs (some p) e n l o =
    merge_ranges-IsAdded lo x rs p n o (set_find-IsFound lo x rs p (omega arith) l o e)

-- The class invariant: nonempty ranges in ascending order with a gap between neighbours, all in the
-- range of a uint64_t.
abbrev pub IsValid : Calculator → Type 0
IsValid c = IsWithin 0 c.hit_ranges u64_mod

-- The sectors of a request.
abbrev pub requested : ℕ → ℕ → ℕ → Bool
requested begin len s = leb begin s && ltb s (begin + len)

insert_range-IsAdded :
    (begin len : ℕ) (c : Calculator)
    → begin + len < u64_mod
    → 0 < len
    → IsValid c
    → IsAdded 0
        (record { begin = begin; end = begin + len })
        c.hit_ranges
        (insert_range begin len c).hit_ranges
unfolding insert_range
insert_range-IsAdded begin len c h n v =
    let x : Range = record { begin = begin; end = begin + len } in
    ground (
      arith,
      insert-IsAdded 0 x c.hit_ranges (set_find x c.hit_ranges) refl (omega arith) (omega arith)
          (IsOrdered-of_within 0 c.hit_ranges u64_mod v),
    )

insert_range-IsValid :
    (begin len : ℕ) (c : Calculator) (rs : List Range)
    → begin + len < u64_mod
    → IsValid c
    → IsAdded 0 (record { begin = begin; end = begin + len }) c.hit_ranges rs
    → IsWithin 0 rs u64_mod
insert_range-IsValid begin len c rs h v a =
    IsWithin-of_covered 0 rs u64_mod (omega arith) a.ordered
      (λ s e. ground (arith, a.same s, covered_within s 0 c.hit_ranges u64_mod v))

pub insert_range-zero : (begin : ℕ) (c : Calculator) → insert_range begin 0 c ≡ c
unfolding insert_range
insert_range-zero begin c = refl

-- After `insertRange` of a range that does not wrap, exactly the sectors of that range and those
-- covered before are covered, and the ranges are again nonempty, disjoint, not touching, in order
-- and below 2^64. A range of length 0 adds nothing.
pub covered-insert_range :
    (begin len : ℕ) (c : Calculator)
    → begin + len < u64_mod
    → IsValid c
    → IsValid (insert_range begin len c)
      × ((s : ℕ)
          → covered s (insert_range begin len c).hit_ranges
            ≡ (requested begin len s || covered s c.hit_ranges))
covered-insert_range begin zero c h v = rw insert_range-zero (v, λ s. ground arith)
covered-insert_range begin (suc len) c h v =
    let a = insert_range-IsAdded begin (suc len) c h (omega arith) v in
    (insert_range-IsValid begin (suc len) c _ h v a, a.same)
