-- ===== src/IoStatisticsSet/Lookup.antt =====
-- What IoStatisticsSet::count and IoStatisticsSet::addDevice of
-- source/octf/analytics/statistics/IoStatisticsSet.cpp do to the entries of the devices.
use open_cas_telemetry_frame.Prelude.{
  ℕ, suc, ◌≤◌, ◌<◌, ◌≡◌, refl, ap, ◌≢◌, inl, inr, true, false, Option, none, some, List, [], ◌∷◌,
  arith, ltb, ◌==◌, ltb→lt, Bool-cases,
}
use open_cas_telemetry_frame.IoStatisticsSet.{Key, lookup, emplace, erase, modify}

-- The ids grow, from `lo` on.
abbrev pub IsSorted : {S V : Type 0} → ℕ → List (Key S × V) → Type 0
IsSorted lo [] = Unit {0}
IsSorted lo (x ∷ xs) = (lo ≤ x.0.id) × IsSorted (suc x.0.id) xs

abbrev value_or : {A : Type 0} → A → Option A → A
value_or d none = d
value_or d (some x) = x

module _ {S V : Type 0} where
  lookup-below : (lo i : ℕ) (xs : List (Key S × V)) → IsSorted lo xs → i < lo → lookup xs i ≡ none
  unfolding lookup
  lookup-below lo i [] s h = refl
  lookup-below lo i (x ∷ xs) s h =
      let rest = lookup-below (suc x.0.id) i xs s.1 (omega (arith, s.0)) in
      let other : (x.0.id == i) ≡ false = ground (arith, s.0) in rw other rest

  IsSorted-le : (lo lo' : ℕ) (xs : List (Key S × V)) → lo' ≤ lo → IsSorted lo xs → IsSorted lo' xs
  IsSorted-le lo lo' [] h s = tt
  IsSorted-le lo lo' (x ∷ xs) h s = (omega (arith, s.0), s.1)

  pub emplace-IsSorted :
      (lo : ℕ) (e : Key S × V) (xs : List (Key S × V))
      → lo ≤ e.0.id
      → IsSorted lo xs
      → IsSorted lo (emplace e xs)
  unfolding emplace
  emplace-IsSorted lo e [] h s = (h, tt)
  emplace-IsSorted lo e (x ∷ xs) h s = elim (Bool-cases (ltb e.0.id x.0.id)) [
    | inl first ↦ rw first (h, (ltb→lt e.0.id x.0.id first, s.1))
    | inr later ↦ elim (Bool-cases (ltb x.0.id e.0.id)) [
      | inl after ↦
          rw later
            (rw after (s.0, emplace-IsSorted (suc x.0.id) e xs (ltb→lt x.0.id e.0.id after) s.1))
      | inr there ↦ rw later (rw there s)
    ]
  ]

  pub erase-IsSorted :
      (lo i : ℕ) (xs : List (Key S × V)) → IsSorted lo xs → IsSorted lo (erase i xs)
  unfolding erase
  erase-IsSorted lo i [] s = tt
  erase-IsSorted lo i (x ∷ xs) s = elim (Bool-cases (x.0.id == i)) [
    | inl here ↦ rw here (IsSorted-le (suc x.0.id) lo xs (omega (arith, s.0)) s.1)
    | inr other ↦ rw other (s.0, erase-IsSorted (suc x.0.id) i xs s.1)
  ]

  pub modify-IsSorted :
      (f : V → V) (lo i : ℕ) (xs : List (Key S × V)) → IsSorted lo xs → IsSorted lo (modify f i xs)
  unfolding modify
  modify-IsSorted f lo i [] s = tt
  modify-IsSorted f lo i (x ∷ xs) s = elim (Bool-cases (x.0.id == i)) [
    | inl here ↦ rw here s
    | inr other ↦ rw other (s.0, modify-IsSorted f (suc x.0.id) i xs s.1)
  ]

  -- An entry whose id is not there yet.
  pub lookup-emplace :
      (e : Key S × V) (xs : List (Key S × V))
      → lookup xs e.0.id ≡ none
      → lookup (emplace e xs) e.0.id ≡ some e
  unfolding lookup emplace
  lookup-emplace e [] h = let same : (e.0.id == e.0.id) ≡ true = ground arith in rw same refl
  lookup-emplace e (x ∷ xs) h = elim (Bool-cases (x.0.id == e.0.id)) [
    | inl here ↦ ground arith
    | inr other ↦
        let rest = lookup-emplace e xs (rw other at h) in
        let same : (e.0.id == e.0.id) ≡ true = ground arith in
        elim (Bool-cases (ltb e.0.id x.0.id)) [
          | inl first ↦ rw first (rw same refl)
          | inr later ↦
              let after : ltb x.0.id e.0.id ≡ true = ground arith in
              rw later (rw after (rw other rest))
        ]
  ]

  pub lookup-emplace_other :
      (e : Key S × V) (j : ℕ) (xs : List (Key S × V))
      → e.0.id ≢ j
      → lookup (emplace e xs) j ≡ lookup xs j
  unfolding lookup emplace
  lookup-emplace_other e j [] h = ground arith
  lookup-emplace_other e j (x ∷ xs) h = ground (arith, lookup-emplace_other e j xs h)

  pub lookup-erase :
      (lo i : ℕ) (xs : List (Key S × V)) → IsSorted lo xs → lookup (erase i xs) i ≡ none
  unfolding lookup erase
  lookup-erase lo i [] s = refl
  lookup-erase lo i (x ∷ xs) s = elim (Bool-cases (x.0.id == i)) [
    | inl here ↦ rw here (lookup-below (suc x.0.id) i xs s.1 (ground arith))
    | inr other ↦ rw other (rw other (lookup-erase (suc x.0.id) i xs s.1))
  ]

  pub lookup-erase_other :
      (i j : ℕ) (xs : List (Key S × V)) → i ≢ j → lookup (erase i xs) j ≡ lookup xs j
  unfolding lookup erase
  lookup-erase_other i j [] h = refl
  lookup-erase_other i j (x ∷ xs) h = ground (arith, lookup-erase_other i j xs h)

  pub lookup-modify :
      (f : V → V) (i : ℕ) (xs : List (Key S × V)) (e : Key S × V)
      → lookup xs i ≡ some e
      → lookup (modify f i xs) i ≡ some (e.0, f e.1)
  unfolding lookup modify
  lookup-modify f i [] e h = ground arith
  lookup-modify f i (x ∷ xs) e h = elim (Bool-cases (x.0.id == i)) [
    | inl here ↦
        let same : x ≡ e = ap (value_or x) (rw here at h) in
        rw here (rw here (ap (λ (z : Key S × V). some (z.0, f z.1)) same))
    | inr other ↦ rw other (rw other (lookup-modify f i xs e (rw other at h)))
  ]

  pub lookup-modify_other :
      (f : V → V) (i j : ℕ) (xs : List (Key S × V)) → i ≢ j → lookup (modify f i xs) j ≡ lookup xs j
  unfolding lookup modify
  lookup-modify_other f i j [] h = refl
  lookup-modify_other f i j (x ∷ xs) h = ground (arith, lookup-modify_other f i j xs h)
