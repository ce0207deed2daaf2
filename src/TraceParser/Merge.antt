-- ===== src/TraceParser/Merge.antt =====
-- One step of the merge of source/octf/trace/parser/TraceFileParser.cpp.
use open_cas_telemetry_frame.Prelude.{
  ℕ, suc, ◌+◌, ◌≤◌, ◌≡◌, refl, ap, subst, ◌⊎◌, inl, inr, Bool, true, false, Option, none, some,
  List, [], ◌∷◌, arith, ltb, ◌==◌, ltb→lt, Bool-cases,
}
use open_cas_telemetry_frame.TraceParser.{Parser, insert_event, reader_at}

abbrev pub num : Bool → ℕ
num true = 1
num false = 0

-- How many of the events that wait in the set and in the files pass the test `f`.
abbrev pub count_in : {E : Type 0} → (E → Bool) → List (ℕ × E) → ℕ
count_in f [] = 0
count_in f (x ∷ xs) = num (f x.1) + count_in f xs

abbrev pub count_file : {E : Type 0} → (E → Bool) → List (Option E) → ℕ
count_file f [] = 0
count_file f (none ∷ r) = count_file f r
count_file f (some e ∷ r) = num (f e) + count_file f r

abbrev pub count_files : {E : Type 0} → (E → Bool) → List (List (Option E)) → ℕ
count_files f [] = 0
count_files f (r ∷ rs) = count_file f r + count_files f rs

abbrev pub pending : {E : Type 0} → (E → Bool) → Parser E → ℕ
pending f p = count_in f p.events + count_files f p.readers

-- An event that waits for its queue.
abbrev pub IsIn : {E : Type 0} → ℕ → E → List (ℕ × E) → Type 0
IsIn q e [] = ⊥
IsIn q e (x ∷ xs) = ((x.0 ≡ q) × (x.1 ≡ e)) ⊎ IsIn q e xs

module _ {E : Type 0} (key : E → ℕ) where
  -- The keys rise, and start with `m` or later; a file moreover is read without an exception.
  abbrev pub AreRising : ℕ → List (ℕ × E) → Type 0
  AreRising m [] = Unit {0}
  AreRising m (x ∷ xs) = (m ≤ key x.1) × AreRising (suc (key x.1)) xs

  abbrev pub Follows : ℕ → List (Option E) → Type 0
  Follows m [] = Unit {0}
  Follows m (none ∷ r) = ⊥
  Follows m (some e ∷ r) = (m ≤ key e) × Follows (suc (key e)) r

  -- A file that is not read to its end has an event in the set, which its other events follow.
  abbrev pub HasLead : ℕ → List (Option E) → List (ℕ × E) → Type 0
  HasLead q [] es = Unit {0}
  HasLead q (x ∷ r) es = (e : E) × IsIn q e es × Follows (suc (key e)) (x ∷ r)

  abbrev pub has_key : ℕ → E → Bool
  has_key k e = key e == k

  pub record IsMerging (m : ℕ) (p : Parser E) : Type 0 where
    pub rising : AreRising m p.events
    pub led : (q : ℕ) → HasLead q (reader_at q p.readers) p.events
    pub distinct : (k : ℕ) → pending (has_key k) p ≤ 1

  pub AreRising-IsIn :
      (m q : ℕ) (e : E) (es : List (ℕ × E)) → AreRising m es → IsIn q e es → m ≤ key e
  AreRising-IsIn m q e [] h i = absurd i
  AreRising-IsIn m q e (x ∷ xs) h (inl (a, b)) = subst (λ (y : E). m ≤ key y) b h.0
  AreRising-IsIn m q e (x ∷ xs) h (inr i) =
      omega (arith, h.0, AreRising-IsIn (suc (key x.1)) q e xs h.1 i)

  pub insert_event-AreRising :
      (m : ℕ) (e : ℕ × E) (es : List (ℕ × E))
      → m ≤ key e.1
      → AreRising m es
      → AreRising m (insert_event key e es)
  unfolding insert_event
  insert_event-AreRising m e [] le h = (le, tt)
  insert_event-AreRising m e (x ∷ xs) le h = elim (Bool-cases (ltb (key e.1) (key x.1))) [
    | inl before ↦ rw before (le, (ltb→lt _ _ before, h.1))
    | inr not_before ↦ rw not_before (elim (Bool-cases (ltb (key x.1) (key e.1))) [
      | inl behind ↦
          rw behind (h.0, insert_event-AreRising (suc (key x.1)) e xs (ltb→lt _ _ behind) h.1)
      | inr same ↦ rw same h
    ])
  ]

  -- A set without the key of `e` has no event that is equivalent to `e`.
  not_equivalent :
      (e x : ℕ × E) (xs : List (ℕ × E))
      → count_in (has_key (key e.1)) (x ∷ xs) ≡ 0
      → ltb (key e.1) (key x.1) ≡ false
      → ltb (key x.1) (key e.1) ≡ false
      → ⊥
  not_equivalent e x xs new a b = elim (Bool-cases (key x.1 == key e.1)) [
    | inl same ↦ let one : num (key x.1 == key e.1) ≡ 1 = ap num same in omega (arith, new, one)
    | inr other ↦ ground arith
  ]

  -- An event whose key is not in the set is not dropped.
  pub insert_event-count :
      (f : E → Bool) (e : ℕ × E) (es : List (ℕ × E))
      → count_in (has_key (key e.1)) es ≡ 0
      → count_in f (insert_event key e es) ≡ num (f e.1) + count_in f es
  unfolding insert_event
  insert_event-count f e [] new = refl
  insert_event-count f e (x ∷ xs) new = elim (Bool-cases (ltb (key e.1) (key x.1))) [
    | inl before ↦ rw before refl
    | inr not_before ↦ rw not_before (elim (Bool-cases (ltb (key x.1) (key e.1))) [
      | inl behind ↦ rw behind (omega (arith, insert_event-count f e xs (omega (arith, new))))
      | inr same ↦ absurd (not_equivalent e x xs new not_before same)
    ])
  ]

  pub insert_event-IsIn :
      (e : ℕ × E) (es : List (ℕ × E))
      → count_in (has_key (key e.1)) es ≡ 0
      → IsIn e.0 e.1 (insert_event key e es)
  unfolding insert_event
  insert_event-IsIn e [] new = inl (refl, refl)
  insert_event-IsIn e (x ∷ xs) new = elim (Bool-cases (ltb (key e.1) (key x.1))) [
    | inl before ↦ rw before (inl (refl, refl))
    | inr not_before ↦ rw not_before (elim (Bool-cases (ltb (key x.1) (key e.1))) [
      | inl behind ↦ rw behind (inr (insert_event-IsIn e xs (omega (arith, new))))
      | inr same ↦ absurd (not_equivalent e x xs new not_before same)
    ])
  ]

  pub insert_event-keeps :
      (e : ℕ × E) (q : ℕ) (y : E) (es : List (ℕ × E))
      → IsIn q y es
      → IsIn q y (insert_event key e es)
  unfolding insert_event
  insert_event-keeps e q y [] i = absurd i
  insert_event-keeps e q y (x ∷ xs) i = elim (Bool-cases (ltb (key e.1) (key x.1))) [
    | inl before ↦ rw before (inr i)
    | inr not_before ↦ rw not_before (elim (Bool-cases (ltb (key x.1) (key e.1))) [
      | inl behind ↦ rw behind (keep_tail x xs i (λ j. insert_event-keeps e q y xs j))
      | inr same ↦ rw same i
    ])
  ]
    where
      keep_tail :
          (x : ℕ × E) (xs : List (ℕ × E))
          → IsIn q y (x ∷ xs)
          → (IsIn q y xs → IsIn q y (insert_event key e xs))
          → IsIn q y (x ∷ insert_event key e xs)
      keep_tail x xs (inl h) more = inl h
      keep_tail x xs (inr h) more = inr (more h)
