-- ===== src/TraceParser/Step.antt =====
-- `parseTraceEvent` of source/octf/trace/parser/TraceFileParser.cpp hands out the least event that waits.
use open_cas_telemetry_frame.Prelude.{
  ℕ, zero, suc, ◌+◌, ◌≤◌, ◌≡◌, refl, sym, ap, subst, ◌≢◌, inl, inr, Bool, true, false, ◌&&◌, Option,
  none, some, List, [], ◌∷◌, arith, ℕ_discrete, ◌==◌, Bool-cases,
}
use open_cas_telemetry_frame.TraceParser.{
  Parser, insert_event, reader_at, set_reader, is_empty, all_finished, is_finished, parsed, refill,
  parse_first, parse_trace_event,
}
use open_cas_telemetry_frame.TraceParser.Merge.{
  num, count_in, count_file, count_files, pending, IsIn, Follows, HasLead, has_key, IsMerging,
  AreRising-IsIn, insert_event-AreRising, insert_event-count, insert_event-IsIn, insert_event-keeps,
}

reader-set :
    {E : Type 0} (q : ℕ) (x : Option E) (r r' : List (Option E)) (rs : List (List (Option E)))
    → reader_at q rs ≡ x ∷ r
    → reader_at q (set_reader q r' rs) ≡ r'
reader-set q x r r' [] h = ground arith
reader-set zero x r r' (y ∷ ys) h = refl
reader-set (suc q) x r r' (y ∷ ys) h = reader-set q x r r' ys h

reader-set_other :
    {E : Type 0} (q q' : ℕ) (r : List (Option E)) (rs : List (List (Option E)))
    → q ≢ q'
    → reader_at q' (set_reader q r rs) ≡ reader_at q' rs
reader-set_other q q' r [] h = refl
reader-set_other zero zero r (y ∷ ys) h = absurd (h refl)
reader-set_other zero (suc q') r (y ∷ ys) h = refl
reader-set_other (suc q) zero r (y ∷ ys) h = refl
reader-set_other (suc q) (suc q') r (y ∷ ys) h = reader-set_other q q' r ys (omega arith)

count_files-set :
    {E : Type 0} (f : E → Bool) (q : ℕ) (e : E) (r : List (Option E)) (rs : List (List (Option E)))
    → reader_at q rs ≡ some e ∷ r
    → count_files f rs ≡ num (f e) + count_files f (set_reader q r rs)
count_files-set f q e r [] h = ground arith
count_files-set f zero e r (y ∷ ys) h = omega (arith, ap (count_file f) h)
count_files-set f (suc q) e r (y ∷ ys) h = omega (arith, count_files-set f q e r ys h)

pub num_same : (n : ℕ) → num (n == n) ≡ 1
num_same n = elim (Bool-cases (n == n)) [ inl e ↦ rw e refl | inr e ↦ ground arith ]

-- Where the set is empty and has a lead of every file, all files are read to their end.
leads-all_finished :
    {E : Type 0} (key : E → ℕ) (i : ℕ) (rs : List (List (Option E)))
    → ((q : ℕ) → HasLead key (i + q) (reader_at q rs) [])
    → all_finished rs ≡ true
leads-all_finished key i [] h = refl
leads-all_finished key i ([] ∷ rs) h =
    leads-all_finished key (suc i) rs
      (λ q. subst (λ (n : ℕ). HasLead key n (reader_at q rs) []) (omega arith) (h (suc q)))
leads-all_finished key i ((x ∷ r) ∷ rs) h = absurd ((h zero).1)

module _ {E : Type 0} (key : E → ℕ) where
  drop_lead :
      (q q' : ℕ) (e : E) (r : List (Option E)) (es : List (ℕ × E))
      → q ≢ q'
      → HasLead key q' r ((q, e) ∷ es)
      → HasLead key q' r es
  drop_lead q q' e [] es other h = tt
  drop_lead q q' e (x ∷ r) es other (y, inl (a, b), after) = absurd (other a)
  drop_lead q q' e (x ∷ r) es other (y, inr i, after) = (y, i, after)

  pub keep_lead :
      (q : ℕ) (r : List (Option E)) (es es' : List (ℕ × E))
      → ((y : E) → IsIn q y es → IsIn q y es')
      → HasLead key q r es
      → HasLead key q r es'
  keep_lead q [] es es' more h = tt
  keep_lead q (x ∷ r) es es' more (y, i, after) = (y, more y i, after)

  pub make_lead :
      (q : ℕ) (e : E) (r : List (Option E)) (es : List (ℕ × E))
      → Follows key (suc (key e)) r
      → IsIn q e es
      → HasLead key q r es
  make_lead q e [] es after i = tt
  make_lead q e (x ∷ r) es after i = (e, i, after)

  -- The event `e` and the state behind it, where `p` waits with events from `m` on.
  abbrev pub Steps : ℕ → Parser E → E → Parser E → Type 0
  Steps m p e p' =
      (m ≤ key e)
      × IsMerging key (suc (key e)) p'
      × ((f : E → Bool) → pending f p ≡ num (f e) + pending f p')

  refill-Steps :
      (m q : ℕ) (e : E) (es : List (ℕ × E)) (rs : List (List (Option E))) (r : List (Option E))
      → reader_at q rs ≡ r
      → IsMerging key m (record { readers = rs; events = (q, e) ∷ es })
      → (p' : Parser E) × (refill key q e es rs r ≡ parsed e p')
        × Steps m (record { readers = rs; events = (q, e) ∷ es }) e p'
  refill-Steps m q e es rs [] at h = (
    record { readers = rs; events = es },
    refl,
    (
      h.rising.0,
      record {
        rising = h.rising.1;
        led = λ q'. elim (ℕ_discrete q q') [
          | yes same ↦
              subst (λ (r : List (Option E)). HasLead key q' r es)
                (sym (subst (λ (n : ℕ). reader_at n rs ≡ []) same at)) tt
          | no other ↦ drop_lead q q' e (reader_at q' rs) es other (h.led q')
        ];
        distinct = λ k. omega (arith, h.distinct k);
      },
      (λ f. omega arith),
    ),
  )
  refill-Steps m q e es rs (none ∷ r) at h =
      absurd (subst (λ (r : List (Option E)). HasLead key q r ((q, e) ∷ es)) at (h.led q)).2
  refill-Steps m q e es rs (some e' ∷ r) at h =
      let (y, i, later, after) =
        lead_of (subst (λ (x : List (Option E)). HasLead key q x ((q, e) ∷ es)) at (h.led q)) in
      let fits : suc (key e) ≤ key e' = omega (arith, later, lead_after y i) in
      let new : count_in (has_key key (key e')) es ≡ 0 = omega (
        arith,
        h.distinct (key e'),
        count_files-set (has_key key (key e')) q e' r rs at,
        num_same (key e'),
      ) in
      let counts = λ (f : E → Bool). insert_event-count key f (q, e') es new in
      (
        record { readers = set_reader q r rs; events = insert_event key (q, e') es },
        refl,
        (
          h.rising.0,
          record {
            rising = insert_event-AreRising key (suc (key e)) (q, e') es fits h.rising.1;
            led = λ q'. elim (ℕ_discrete q q') [
              | yes same ↦
                  subst
                    (λ (n : ℕ).
                      HasLead key n (reader_at n (set_reader q r rs)) (insert_event key (q, e') es))
                    same
                    (subst (λ (x : List (Option E)). HasLead key q x (insert_event key (q, e') es))
                      (sym (reader-set q (some e') r r rs at))
                      (make_lead q e' r (insert_event key (q, e') es) after
                        (insert_event-IsIn key (q, e') es new)))
              | no other ↦
                  subst (λ (x : List (Option E)). HasLead key q' x (insert_event key (q, e') es))
                    (sym (reader-set_other q q' r rs other))
                    (keep_lead q' (reader_at q' rs) es (insert_event key (q, e') es)
                      (λ y i. insert_event-keeps key (q, e') q' y es i)
                      (drop_lead q q' e (reader_at q' rs) es other (h.led q')))
            ];
            distinct = λ k. omega (
              arith,
              h.distinct k,
              counts (has_key key k),
              count_files-set (has_key key k) q e' r rs at,
            );
          },
          (λ f. omega (arith, counts f, count_files-set f q e' r rs at)),
        ),
      )
    where
      lead_of :
          HasLead key q (some e' ∷ r) ((q, e) ∷ es)
          → (y : E) × IsIn q y ((q, e) ∷ es) × (suc (key y) ≤ key e') × Follows key (suc (key e')) r
      lead_of (y, i, after) = (y, i, after.0, after.1)

      lead_after : (y : E) → IsIn q y ((q, e) ∷ es) → key e ≤ key y
      lead_after y (inl (a, b)) = subst (λ (x : E). key e ≤ key x) b (omega arith)
      lead_after y (inr i) = omega (arith, AreRising-IsIn key (suc (key e)) q y es h.rising.1 i)

  -- A parser that is not finished.
  pub parse_trace_event-Steps :
      (m : ℕ) (p : Parser E)
      → IsMerging key m p
      → is_finished p ≡ false
      → (e : E) × (p' : Parser E) × (parse_trace_event key p ≡ parsed e p') × Steps m p e p'
  unfolding parse_trace_event
  parse_trace_event-Steps m p h more = go p.readers p.events h more
    where
      go :
          (rs : List (List (Option E))) (es : List (ℕ × E))
          → IsMerging key m (record { readers = rs; events = es })
          → all_finished rs && is_empty es ≡ false
          → (e : E) × (p' : Parser E) × (parse_first key rs es ≡ parsed e p')
            × Steps m (record { readers = rs; events = es }) e p'
      go rs [] h more =
          let ended : all_finished rs ≡ true =
            leads-all_finished key 0 rs
              (λ q. subst (λ (n : ℕ). HasLead key n (reader_at q rs) []) (omega arith) (h.led q)) in
          ground (arith, ended, more)
      go rs (x ∷ es) h more =
          let (p', run, st) = refill-Steps m x.0 x.1 es rs (reader_at x.0 rs) refl h in
          (x.1, p', run, st)
