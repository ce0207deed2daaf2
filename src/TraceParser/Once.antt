-- ===== src/TraceParser/Once.antt =====
-- What the loop of source/octf/trace/parser/TraceEventHandler.h is handed by
-- source/octf/trace/parser/TraceFileParser.cpp: each event of each queue once, in the order of the keys.
use open_cas_telemetry_frame.Prelude.{
  ℕ, zero, suc, ◌+◌, ◌≤◌, ◌≡◌, refl, sym, ap, subst, inl, inr, Bool, true, ◌&&◌, Option, none, some,
  List, [], ◌∷◌, arith, Bool-cases,
}
use open_cas_telemetry_frame.TraceParser.{
  Parser, insert_event, reader_at, is_empty, all_finished, is_finished, with_reader, fill, init,
  processed, process_rounds,
}
use open_cas_telemetry_frame.TraceParser.Merge.{
  num, count_in, count_files, pending, IsIn, AreRising, Follows, HasLead, has_key, IsMerging,
  insert_event-AreRising, insert_event-count, insert_event-IsIn, insert_event-keeps,
}
use open_cas_telemetry_frame.TraceParser.Step.{make_lead, num_same, parse_trace_event-Steps}

abbrev pub any : {E : Type 0} → E → Bool
any e = true

abbrev pub count_of : {E : Type 0} → (E → Bool) → List E → ℕ
count_of f [] = 0
count_of f (e ∷ es) = num (f e) + count_of f es

module _ {E : Type 0} (key : E → ℕ) where
  -- The keys of a list rise from `m` on.
  abbrev pub RiseFrom : ℕ → List E → Type 0
  RiseFrom m [] = Unit {0}
  RiseFrom m (e ∷ es) = (m ≤ key e) × RiseFrom (suc (key e)) es

  -- The files, each in the order of its keys.
  abbrev pub AreFiles : List (List (Option E)) → Type 0
  AreFiles [] = Unit {0}
  AreFiles (r ∷ rs) = Follows key 0 r × AreFiles rs

  finished-nothing :
      (rs : List (List (Option E))) (f : E → Bool) → all_finished rs ≡ true → count_files f rs ≡ 0
  finished-nothing [] f h = refl
  finished-nothing ([] ∷ rs) f h = omega (arith, finished-nothing rs f h)
  finished-nothing ((x ∷ r) ∷ rs) f h = ground arith

  finished-pending : (p : Parser E) (f : E → Bool) → is_finished p ≡ true → pending f p ≡ 0
  finished-pending p f h = go p.readers p.events h
    where
      go :
          (rs : List (List (Option E))) (es : List (ℕ × E))
          → all_finished rs && is_empty es ≡ true
          → count_in f es + count_files f rs ≡ 0
      go rs [] h =
          let ended : all_finished rs ≡ true = ground arith in
          omega (arith, finished-nothing rs f ended)
      go rs (x ∷ es) h = ground arith

  process_rounds-lem :
      (k m : ℕ) (p : Parser E)
      → IsMerging key m p
      → pending any p ≤ k
      → (es : List E) × (process_rounds key k p ≡ processed es)
        × RiseFrom m es
        × ((f : E → Bool) → count_of f es ≡ pending f p)
  unfolding process_rounds
  process_rounds-lem zero m p h enough = elim (Bool-cases (is_finished p)) [
    | inl ended ↦ ([], rw ended refl, tt, λ f. sym (finished-pending p f ended))
    | inr more ↦
        let (e, p', run, (le, h', counts)) = parse_trace_event-Steps key m p h more in
        ground (arith, counts any, enough)
  ]
  process_rounds-lem (suc k) m p h enough = elim (Bool-cases (is_finished p)) [
    | inl ended ↦ ([], rw ended refl, tt, λ f. sym (finished-pending p f ended))
    | inr more ↦
        let (e, p', run, (le, h', counts)) = parse_trace_event-Steps key m p h more in
        let (es, rest, rises, all) =
          process_rounds-lem k (suc (key e)) p' h' (omega (arith, counts any, enough)) in
        (e ∷ es, rw more (rw run (rw rest refl)), (le, rises), λ f. omega (arith, counts f, all f))
  ]

  -- What `init` makes of the files from the number `i` on, with the events `es` of the files before.
  abbrev Fills : ℕ → List (List (Option E)) → List (ℕ × E) → Parser E → Type 0
  Fills i rs es p =
      AreRising key 0 p.events
      × ((q : ℕ) → HasLead key (i + q) (reader_at q p.readers) p.events)
      × ((q : ℕ) (e : E) → IsIn q e es → IsIn q e p.events)
      × ((f : E → Bool) → pending f p ≡ count_in f es + count_files f rs)

  fill_skip :
      (i : ℕ) (rs : List (List (Option E))) (r : List (Option E)) (es : List (ℕ × E)) (p : Parser E)
      → HasLead key i r p.events
      → Fills (suc i) rs es p
      → (q : ℕ) → HasLead key (i + q) (reader_at q (r ∷ p.readers)) p.events
  fill_skip i rs r es p lead h zero = subst (λ (n : ℕ). HasLead key n r p.events) (omega arith) lead
  fill_skip i rs r es p lead (a, leads, b, c) (suc q) =
      subst (λ (n : ℕ). HasLead key n (reader_at q p.readers) p.events) (omega arith) (leads q)

  fill-Fills :
      (i : ℕ) (rs : List (List (Option E))) (es : List (ℕ × E))
      → AreFiles rs
      → AreRising key 0 es
      → ((k : ℕ) → count_in (has_key key k) es + count_files (has_key key k) rs ≤ 1)
      → (p : Parser E) × (fill key i rs es ≡ some p) × Fills i rs es p
  unfolding fill
  fill-Fills i [] es files rising distinct = (
    record { readers = []; events = es },
    refl,
    (rising, (λ q. tt), (λ q e i. i), (λ f. omega arith)),
  )
  fill-Fills i ([] ∷ rs) es files rising distinct =
      let (p, run, h) = fill-Fills (suc i) rs es files.1 rising (λ k. omega (arith, distinct k)) in
      let (a, leads, b, c) = h in
      (
        record p { readers = [] ∷ p.readers },
        ap (with_reader key []) run,
        (a, fill_skip i rs [] es p tt h, b, λ f. omega (arith, c f)),
      )
  fill-Fills i ((none ∷ r) ∷ rs) es files rising distinct = absurd files.0
  fill-Fills i ((some e ∷ r) ∷ rs) es files rising distinct =
      let new : count_in (has_key key (key e)) es ≡ 0 =
        omega (arith, distinct (key e), num_same (key e)) in
      let counts = λ (f : E → Bool). insert_event-count key f (i, e) es new in
      let es' = insert_event key (i, e) es in
      let (p, run, h) =
        fill-Fills (suc i) rs es' files.1
          (insert_event-AreRising key 0 (i, e) es (omega arith) rising)
          (λ k. omega (arith, distinct k, counts (has_key key k))) in
      let (a, leads, b, c) = h in
      (
        record p { readers = r ∷ p.readers },
        ap (with_reader key r) run,
        (
          a,
          fill_skip i rs r es' p
              (make_lead key i e r p.events files.0.1 (b i e (insert_event-IsIn key (i, e) es new)))
              h,
          (λ q x j. b q x (insert_event-keeps key (i, e) q x es j)),
          (λ f. omega (arith, c f, counts f)),
        ),
      )

  -- Where each file can be read and has its events in the order of their keys, and no two events of the
  -- trace have the same key: `init` succeeds, and with a round for each event `processEvents` comes to
  -- its end without an exception; the events that it hands to the handler have rising keys, and of every
  -- kind of event there are as many among them as in the files together.
  pub process_rounds-once :
      (rs : List (List (Option E))) (k : ℕ)
      → AreFiles rs
      → ((n : ℕ) → count_files (has_key key n) rs ≤ 1)
      → count_files any rs ≤ k
      → (p : Parser E) × (es : List E) × (init key rs ≡ some p)
        × (process_rounds key k p ≡ processed es)
        × RiseFrom 0 es
        × ((f : E → Bool) → count_of f es ≡ count_files f rs)
  unfolding init
  process_rounds-once rs k files distinct enough =
      let (p, run, (rising, leads, _, counts)) =
        fill-Fills 0 rs [] files tt (λ n. omega (arith, distinct n)) in
      let merging : IsMerging key 0 p = record {
        rising = rising;
        led = λ q.
            subst (λ (n : ℕ). HasLead key n (reader_at q p.readers) p.events) (omega arith)
              (leads q);
        distinct = λ n. omega (arith, distinct n, counts (has_key key n));
      } in
      let (es, ends, rises, all) =
        process_rounds-lem k 0 p merging (omega (arith, enough, counts any)) in
      (p, es, run, ends, rises, λ f. omega (arith, all f, counts f))
