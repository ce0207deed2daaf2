-- ===== src/TraceParser.antt =====
-- source/octf/trace/parser/TraceFileParser.cpp: the merge of the trace files of several queues, and the
-- loop of source/octf/trace/parser/TraceEventHandler.h over it. The reading of a file by TraceFileReader
-- is a list: `none` is a read that throws.
use open_cas_telemetry_frame.Prelude.{
  ℕ, zero, suc, ◌+◌, ◌-◌, ◌*◌, ◌/◌, ◌%◌, ◌^◌, ◌≤◌, ◌<◌, min, max, ◌≡◌, refl, sym, ap, ap₂, ◌∙◌,
  subst, ◌≢◌, ◌↔◌, ◌⊎◌, inl, inr, Bool, true, false, ◌&&◌, ◌||◌, not, Option, none, some, List, [],
  ◌∷◌, ◌++◌, map, append-nil, append_assoc, arith, dec_lt, dec_le, ℕ_discrete, ltb, leb, ◌==◌,
  if◌then◌else◌, ltb→lt, lt→ltb, leb→le, ==_iff, Bool-cases, Option-cases, length, take, drop,
  replicate, set, get_or, length-append, take-append-drop, length-replicate, length-set, take-all,
  take-take, take_add, take-nil, length-take_le, take-prefix, drop-prefix, take-within, drop-within,
  length-take, length-drop, u64_mod, add64, sub64, mul64,
}
pub mod Merge
pub mod Step
pub mod Once
mod Tests

module _ {E : Type 0} (key : E → ℕ) where
  -- The comparison of the handlers, `a->header().sid() < b->header().sid()`.
  abbrev pub compare_events : E → E → Bool
  compare_events a b = ltb (key a) (key b)

  -- `m_events.insert`: the std::set refuses an element that is equivalent to one that it has.
  unfoldable pub insert_event : ℕ × E → List (ℕ × E) → List (ℕ × E)
  insert_event e [] = e ∷ []
  insert_event e (x ∷ xs) =
      let rest = insert_event e xs in
      if compare_events e.1 x.1
      then e ∷ x ∷ xs
      else if compare_events x.1 e.1
      then x ∷ rest
      else x ∷ xs

-- The parser: the reader of each queue, and `m_events`.
pub record Parser (E : Type 0) : Type 0 where
  pub readers : List (List (Option E))
  pub events : List (ℕ × E)

abbrev pub reader_at : {E : Type 0} → ℕ → List (List (Option E)) → List (Option E)
reader_at i [] = []
reader_at zero (r ∷ rs) = r
reader_at (suc i) (r ∷ rs) = reader_at i rs

abbrev pub set_reader :
    {E : Type 0} → ℕ → List (Option E) → List (List (Option E)) → List (List (Option E))
set_reader i r [] = []
set_reader zero r (x ∷ xs) = r ∷ xs
set_reader (suc i) r (x ∷ xs) = x ∷ set_reader i r xs

abbrev pub is_empty : {A : Type 0} → List A → Bool
is_empty [] = true
is_empty (x ∷ xs) = false

-- `isFinished`.
abbrev pub all_finished : {E : Type 0} → List (List (Option E)) → Bool
all_finished [] = true
all_finished (r ∷ rs) = is_empty r && all_finished rs

abbrev pub is_finished : {E : Type 0} → Parser E → Bool
is_finished p = all_finished p.readers && is_empty p.events

-- What `parseTraceEvent` ends with: an event, the exception of a parser that has none, or that of a read.
pub data Parsed (E : Type 0) : Type 0 where
  parsed : E → Parser E → Parsed E
  no_event read_failed : Parsed E

-- What `processEvents` hands to `handleEvent`, and how it ends.
pub data Processed (E : Type 0) : Type 0 where
  processed thrown : List E → Processed E
  unending : Processed E

abbrev pub after_event : {E : Type 0} → E → Processed E → Processed E
after_event e (processed es) = processed (e ∷ es)
after_event e (thrown es) = thrown (e ∷ es)
after_event e unending = unending

module _ {E : Type 0} (key : E → ℕ) where
  -- The queue `q`, whose event `e` is handed out, is asked for its next one.
  abbrev pub refill : ℕ → E → List (ℕ × E) → List (List (Option E)) → List (Option E) → Parsed E
  refill q e es readers [] = parsed e (record { readers = readers; events = es })
  refill q e es readers (none ∷ r) = read_failed
  refill q e es readers (some e' ∷ r) =
      parsed e (record { readers = set_reader q r readers; events = insert_event key (q, e') es })

  -- `parseTraceEvent`.
  abbrev pub parse_first : List (List (Option E)) → List (ℕ × E) → Parsed E
  parse_first readers [] = no_event
  parse_first readers (e ∷ es) = refill e.0 e.1 es readers (reader_at e.0 readers)

  unfoldable pub parse_trace_event : Parser E → Parsed E
  parse_trace_event p = parse_first p.readers p.events

  -- The loop of `init` over the readers from the number `i`; `none` is the exception of a read.
  abbrev pub with_reader : List (Option E) → Option (Parser E) → Option (Parser E)
  with_reader r none = none
  with_reader r (some p) = some (record p { readers = r ∷ p.readers })

  unfoldable pub fill : ℕ → List (List (Option E)) → List (ℕ × E) → Option (Parser E)
  fill i [] es = some (record { readers = []; events = es })
  fill i ([] ∷ rs) es = with_reader [] (fill (suc i) rs es)
  fill i ((none ∷ r) ∷ rs) es = none
  fill i ((some e ∷ r) ∷ rs) es = with_reader r (fill (suc i) rs (insert_event key (i, e) es))

  -- `init` of a trace whose summary says that it is complete.
  unfoldable pub init : List (List (Option E)) → Option (Parser E)
  init readers = fill 0 readers []

  -- `processEvents`, in at most `k` rounds, of a handler that is not cancelled.
  abbrev pub next_event : (Parser E → Processed E) → Parsed E → Processed E
  next_event more (parsed e p) = after_event e (more p)
  next_event more no_event = thrown []
  next_event more read_failed = thrown []

  unfoldable pub process_rounds : ℕ → Parser E → Processed E
  process_rounds zero p = if is_finished p then processed [] else unending
  process_rounds (suc k) p =
      let rest = next_event (process_rounds k) (parse_trace_event p) in
      if is_finished p then processed [] else rest
