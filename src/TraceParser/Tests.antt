-- ===== src/TraceParser/Tests.antt =====
-- The traces of two queues, on which the theorem about the merge is applied.
use open_cas_telemetry_frame.Prelude.{
  ℕ, ◌≤◌, ◌≡◌, refl, Bool, Option, none, some, List, [], ◌∷◌, arith,
}
use open_cas_telemetry_frame.TraceParser.{
  Parser, insert_event, Processed, processed, thrown, parse_trace_event, fill, init, process_rounds,
}
use open_cas_telemetry_frame.TraceParser.Merge.{count_files, has_key}
use open_cas_telemetry_frame.TraceParser.Once.{count_of, RiseFrom, process_rounds-once}

abbrev sid : ℕ → ℕ
sid n = n

abbrev two_files : List (List (Option ℕ))
two_files = (some 1 ∷ some 4 ∷ []) ∷ (some 2 ∷ some 3 ∷ []) ∷ []

two_files-distinct : (n : ℕ) → count_files (has_key sid n) two_files ≤ 1
two_files-distinct n = ground arith

process_rounds-once_example :
    (p : Parser ℕ) × (es : List ℕ) × (init sid two_files ≡ some p)
    × (process_rounds sid 4 p ≡ processed es)
    × RiseFrom sid 0 es
    × ((f : ℕ → Bool) → count_of f es ≡ count_files f two_files)
process_rounds-once_example =
    process_rounds-once sid two_files 4
      ((omega arith, (omega arith, tt)), ((omega arith, (omega arith, tt)), tt)) two_files-distinct
      (omega arith)

-- Two queues whose first events have the same number: the set refuses the second one, its queue is never
-- read again, and the loop ends with the exception of a parser that has no event.
abbrev equal_files : List (List (Option ℕ))
equal_files = (some 1 ∷ some 4 ∷ []) ∷ (some 1 ∷ some 3 ∷ []) ∷ []

abbrev run_of : Option (Parser ℕ) → Processed ℕ
run_of none = thrown []
run_of (some p) = process_rounds sid 4 p

equal_numbers_lost : run_of (init sid equal_files) ≡ thrown (1 ∷ 4 ∷ [])
unfolding init fill insert_event process_rounds parse_trace_event
equal_numbers_lost = refl
