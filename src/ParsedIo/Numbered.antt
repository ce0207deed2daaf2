-- ===== src/ParsedIo/Numbered.antt =====
-- The numbers of the events that source/octf/trace/parser/v2/ParsedIoTraceEventHandler.cpp hands out, and
-- what it writes into the trace's extension.
use open_cas_telemetry_frame.Prelude.{
  ℕ, zero, suc, ◌%◌, ◌≡◌, refl, sym, ap, ap₂, ◌∙◌, Bool, true, false, List, [], ◌∷◌, ◌++◌, arith,
  if◌then◌else◌, length, u64_mod, add64,
}
use open_cas_telemetry_frame.ParsedIo.Event.{TraceEvent, ParsedEvent}
use open_cas_telemetry_frame.ParsedIo.Queue.{
  Handler, Trace, del_mapping, new_handler, set_exclusive_subrange,
}
use open_cas_telemetry_frame.ParsedIo.Handler.{push_out_event, process_events, out_event}
use open_cas_telemetry_frame.ParsedIo.Steps.{
  Quiet, Steps, quiet, push_out, next, del_mapping-Quiet, process_events-Steps,
}

abbrev pub sids : List ParsedEvent → List ℕ
sids [] = []
sids (e ∷ es) = e.header.sid ∷ sids es

-- The first `n` numbers from one on, as a 64-bit word has them.
abbrev pub counted : ℕ → List ℕ
counted zero = []
counted (suc n) = counted n ++ (suc n % u64_mod) ∷ []

abbrev pub with_sids : List ParsedEvent → List (ℕ × ParsedEvent)
with_sids [] = []
with_sids (e ∷ es) = (e.header.sid, e) ∷ with_sids es

abbrev pub IsNumbered : Trace → Handler → Type 0
IsNumbered t s =
    (s.ref_sid ≡ length s.handled % u64_mod)
    × (sids s.handled ≡ counted (length s.handled))
    × (s.written ≡ (if t.writable then with_sids s.handled else []))

sids-append :
    (es : List ParsedEvent) (e : ParsedEvent) → sids (es ++ e ∷ []) ≡ sids es ++ e.header.sid ∷ []
sids-append [] e = refl
sids-append (x ∷ es) e = ap (λ (ns : List ℕ). x.header.sid ∷ ns) (sids-append es e)

with_sids-append :
    (es : List ParsedEvent) (e : ParsedEvent)
    → with_sids (es ++ e ∷ []) ≡ with_sids es ++ (e.header.sid, e) ∷ []
with_sids-append [] e = refl
with_sids-append (x ∷ es) e =
    ap (λ (ns : List (ℕ × ParsedEvent)). (x.header.sid, x) ∷ ns) (with_sids-append es e)

length-snoc : (es : List ParsedEvent) (e : ParsedEvent) → length (es ++ e ∷ []) ≡ suc (length es)
length-snoc [] e = refl
length-snoc (x ∷ es) e = ap suc (length-snoc es e)

nothing_written : (writable : Bool) → with_sids [] ≡ (if writable then with_sids [] else [])
nothing_written true = refl
nothing_written false = refl

next_sid : (n sid : ℕ) → n ≡ sid % u64_mod → add64 n 1 ≡ suc sid % u64_mod
next_sid n sid h = omega (arith, h)

written_next :
    (writable : Bool) (hs : List ParsedEvent) (out : ParsedEvent) (written : List (ℕ × ParsedEvent))
    → written ≡ (if writable then with_sids hs else [])
    → (if writable then written ++ (out.header.sid, out) ∷ [] else written)
      ≡ (if writable then with_sids (hs ++ out ∷ []) else [])
written_next true hs out written same =
    ap (λ (ws : List (ℕ × ParsedEvent)). ws ++ (out.header.sid, out) ∷ []) same
    ∙ sym (with_sids-append hs out)
written_next false hs out written same = same

-- The event `out` with the next number goes behind those that were handed out.
snoc-IsNumbered :
    (writable : Bool) (hs : List ParsedEvent) (out : ParsedEvent) (n : ℕ)
    (written : List (ℕ × ParsedEvent))
    → n ≡ length hs % u64_mod
    → sids hs ≡ counted (length hs)
    → written ≡ (if writable then with_sids hs else [])
    → out.header.sid ≡ add64 n 1
    → (out.header.sid ≡ length (hs ++ out ∷ []) % u64_mod)
      × (sids (hs ++ out ∷ []) ≡ counted (length (hs ++ out ∷ [])))
      × ((if writable then written ++ (out.header.sid, out) ∷ [] else written)
          ≡ (if writable then with_sids (hs ++ out ∷ []) else []))
snoc-IsNumbered writable hs out n written at numbered same sid =
    let number : out.header.sid ≡ suc (length hs) % u64_mod = sid ∙ next_sid n (length hs) at in
    (
      number ∙ ap (λ (k : ℕ). k % u64_mod) (sym (length-snoc hs out)),
      sids-append hs out
          ∙ ap₂ (λ (ns : List ℕ) (k : ℕ). ns ++ k ∷ []) numbered number
          ∙ ap counted (sym (length-snoc hs out)),
      written_next writable hs out written same,
    )

Quiet-IsNumbered : (t : Trace) (s s' : Handler) → Quiet s s' → IsNumbered t s → IsNumbered t s'
Quiet-IsNumbered t s s' (handled, written, ref_sid) (at, numbered, same) = (
  ref_sid ∙ at ∙ ap (λ (hs : List ParsedEvent). length hs % u64_mod) (sym handled),
  ap sids handled ∙ numbered ∙ ap (λ (hs : List ParsedEvent). counted (length hs)) (sym handled),
  written
      ∙ same
      ∙ ap (λ (hs : List ParsedEvent). if t.writable then with_sids hs else []) (sym handled),
)

push_out_event-IsNumbered :
    (t : Trace) (e : ParsedEvent) (es : List ParsedEvent) (s : Handler)
    → IsNumbered t s
    → IsNumbered t (push_out_event t e es s)
unfolding push_out_event
push_out_event-IsNumbered t e es s n =
    let (s', e') = del_mapping e s in
    let (at, numbered, same) = Quiet-IsNumbered t s s' (del_mapping-Quiet e s) n in
    snoc-IsNumbered t.writable s'.handled (out_event t s' (add64 s'.ref_sid 1) e') s'.ref_sid
      s'.written at numbered same refl

Steps-IsNumbered : (t : Trace) {s s' : Handler} → Steps t s s' → IsNumbered t s → IsNumbered t s'
Steps-IsNumbered t {s = s} {s' = s'} (quiet q) n = Quiet-IsNumbered t s s' q n
Steps-IsNumbered t {s = s} (push_out e es) n = push_out_event-IsNumbered t e es s n
Steps-IsNumbered t (next h k) n = Steps-IsNumbered t k (Steps-IsNumbered t h n)

-- The events that are handed out for a trace are numbered from one on, in the order in which they are
-- handed out, and if the extension of the trace can be written, then the same events are written to it,
-- each under its number; else nothing is.
pub process_events-IsNumbered :
    (t : Trace) (start end : ℕ) (es : List (Bool × TraceEvent))
    → let s = process_events t es (set_exclusive_subrange start end new_handler) in
      (sids s.handled ≡ counted (length s.handled))
      × (s.written ≡ (if t.writable then with_sids s.handled else []))
unfolding set_exclusive_subrange new_handler
process_events-IsNumbered t start end es =
    let (_, numbered, written) =
      Steps-IsNumbered t (process_events-Steps t es (set_exclusive_subrange start end new_handler))
        (refl, refl, nothing_written t.writable) in
    (numbered, written)
