-- ===== src/ParsedIo/Flush.antt =====
-- When the flushes of source/octf/trace/parser/v2/ParsedIoTraceEventHandler.cpp leave the queue.
use open_cas_telemetry_frame.Prelude.{
  ℕ, ◌<◌, ◌≡◌, refl, sym, ap, ◌∙◌, subst, inl, inr, Bool, true, false, List, [], ◌∷◌, ◌++◌,
  append-nil, arith, ltb, ◌==◌, ltb→lt, Bool-cases, length,
}
use open_cas_telemetry_frame.ParsedIo.Event.{ParsedEvent, TraceEvent}
use open_cas_telemetry_frame.ParsedIo.Queue.{
  Handler, Trace, new_handler, set_exclusive_subrange, del_mapping,
}
use open_cas_telemetry_frame.ParsedIo.Handler.{
  push_out_event, flush_ready, flush_rest, flush_long, flush_events, handle_all, process_events,
}
use open_cas_telemetry_frame.ParsedIo.Order.{
  entries, all_entries, push_out_event-queue, flush_events-Adds,
}
use open_cas_telemetry_frame.ParsedIo.Drained.{entries_of_trace, handle_all-Adds}

push_out_event-limit :
    (t : Trace) (e : ParsedEvent) (es : List ParsedEvent) (s : Handler)
    → (push_out_event t e es s).limit ≡ s.limit
unfolding push_out_event del_mapping
push_out_event-limit t e es s = elim (Bool-cases e.has_io) [
  | inl has ↦ rw has refl
  | inr has ↦ rw has refl
]

flush_ready-limit :
    (t : Trace) (es : List ParsedEvent) (s : Handler) → (flush_ready t es s).limit ≡ s.limit
unfolding flush_ready
flush_ready-limit t [] s = refl
flush_ready-limit t (e ∷ es) s = elim (Bool-cases (e.io.latency == 0)) [
  | inl lost ↦ rw lost refl
  | inr lost ↦
      rw lost (flush_ready-limit t es (push_out_event t e es s) ∙ push_out_event-limit t e es s)
]

flush_rest-drains :
    (t : Trace) (es : List ParsedEvent) (s : Handler)
    → s.queue ≡ es
    → (flush_rest t true es s).queue ≡ []
unfolding flush_rest
flush_rest-drains t [] s q = q
flush_rest-drains t (e ∷ es) s q =
    flush_rest-drains t es (push_out_event t e es s) (push_out_event-queue t e es s)

flush_rest-within :
    (t : Trace) (es : List ParsedEvent) (s : Handler)
    → s.queue ≡ es
    → 0 < s.limit
    → length (flush_rest t false es s).queue < s.limit
unfolding flush_rest
flush_rest-within t [] s q positive = rw q positive
flush_rest-within t (e ∷ es) s q positive =
    let s' = push_out_event t e es s in
    let same : s'.limit ≡ s.limit = push_out_event-limit t e es s in
    let queue : s'.queue ≡ es = push_out_event-queue t e es s in
    elim (Bool-cases (ltb (length es) s'.limit)) [
      | inl stop ↦ rw stop (
          subst (λ (n : ℕ). length s'.queue < n) same
            (subst (λ (fs : List ParsedEvent). length fs < s'.limit) (sym queue) (ltb→lt _ _ stop)))
      | inr stop ↦ rw stop (
          subst (λ (n : ℕ). length (flush_rest t false es s').queue < n) same
            (flush_rest-within t es s' queue (subst (λ (n : ℕ). 0 < n) (sym same) positive)))
    ]

-- A flush after the end of the trace empties the queue.
pub flush_events-drains : (t : Trace) (s : Handler) → (flush_events t true s).queue ≡ []
unfolding flush_events
flush_events-drains t s =
    let s' = flush_ready t s.queue s in
    elim (Bool-cases (ltb (length s'.queue) s'.limit)) [
      | inl short ↦ rw short (flush_rest-drains t s'.queue s' refl)
      | inr short ↦ rw short (flush_rest-drains t s'.queue s' refl)
    ]

-- Where the limit is not zero, a flush before the end of the trace leaves fewer events in the queue than
-- the limit.
pub flush_events-within :
    (t : Trace) (s : Handler) → 0 < s.limit → length (flush_events t false s).queue < s.limit
unfolding flush_events
flush_events-within t s positive =
    let s' = flush_ready t s.queue s in
    let same : s'.limit ≡ s.limit = flush_ready-limit t s.queue s in
    subst (λ (n : ℕ). length (flush_long t false s').queue < n) same
      (elim (Bool-cases (ltb (length s'.queue) s'.limit)) [
        | inl short ↦ rw short (ltb→lt _ _ short)
        | inr short ↦
            rw short
              (flush_rest-within t s'.queue s' refl (subst (λ (n : ℕ). 0 < n) (sym same) positive))
      ])

-- Every request of the trace that lies in the subrange and every file event is handed out exactly once,
-- in the order of the trace, with its operation, flags, write hint and device, or its file, its time of
-- creation, its kind and its partition; and at the end no event is left in the queue.
pub process_events-in_order :
    (t : Trace) (start end : ℕ) (es : List (Bool × TraceEvent))
    → let s = process_events t es (set_exclusive_subrange start end new_handler) in
      (entries s.handled ≡ entries_of_trace start end es) × (s.queue ≡ [])
unfolding process_events set_exclusive_subrange new_handler
process_events-in_order t start end es =
    let s = set_exclusive_subrange start end new_handler in
    let s' = handle_all t es s in
    let s'' = flush_events t true s' in
    let drained : s''.queue ≡ [] = flush_events-drains t s' in
    (
      sym (append-nil (entries s''.handled))
          ∙ ap (λ (q : List ParsedEvent). entries s''.handled ++ entries q) (sym drained)
          ∙ (flush_events-Adds t true s').0
          ∙ append-nil (all_entries s')
          ∙ (handle_all-Adds t es s (λ i p h. ground arith, refl)).0,
      drained,
    )
