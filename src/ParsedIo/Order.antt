-- ===== src/ParsedIo/Order.antt =====
-- The order in which source/octf/trace/parser/v2/ParsedIoTraceEventHandler.cpp hands the events out: what
-- of an event stays the same from its submission on, and how the flushes move it.
use open_cas_telemetry_frame.Prelude.{
  ℕ, ◌≡◌, refl, sym, ap, ap₂, ◌∙◌, inl, inr, Bool, ◌&&◌, not, List, [], ◌∷◌, ◌++◌, append-nil,
  append_assoc, ltb, ◌==◌, if◌then◌else◌, Bool-cases, length,
}
use open_cas_telemetry_frame.ParsedIo.Event.{Flags, ParsedEvent}
use open_cas_telemetry_frame.ParsedIo.Queue.{Handler, Trace, del_mapping}
use open_cas_telemetry_frame.ParsedIo.Handler.{
  push_out_event, flush_ready, flush_rest, flush_long, flush_events,
}

-- What of a request or a file event no later event changes.
pub data Entry : Type 0 where
  request_entry : ℕ → Flags → ℕ → ℕ → Entry
  file_entry : ℕ → ℕ → ℕ → ℕ → Entry

abbrev pub entry_of : ParsedEvent → Entry
entry_of e =
    if e.has_io
    then request_entry e.io.operation e.io.flags e.io.write_hint e.device.id
    else file_entry e.file.id e.file.creation_date e.file.event_type e.device.partition

abbrev pub entries : List ParsedEvent → List Entry
entries [] = []
entries (e ∷ es) = entry_of e ∷ entries es

-- The entries that were handed out, and behind them those that wait.
abbrev pub all_entries : Handler → List Entry
all_entries s = entries s.handled ++ entries s.queue

pub entries-append : (es fs : List ParsedEvent) → entries (es ++ fs) ≡ entries es ++ entries fs
entries-append [] fs = refl
entries-append (e ∷ es) fs = ap (λ (xs : List Entry). entry_of e ∷ xs) (entries-append es fs)

-- From `s` to `s'` the entries `new` came in, and the subrange is the same.
abbrev pub Adds : List Entry → Handler → Handler → Type 0
Adds new s s' =
    (all_entries s' ≡ all_entries s ++ new)
    × (s'.subrange_start ≡ s.subrange_start)
    × (s'.subrange_end ≡ s.subrange_end)

pub Adds-nothing : (s : Handler) → Adds [] s s
Adds-nothing s = (sym (append-nil (all_entries s)), refl, refl)

pub Adds-trans :
    (xs ys : List Entry) (s s' s'' : Handler)
    → Adds xs s s'
    → Adds ys s' s''
    → Adds (xs ++ ys) s s''
Adds-trans xs ys s s' s'' (a, b, c) (a', b', c') =
    (a' ∙ ap (λ (zs : List Entry). zs ++ ys) a ∙ append_assoc (all_entries s) xs ys, b' ∙ b, c' ∙ c)

-- What `delMapping` keeps.
abbrev KeepsEntry : ParsedEvent → Handler → Handler × ParsedEvent → Type 0
KeepsEntry e s (s', e') =
    (entry_of e' ≡ entry_of e)
    × (s'.handled ≡ s.handled)
    × (s'.queue ≡ s.queue)
    × (s'.subrange_start ≡ s.subrange_start)
    × (s'.subrange_end ≡ s.subrange_end)

pub del_mapping-KeepsEntry : (e : ParsedEvent) (s : Handler) → KeepsEntry e s (del_mapping e s)
unfolding del_mapping
del_mapping-KeepsEntry e s = elim (Bool-cases e.has_io) [
  | inl has ↦ rw has (refl, refl, refl, refl, refl)
  | inr has ↦ rw has (refl, refl, refl, refl, refl)
]

moves_entry :
    (hs hs' q es : List ParsedEvent) (e out : ParsedEvent)
    → hs' ≡ hs
    → entry_of out ≡ entry_of e
    → q ≡ e ∷ es
    → entries (hs' ++ out ∷ []) ++ entries es ≡ (entries hs ++ entries q) ++ []
moves_entry hs hs' q es e out same entry front =
    ap (λ (xs : List Entry). xs ++ entries es) (entries-append hs' (out ∷ []))
    ∙ append_assoc (entries hs') (entry_of out ∷ []) (entries es)
    ∙ ap₂ (λ (gs : List ParsedEvent) (x : Entry). entries gs ++ x ∷ entries es) same entry
    ∙ ap (λ (gs : List ParsedEvent). entries hs ++ entries gs) (sym front)
    ∙ sym (append-nil (entries hs ++ entries q))

pub push_out_event-queue :
    (t : Trace) (e : ParsedEvent) (es : List ParsedEvent) (s : Handler)
    → (push_out_event t e es s).queue ≡ es
unfolding push_out_event
push_out_event-queue t e es s = refl

push_out_event-Adds :
    (t : Trace) (e : ParsedEvent) (es : List ParsedEvent) (s : Handler)
    → s.queue ≡ e ∷ es
    → Adds [] s (push_out_event t e es s)
unfolding push_out_event
push_out_event-Adds t e es s q =
    let (same, handled, queue, start, end) = del_mapping-KeepsEntry e s in
    (moves_entry s.handled _ s.queue es e _ handled same q, start, end)

flush_ready-Adds :
    (t : Trace) (es : List ParsedEvent) (s : Handler)
    → s.queue ≡ es
    → Adds [] s (flush_ready t es s)
unfolding flush_ready
flush_ready-Adds t [] s q = Adds-nothing s
flush_ready-Adds t (e ∷ es) s q = elim (Bool-cases (e.io.latency == 0)) [
  | inl lost ↦ rw lost (Adds-nothing s)
  | inr lost ↦ rw lost (
      Adds-trans [] [] s (push_out_event t e es s) (flush_ready t es (push_out_event t e es s))
        (push_out_event-Adds t e es s q)
        (flush_ready-Adds t es (push_out_event t e es s) (push_out_event-queue t e es s)))
]

flush_rest-Adds :
    (t : Trace) (finished : Bool) (es : List ParsedEvent) (s : Handler)
    → s.queue ≡ es
    → Adds [] s (flush_rest t finished es s)
unfolding flush_rest
flush_rest-Adds t finished [] s q = Adds-nothing s
flush_rest-Adds t finished (e ∷ es) s q =
    let next : Adds [] s (push_out_event t e es s) = push_out_event-Adds t e es s q in
    elim (Bool-cases (not finished && ltb (length es) (push_out_event t e es s).limit)) [
      | inl stop ↦ rw stop next
      | inr stop ↦ rw stop (
          Adds-trans [] [] s (push_out_event t e es s)
            (flush_rest t finished es (push_out_event t e es s)) next
            (flush_rest-Adds t finished es (push_out_event t e es s)
              (push_out_event-queue t e es s)))
    ]

flush_long-Adds : (t : Trace) (finished : Bool) (s : Handler) → Adds [] s (flush_long t finished s)
flush_long-Adds t finished s = elim (Bool-cases (ltb (length s.queue) s.limit && not finished)) [
  | inl stop ↦ rw stop (Adds-nothing s)
  | inr stop ↦ rw stop (flush_rest-Adds t finished s.queue s refl)
]

pub flush_events-Adds :
    (t : Trace) (finished : Bool) (s : Handler) → Adds [] s (flush_events t finished s)
unfolding flush_events
flush_events-Adds t finished s =
    Adds-trans [] [] s (flush_ready t s.queue s) (flush_long t finished (flush_ready t s.queue s))
      (flush_ready-Adds t s.queue s refl) (flush_long-Adds t finished (flush_ready t s.queue s))
