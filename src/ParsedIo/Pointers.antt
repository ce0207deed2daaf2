-- ===== src/ParsedIo/Pointers.antt =====
-- Every pointer that source/octf/trace/parser/v2/ParsedIoTraceEventHandler.cpp follows leads to an event
-- of its queue.
use open_cas_telemetry_frame.Prelude.{
  ℕ, ◌+◌, ◌≡◌, refl, sym, ◌∙◌, subst, ◌≢◌, inl, inr, Bool, true, false, ◌&&◌, not, Option, none,
  some, List, [], ◌∷◌, arith, ltb, ◌==◌, Bool-cases, length,
}
use open_cas_telemetry_frame.ParsedIo.Event.{ParsedEvent}
use open_cas_telemetry_frame.ParsedIo.Queue.{Handler, Trace, put, del_mapping}
use open_cas_telemetry_frame.ParsedIo.Handler.{
  push_out_event, flush_ready, flush_rest, flush_long, flush_events,
}
use open_cas_telemetry_frame.ParsedIo.Mapping.{IsMapped, put_same, pop-IsMapped}

-- The mapping is right for the queue, and no pointer to an event that is gone was followed.
abbrev pub IsSound : Handler → Type 0
IsSound s = (IsMapped s.queue s.popped s.id_mapping) × (s.dangling ≡ false)

abbrev pub IsSoundWith : List ParsedEvent → Handler → Type 0
IsSoundWith es s = (s.queue ≡ es) × IsSound s

put-none :
    (mapping : ℕ → Option ℕ) (j i p : ℕ)
    → put mapping j none i ≡ some p
    → (j ≢ i) × (mapping i ≡ some p)
put-none mapping j i p h = elim (put_same mapping j none i p h) [
  | inl x ↦ ground arith
  | inr x ↦ (λ e. x.0 (sym e), x.1)
]

-- What `delMapping` leaves as it is.
abbrev pub SameRest : Handler → Handler → Type 0
SameRest s s' = (s'.queue ≡ s.queue) × (s'.popped ≡ s.popped) × (s'.dangling ≡ s.dangling)

pub del_mapping-SameRest : (e : ParsedEvent) (s : Handler) → SameRest s (del_mapping e s).0
unfolding del_mapping
del_mapping-SameRest e s = elim (Bool-cases e.has_io) [
  | inl has ↦ rw has (refl, refl, refl)
  | inr has ↦ rw has (refl, refl, refl)
]

pub del_mapping-sub :
    (e : ParsedEvent) (s : Handler) (i p : ℕ)
    → (del_mapping e s).0.id_mapping i ≡ some p
    → s.id_mapping i ≡ some p
unfolding del_mapping
del_mapping-sub e s i p h = elim (Bool-cases e.has_io) [
  | inl has ↦ (put-none s.id_mapping e.header.sid i p (rw has at h)).1
  | inr has ↦ rw has at h
]

pub del_mapping-gone :
    (e : ParsedEvent) (s : Handler) (i p : ℕ)
    → (del_mapping e s).0.id_mapping i ≡ some p
    → e.has_io ≡ true
    → e.header.sid ≢ i
unfolding del_mapping
del_mapping-gone e s i p h has = (put-none s.id_mapping e.header.sid i p (rw has at h)).0

push_out_event-IsSound :
    (t : Trace) (e : ParsedEvent) (es : List ParsedEvent) (s : Handler)
    → IsSoundWith (e ∷ es) s
    → IsSoundWith es (push_out_event t e es s)
unfolding push_out_event
push_out_event-IsSound t e es s (q, (m, d)) =
    let (_, popped, dangling) = del_mapping-SameRest e s in
    let after = (del_mapping e s).0 in
    let front : IsMapped (e ∷ es) s.popped s.id_mapping =
      subst (λ (x : List ParsedEvent). IsMapped x s.popped s.id_mapping) q m in
    (
      refl,
      (
        subst (λ (n : ℕ). IsMapped es (n + 1) after.id_mapping) (sym popped)
            (pop-IsMapped e es s.popped s.id_mapping after.id_mapping (del_mapping-sub e s)
              (del_mapping-gone e s) front),
        dangling ∙ d,
      ),
    )

flush_ready-IsSound :
    (t : Trace) (es : List ParsedEvent) (s : Handler)
    → IsSoundWith es s
    → IsSound (flush_ready t es s)
unfolding flush_ready
flush_ready-IsSound t [] s h = h.1
flush_ready-IsSound t (e ∷ es) s h = elim (Bool-cases (e.io.latency == 0)) [
  | inl lost ↦ rw lost h.1
  | inr lost ↦ rw lost (flush_ready-IsSound t es _ (push_out_event-IsSound t e es s h))
]

flush_rest-IsSound :
    (t : Trace) (finished : Bool) (es : List ParsedEvent) (s : Handler)
    → IsSoundWith es s
    → IsSound (flush_rest t finished es s)
unfolding flush_rest
flush_rest-IsSound t finished [] s h = h.1
flush_rest-IsSound t finished (e ∷ es) s h =
    let next : IsSoundWith es (push_out_event t e es s) = push_out_event-IsSound t e es s h in
    elim (Bool-cases (not finished && ltb (length es) (push_out_event t e es s).limit)) [
      | inl stop ↦ rw stop next.1
      | inr stop ↦ rw stop (flush_rest-IsSound t finished es _ next)
    ]

flush_long-IsSound :
    (t : Trace) (finished : Bool) (s : Handler) → IsSound s → IsSound (flush_long t finished s)
flush_long-IsSound t finished s h =
    elim (Bool-cases (ltb (length s.queue) s.limit && not finished)) [
      | inl stop ↦ rw stop h
      | inr stop ↦ rw stop (flush_rest-IsSound t finished s.queue s (refl, h))
    ]

pub flush_events-IsSound :
    (t : Trace) (finished : Bool) (s : Handler) → IsSound s → IsSound (flush_events t finished s)
unfolding flush_events
flush_events-IsSound t finished s h =
    flush_long-IsSound t finished _ (flush_ready-IsSound t s.queue s (refl, h))
