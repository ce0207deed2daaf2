-- ===== src/ParsedIo/Steps.antt =====
-- The work of source/octf/trace/parser/v2/ParsedIoTraceEventHandler.cpp as a sequence of steps, of which
-- only `pushOutEvent` hands an event out.
use open_cas_telemetry_frame.Prelude.{
  ℕ, ◌≡◌, refl, inl, inr, Bool, true, ◌&&◌, not, Option, none, some, List, [], ◌∷◌, ltb, leb, ◌==◌,
  Bool-cases, length,
}
use open_cas_telemetry_frame.ParsedIo.Event.{
  Header, IoEvent, IoCompletion, FilesystemMeta, Body, device_description, io, io_completion,
  filesystem_meta, filesystem_file_event, filesystem_file_name, other_body, TraceEvent, ParsedEvent,
}
use open_cas_telemetry_frame.ParsedIo.Queue.{Handler, Trace, deref, store, add_mapping, del_mapping}
use open_cas_telemetry_frame.ParsedIo.Handler.{
  is_outside, push_out_event, flush_ready, flush_rest, flush_long, flush_events, handle_device,
  request, handle_io, complete_found, complete, handle_completion, meta_found, meta_at, handle_meta,
  handle_file_event, offset_after, dispatch, handle_event, handle_all, process_events,
}

-- Nothing is handed out from `s` to `s'`.
abbrev pub Quiet : Handler → Handler → Type 0
Quiet s s' = (s'.handled ≡ s.handled) × (s'.written ≡ s.written) × (s'.ref_sid ≡ s.ref_sid)

pub data Steps (t : Trace) : Handler → Handler → Type 0 where
  quiet : {s s' : Handler} → Quiet s s' → Steps t s s'
  push_out :
      (e : ParsedEvent) (es : List ParsedEvent) {s : Handler} → Steps t s (push_out_event t e es s)
  next : {s s' s'' : Handler} → Steps t s s' → Steps t s' s'' → Steps t s s''

flush_ready-Steps :
    (t : Trace) (es : List ParsedEvent) (s : Handler) → Steps t s (flush_ready t es s)
unfolding flush_ready
flush_ready-Steps t [] s = quiet (refl, refl, refl)
flush_ready-Steps t (e ∷ es) s = elim (Bool-cases (e.io.latency == 0)) [
  | inl lost ↦ rw lost (quiet (refl, refl, refl))
  | inr lost ↦ rw lost (next (push_out e es) (flush_ready-Steps t es (push_out_event t e es s)))
]

flush_rest-Steps :
    (t : Trace) (finished : Bool) (es : List ParsedEvent) (s : Handler)
    → Steps t s (flush_rest t finished es s)
unfolding flush_rest
flush_rest-Steps t finished [] s = quiet (refl, refl, refl)
flush_rest-Steps t finished (e ∷ es) s =
    elim (Bool-cases (not finished && ltb (length es) (push_out_event t e es s).limit)) [
      | inl stop ↦ rw stop (push_out e es)
      | inr stop ↦
          rw stop (next (push_out e es) (flush_rest-Steps t finished es (push_out_event t e es s)))
    ]

flush_long-Steps : (t : Trace) (finished : Bool) (s : Handler) → Steps t s (flush_long t finished s)
flush_long-Steps t finished s = elim (Bool-cases (ltb (length s.queue) s.limit && not finished)) [
  | inl stop ↦ rw stop (quiet (refl, refl, refl))
  | inr stop ↦ rw stop (flush_rest-Steps t finished s.queue s)
]

pub flush_events-Steps :
    (t : Trace) (finished : Bool) (s : Handler) → Steps t s (flush_events t finished s)
unfolding flush_events
flush_events-Steps t finished s =
    next (flush_ready-Steps t s.queue s) (flush_long-Steps t finished (flush_ready t s.queue s))

add_mapping-Quiet : (id : ℕ) (e : ParsedEvent) (s : Handler) → Quiet s (add_mapping id e s).0
unfolding add_mapping
add_mapping-Quiet id e s = elim (Bool-cases (id == 0)) [
  | inl none_given ↦ rw none_given (refl, refl, refl)
  | inr given ↦ rw given (refl, refl, refl)
]

pub del_mapping-Quiet : (e : ParsedEvent) (s : Handler) → Quiet s (del_mapping e s).0
unfolding del_mapping
del_mapping-Quiet e s = elim (Bool-cases e.has_io) [
  | inl has ↦ rw has (refl, refl, refl)
  | inr has ↦ rw has (refl, refl, refl)
]

handle_io-Quiet : (h : Header) (x : IoEvent) (s : Handler) → Quiet s (handle_io h x s)
unfolding handle_io
handle_io-Quiet h x s = elim (Bool-cases (is_outside s x.lba x.len)) [
  | inl outside ↦ rw outside (refl, refl, refl)
  | inr outside ↦ rw outside (add_mapping-Quiet x.id (request h x s) s)
]

complete_found-Quiet :
    (h : Header) (c : IoCompletion) (p : ℕ) (e : Option ParsedEvent) (s : Handler)
    → Quiet s (complete_found h c p e s)
unfolding store
complete_found-Quiet h c p none s = (refl, refl, refl)
complete_found-Quiet h c p (some e) s = elim (Bool-cases (leb e.header.timestamp h.timestamp)) [
  | inl after ↦ rw after (del_mapping-Quiet e s)
  | inr after ↦ rw after (del_mapping-Quiet e s)
]

complete-Quiet :
    (h : Header) (c : IoCompletion) (p : Option ℕ) (s : Handler) → Quiet s (complete h c p s)
complete-Quiet h c none s = (refl, refl, refl)
complete-Quiet h c (some p) s = complete_found-Quiet h c p (deref s p) s

handle_completion-Steps :
    (t : Trace) (finished : Bool) (h : Header) (c : IoCompletion) (s : Handler)
    → Steps t s (handle_completion t finished h c s)
unfolding handle_completion
handle_completion-Steps t finished h c s = elim (Bool-cases (is_outside s c.lba c.len)) [
  | inl outside ↦ rw outside (quiet (refl, refl, refl))
  | inr outside ↦ rw outside (
      next (quiet (complete-Quiet h c (s.id_mapping c.ref_id) s))
        (flush_events-Steps t finished (complete h c (s.id_mapping c.ref_id) s)))
]

meta_found-Quiet :
    (x : FilesystemMeta) (p : ℕ) (e : Option ParsedEvent) (s : Handler)
    → Quiet s (meta_found x p e s)
unfolding store
meta_found-Quiet x p none s = (refl, refl, refl)
meta_found-Quiet x p (some e) s = (refl, refl, refl)

meta_at-Quiet : (x : FilesystemMeta) (p : Option ℕ) (s : Handler) → Quiet s (meta_at x p s)
meta_at-Quiet x none s = (refl, refl, refl)
meta_at-Quiet x (some p) s = meta_found-Quiet x p (deref s p) s

dispatch-Steps :
    (t : Trace) (finished : Bool) (h : Header) (b : Body) (s : Handler)
    → Steps t s (dispatch t finished h b s)
unfolding handle_device handle_meta handle_file_event
dispatch-Steps t finished h (device_description d) s = quiet (refl, refl, refl)
dispatch-Steps t finished h (io x) s = quiet (handle_io-Quiet h x s)
dispatch-Steps t finished h (io_completion c) s = handle_completion-Steps t finished h c s
dispatch-Steps t finished h (filesystem_meta x) s =
    quiet (meta_at-Quiet x (s.id_mapping x.ref_id) s)
dispatch-Steps t finished h (filesystem_file_event x) s = quiet (refl, refl, refl)
dispatch-Steps t finished h filesystem_file_name s = quiet (refl, refl, refl)
dispatch-Steps t finished h other_body s = quiet (refl, refl, refl)

pub handle_event-Steps :
    (t : Trace) (finished : Bool) (e : TraceEvent) (s : Handler)
    → Steps t s (handle_event t finished e s)
unfolding handle_event
handle_event-Steps t finished e s =
    let s' : Handler = record s { timestamp_offset = offset_after e s.timestamp_offset } in
    next (quiet {s = s} {s' = s'} (refl, refl, refl)) (dispatch-Steps t finished e.header e.body s')

handle_all-Steps :
    (t : Trace) (es : List (Bool × TraceEvent)) (s : Handler) → Steps t s (handle_all t es s)
unfolding handle_all
handle_all-Steps t [] s = quiet (refl, refl, refl)
handle_all-Steps t ((finished, e) ∷ es) s =
    next (handle_event-Steps t finished e s) (handle_all-Steps t es (handle_event t finished e s))

pub process_events-Steps :
    (t : Trace) (es : List (Bool × TraceEvent)) (s : Handler) → Steps t s (process_events t es s)
unfolding process_events
process_events-Steps t es s =
    next (handle_all-Steps t es s) (flush_events-Steps t true (handle_all t es s))
