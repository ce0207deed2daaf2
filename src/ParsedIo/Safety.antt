-- ===== src/ParsedIo/Safety.antt =====
-- The handler of source/octf/trace/parser/v2/ParsedIoTraceEventHandler.cpp never follows a pointer to an
-- event that has left its queue.
use open_cas_telemetry_frame.Prelude.{
  ℕ, ◌-◌, ◌≤◌, ◌≡◌, refl, sym, ◌∙◌, subst, inl, inr, Bool, true, false, some, List, [], ◌∷◌, arith,
  ltb, leb, ◌==◌, Bool-cases, Option-cases, set,
}
use open_cas_telemetry_frame.ParsedIo.Event.{
  Header, IoEvent, IoCompletion, FilesystemMeta, FilesystemFileEvent, Body, device_description, io,
  io_completion, filesystem_meta, filesystem_file_event, filesystem_file_name, other_body,
  TraceEvent, ParsedEvent,
}
use open_cas_telemetry_frame.ParsedIo.Queue.{
  Handler, Trace, nth, deref, store, add_mapping, del_mapping, new_handler, IoQueueDepth,
  set_exclusive_subrange,
}
use open_cas_telemetry_frame.ParsedIo.Handler.{
  is_outside, handle_device, request, handle_io, complete_found, complete, handle_completion,
  with_file, handle_meta, file_event, handle_file_event, dispatch, handle_event, handle_all,
  process_events, with_partition, completed, one_less,
}
use open_cas_telemetry_frame.ParsedIo.Mapping.{
  IsMapped, append-IsMapped, add-IsMapped, store-IsMapped,
}
use open_cas_telemetry_frame.ParsedIo.Pointers.{
  IsSound, flush_events-IsSound, del_mapping-SameRest, del_mapping-sub, del_mapping-gone, SameRest,
}

handle_io-IsSound : (h : Header) (x : IoEvent) (s : Handler) → IsSound s → IsSound (handle_io h x s)
unfolding handle_io add_mapping
handle_io-IsSound h x s (m, d) = elim (Bool-cases (is_outside s x.lba x.len)) [
  | inl outside ↦ rw outside (m, d)
  | inr outside ↦ rw outside (elim (Bool-cases (x.id == 0)) [
    | inl unnamed ↦ rw unnamed (append-IsMapped s.queue s.popped s.id_mapping (request h x s) m, d)
    | inr named ↦ rw named (
      add-IsMapped s.queue s.popped s.id_mapping
          (record (request h x s) { header = record h { sid = x.id } }) refl m,
      d,
    )
  ])
]

-- Where the mapping leads to an event, the event is found there, and it is the request of the id.
pub deref-Leads :
    (s : Handler) (i p : ℕ)
    → IsMapped s.queue s.popped s.id_mapping
    → s.id_mapping i ≡ some p
    → (e : ParsedEvent) × (deref s p ≡ some e)
      × (s.popped ≤ p)
      × (nth s.queue (p - s.popped) ≡ some e)
      × (e.has_io ≡ true)
      × (e.header.sid ≡ i)
unfolding deref
deref-Leads s i p m at =
    let (e, le, there, has, sid) = m i p at in
    let still : ltb p s.popped ≡ false = ground arith in (e, rw still there, le, there, has, sid)

-- The event `e` that `p` leads to is replaced in a state that keeps the queue and forgets mappings at most.
store-IsSound :
    (p : ℕ) (e x : ParsedEvent) (s s' : Handler)
    → IsSound s
    → s.popped ≤ p
    → nth s.queue (p - s.popped) ≡ some e
    → SameRest s s'
    → ((i q : ℕ) → s'.id_mapping i ≡ some q → s.id_mapping i ≡ some q)
    → ((i : ℕ)
        → s'.id_mapping i ≡ some p
        → e.header.sid ≡ i
        → (x.has_io ≡ true) × (x.header.sid ≡ i))
    → IsSound (store s' p x)
unfolding store
store-IsSound p e x s s' (m, d) le at (queue, popped, dangling) sub keep =
    let kept : IsMapped (set s.queue (p - s.popped) x) s.popped s'.id_mapping =
      store-IsMapped s.queue s.popped s.id_mapping s'.id_mapping p e x le at sub keep m in
    (
      subst (λ (n : ℕ). IsMapped (set s'.queue (p - n) x) n s'.id_mapping) (sym popped)
          (subst
            (λ (es : List ParsedEvent). IsMapped (set es (p - s.popped) x) s.popped s'.id_mapping)
            (sym queue) kept),
      dangling ∙ d,
    )

complete_found-IsSound :
    (h : Header) (c : IoCompletion) (p : ℕ) (e : ParsedEvent) (s : Handler)
    → IsSound s
    → s.popped ≤ p
    → nth s.queue (p - s.popped) ≡ some e
    → e.has_io ≡ true
    → IsSound (complete_found h c p (some e) s)
complete_found-IsSound h c p e s sound le at has =
    let (s', e') = del_mapping e s in
    let stored : (x : ParsedEvent) (qd : ℕ → IoQueueDepth)
        → IsSound (store (record s' { queue_depth = qd }) p x) =
      λ x qd.
        store-IsSound p e x s (record s' { queue_depth = qd }) sound le at
          (del_mapping-SameRest e s) (del_mapping-sub e s)
          (λ i m sid. absurd (del_mapping-gone e s i p m has sid)) in
    elim (Bool-cases (leb e.header.timestamp h.timestamp)) [
      | inl after ↦ rw after (
          stored (record e' { io = completed h c e'.io e.header.timestamp })
            (one_less s'.queue_depth c.device_id))
      | inr after ↦ rw after (stored e' s'.queue_depth)
    ]

complete-IsSound :
    (h : Header) (c : IoCompletion) (s : Handler)
    → IsSound s
    → IsSound (complete h c (s.id_mapping c.ref_id) s)
complete-IsSound h c s sound = elim (Option-cases (s.id_mapping c.ref_id)) [
  | inl missing ↦ rw missing sound
  | inr (p, at) ↦
      let (e, there, le, found, has, _) = deref-Leads s c.ref_id p sound.0 at in
      rw at (rw there (complete_found-IsSound h c p e s sound le found has))
]

handle_completion-IsSound :
    (t : Trace) (finished : Bool) (h : Header) (c : IoCompletion) (s : Handler)
    → IsSound s
    → IsSound (handle_completion t finished h c s)
unfolding handle_completion
handle_completion-IsSound t finished h c s sound = elim (Bool-cases (is_outside s c.lba c.len)) [
  | inl outside ↦ rw outside sound
  | inr outside ↦ rw outside (flush_events-IsSound t finished _ (complete-IsSound h c s sound))
]

handle_meta-IsSound : (x : FilesystemMeta) (s : Handler) → IsSound s → IsSound (handle_meta x s)
unfolding handle_meta
handle_meta-IsSound x s sound = elim (Option-cases (s.id_mapping x.ref_id)) [
  | inl missing ↦ rw missing sound
  | inr (p, at) ↦
      let (e, there, le, found, has, _) = deref-Leads s x.ref_id p sound.0 at in
      rw at (
        rw there (
          store-IsSound p e (with_file x e) s
            (record s { devices = with_partition x.file_id.partition_id e.device.id s.devices })
            sound le found (refl, refl, refl) (λ i q h. h) (λ i h sid. (has, sid))))
]

handle_file_event-IsSound :
    (h : Header) (x : FilesystemFileEvent) (s : Handler)
    → IsSound s
    → IsSound (handle_file_event h x s)
unfolding handle_file_event
handle_file_event-IsSound h x s (m, d) =
    (append-IsMapped s.queue s.popped s.id_mapping (file_event h x s) m, d)

dispatch-IsSound :
    (t : Trace) (finished : Bool) (h : Header) (b : Body) (s : Handler)
    → IsSound s
    → IsSound (dispatch t finished h b s)
unfolding handle_device
dispatch-IsSound t finished h (device_description d) s sound = sound
dispatch-IsSound t finished h (io x) s sound = handle_io-IsSound h x s sound
dispatch-IsSound t finished h (io_completion c) s sound =
    handle_completion-IsSound t finished h c s sound
dispatch-IsSound t finished h (filesystem_meta x) s sound = handle_meta-IsSound x s sound
dispatch-IsSound t finished h (filesystem_file_event x) s sound =
    handle_file_event-IsSound h x s sound
dispatch-IsSound t finished h filesystem_file_name s sound = sound
dispatch-IsSound t finished h other_body s sound = sound

-- Whatever event comes next, with any value of `isFinished`: if each pointer of the id mapping leads to
-- the request of its id in the queue and no pointer to an event that is gone was followed, then this
-- holds of the state after the event.
pub handle_event-IsSound :
    (t : Trace) (finished : Bool) (e : TraceEvent) (s : Handler)
    → IsSound s
    → IsSound (handle_event t finished e s)
unfolding handle_event
handle_event-IsSound t finished e s sound = dispatch-IsSound t finished e.header e.body _ sound

pub handle_all-IsSound :
    (t : Trace) (es : List (Bool × TraceEvent)) (s : Handler)
    → IsSound s
    → IsSound (handle_all t es s)
unfolding handle_all
handle_all-IsSound t [] s sound = sound
handle_all-IsSound t ((finished, e) ∷ es) s sound =
    handle_all-IsSound t es _ (handle_event-IsSound t finished e s sound)

-- However the events of a trace follow each other, a handler that starts empty, whatever its subrange,
-- never follows a pointer to an event that has left its queue.
pub process_events-not_dangling :
    (t : Trace) (start end : ℕ) (es : List (Bool × TraceEvent))
    → (process_events t es (set_exclusive_subrange start end new_handler)).dangling ≡ false
unfolding process_events set_exclusive_subrange new_handler
process_events-not_dangling t start end es =
    (flush_events-IsSound t true _ (handle_all-IsSound t es _ (λ i p h. ground arith, refl))).1
