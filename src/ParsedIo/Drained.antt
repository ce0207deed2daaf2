-- ===== src/ParsedIo/Drained.antt =====
-- What source/octf/trace/parser/v2/ParsedIoTraceEventHandler.cpp hands out of a whole trace: every
-- request and every file event, in the order of the trace.
use open_cas_telemetry_frame.Prelude.{
  ℕ, zero, suc, ◌-◌, ◌≡◌, refl, sym, ap, ap₂, ◌∙◌, subst, inl, inr, Bool, true, ◌&&◌, ◌||◌, not,
  some, List, [], ◌∷◌, ◌++◌, append-nil, append_assoc, ltb, leb, ◌==◌, if◌then◌else◌, Bool-cases,
  Option-cases, set, add64,
}
use open_cas_telemetry_frame.ParsedIo.Event.{
  Header, IoEvent, IoCompletion, FilesystemMeta, Body, device_description, io, io_completion,
  filesystem_meta, filesystem_file_event, filesystem_file_name, other_body, TraceEvent, ParsedEvent,
}
use open_cas_telemetry_frame.ParsedIo.Queue.{Handler, Trace, nth, store, add_mapping, del_mapping}
use open_cas_telemetry_frame.ParsedIo.Handler.{
  is_outside, flush_events, handle_device, request, handle_io, complete_found, handle_completion,
  with_file, handle_meta, file_event, handle_file_event, offset_after, dispatch, handle_event,
  handle_all, with_partition, completed, one_less,
}
use open_cas_telemetry_frame.ParsedIo.Order.{
  Entry, request_entry, file_entry, entry_of, entries, all_entries, entries-append, Adds,
  Adds-nothing, Adds-trans, flush_events-Adds, del_mapping-KeepsEntry,
}
use open_cas_telemetry_frame.ParsedIo.Pointers.{IsSound, del_mapping-SameRest}
use open_cas_telemetry_frame.ParsedIo.Mapping.{event_or}
use open_cas_telemetry_frame.ParsedIo.Safety.{deref-Leads, handle_event-IsSound}

-- The specification: what the events of a trace are to hand out, where the subrange is `start` to `end`.
abbrev is_dropped : ℕ → ℕ → IoEvent → Bool
is_dropped start end x = not (end == 0) && (ltb (add64 x.lba x.len) start || ltb end x.lba)

abbrev pub entries_of_body : ℕ → ℕ → Body → List Entry
entries_of_body start end (device_description d) = []
entries_of_body start end (io x) =
    if is_dropped start end x
    then []
    else request_entry x.operation x.flags x.write_hint x.device_id ∷ []
entries_of_body start end (io_completion c) = []
entries_of_body start end (filesystem_meta x) = []
entries_of_body start end (filesystem_file_event x) =
    file_entry x.file_id.id x.file_id.creation_date x.fs_event_type x.file_id.partition_id ∷ []
entries_of_body start end filesystem_file_name = []
entries_of_body start end other_body = []

abbrev pub entries_of_trace : ℕ → ℕ → List (Bool × TraceEvent) → List Entry
entries_of_trace start end [] = []
entries_of_trace start end (e ∷ es) =
    entries_of_body start end e.1.body ++ entries_of_trace start end es

is_outside-dropped :
    (s : Handler) (x : IoEvent)
    → is_outside s x.lba x.len ≡ is_dropped s.subrange_start s.subrange_end x
unfolding is_outside
is_outside-dropped s x = elim (Bool-cases (s.subrange_end == 0)) [
  | inl e ↦ rw e refl
  | inr e ↦ rw e refl
]

-- An event behind the queue.
append-entries :
    (hs q : List ParsedEvent) (e : ParsedEvent)
    → entries hs ++ entries (q ++ e ∷ []) ≡ (entries hs ++ entries q) ++ entry_of e ∷ []
append-entries hs q e =
    ap (λ (xs : List Entry). entries hs ++ xs) (entries-append q (e ∷ []))
    ∙ sym (append_assoc (entries hs) (entries q) (entry_of e ∷ []))

-- A change of an event that keeps its entry.
entries-set :
    (es : List ParsedEvent) (i : ℕ) (e x : ParsedEvent)
    → nth es i ≡ some e
    → entry_of x ≡ entry_of e
    → entries (set es i x) ≡ entries es
entries-set [] i e x at same = refl
entries-set (y ∷ es) zero e x at same =
    ap (λ (z : Entry). z ∷ entries es) (same ∙ ap entry_of (sym (ap (event_or e) at)))
entries-set (y ∷ es) (suc i) e x at same =
    ap (λ (zs : List Entry). entry_of y ∷ zs) (entries-set es i e x at same)

handle_io-Adds :
    (h : Header) (x : IoEvent) (s : Handler)
    → Adds (entries_of_body s.subrange_start s.subrange_end (io x)) s (handle_io h x s)
unfolding handle_io add_mapping
handle_io-Adds h x s = elim (Bool-cases (is_outside s x.lba x.len)) [
  | inl outside ↦ rw outside (rw (sym (is_outside-dropped s x)) (rw outside (Adds-nothing s)))
  | inr outside ↦ rw outside (
      rw (sym (is_outside-dropped s x)) (
        rw outside (elim (Bool-cases (x.id == 0)) [
          | inl unnamed ↦ rw unnamed (append-entries s.handled s.queue (request h x s), refl, refl)
          | inr named ↦ rw named (
            append-entries s.handled s.queue
                (record (request h x s) { header = record h { sid = x.id } }),
            refl,
            refl,
          )
        ])))
]

store-Adds :
    (p : ℕ) (e x : ParsedEvent) (s s' : Handler)
    → nth s.queue (p - s.popped) ≡ some e
    → entry_of x ≡ entry_of e
    → s'.handled ≡ s.handled
    → s'.queue ≡ s.queue
    → s'.popped ≡ s.popped
    → s'.subrange_start ≡ s.subrange_start
    → s'.subrange_end ≡ s.subrange_end
    → Adds [] s (store s' p x)
unfolding store
store-Adds p e x s s' at same handled queue popped start end = (
  ap₂ (λ (hs es : List ParsedEvent). entries hs ++ entries (set es (p - s'.popped) x)) handled queue
      ∙ ap (λ (n : ℕ). entries s.handled ++ entries (set s.queue (p - n) x)) popped
      ∙ ap (λ (xs : List Entry). entries s.handled ++ xs)
          (entries-set s.queue (p - s.popped) e x at same)
      ∙ sym (append-nil (all_entries s)),
  start,
  end,
)

complete_found-Adds :
    (h : Header) (c : IoCompletion) (p : ℕ) (e : ParsedEvent) (s : Handler)
    → nth s.queue (p - s.popped) ≡ some e
    → Adds [] s (complete_found h c p (some e) s)
complete_found-Adds h c p e s at =
    let (s', e') = del_mapping e s in
    let (same, handled, queue, start, end) = del_mapping-KeepsEntry e s in
    let (_, popped, _) = del_mapping-SameRest e s in
    elim (Bool-cases (leb e.header.timestamp h.timestamp)) [
      | inl after ↦ rw after (
          store-Adds p e (record e' { io = completed h c e'.io e.header.timestamp }) s
            (record s' { queue_depth = one_less s'.queue_depth c.device_id }) at same handled queue
            popped start end)
      | inr after ↦ rw after (store-Adds p e e' s s' at same handled queue popped start end)
    ]

handle_completion-Adds :
    (t : Trace) (finished : Bool) (h : Header) (c : IoCompletion) (s : Handler)
    → IsSound s
    → Adds [] s (handle_completion t finished h c s)
unfolding handle_completion
handle_completion-Adds t finished h c s sound = elim (Bool-cases (is_outside s c.lba c.len)) [
  | inl outside ↦ rw outside (Adds-nothing s)
  | inr outside ↦ rw outside (elim (Option-cases (s.id_mapping c.ref_id)) [
    | inl missing ↦ rw missing (flush_events-Adds t finished s)
    | inr (p, at) ↦
        let (e, there, le, found, has, _) = deref-Leads s c.ref_id p sound.0 at in
        let s' = complete_found h c p (some e) s in
        rw at (
          rw there (
            Adds-trans [] [] s s' (flush_events t finished s') (complete_found-Adds h c p e s found)
              (flush_events-Adds t finished s')))
  ])
]

with_file-entry :
    (x : FilesystemMeta) (e : ParsedEvent) → e.has_io ≡ true → entry_of (with_file x e) ≡ entry_of e
with_file-entry x e has = rw has refl

handle_meta-Adds : (x : FilesystemMeta) (s : Handler) → IsSound s → Adds [] s (handle_meta x s)
unfolding handle_meta
handle_meta-Adds x s sound = elim (Option-cases (s.id_mapping x.ref_id)) [
  | inl missing ↦ rw missing (Adds-nothing s)
  | inr (p, at) ↦
      let (e, there, le, found, has, _) = deref-Leads s x.ref_id p sound.0 at in
      rw at (
        rw there (
          store-Adds p e (with_file x e) s
            (record s { devices = with_partition x.file_id.partition_id e.device.id s.devices })
            found (with_file-entry x e has) refl refl refl refl refl))
]

dispatch-Adds :
    (t : Trace) (finished : Bool) (h : Header) (b : Body) (s : Handler)
    → IsSound s
    → Adds (entries_of_body s.subrange_start s.subrange_end b) s (dispatch t finished h b s)
unfolding handle_device handle_file_event
dispatch-Adds t finished h (device_description d) s sound = Adds-nothing s
dispatch-Adds t finished h (io x) s sound = handle_io-Adds h x s
dispatch-Adds t finished h (io_completion c) s sound = handle_completion-Adds t finished h c s sound
dispatch-Adds t finished h (filesystem_meta x) s sound = handle_meta-Adds x s sound
dispatch-Adds t finished h (filesystem_file_event x) s sound =
    (append-entries s.handled s.queue (file_event h x s), refl, refl)
dispatch-Adds t finished h filesystem_file_name s sound = Adds-nothing s
dispatch-Adds t finished h other_body s sound = Adds-nothing s

pub handle_all-Adds :
    (t : Trace) (es : List (Bool × TraceEvent)) (s : Handler)
    → IsSound s
    → Adds (entries_of_trace s.subrange_start s.subrange_end es) s (handle_all t es s)
unfolding handle_all handle_event
handle_all-Adds t [] s sound = Adds-nothing s
handle_all-Adds t ((finished, e) ∷ es) s sound =
    let s' = handle_event t finished e s in
    let first : Adds (entries_of_body s.subrange_start s.subrange_end e.body) s s' =
      dispatch-Adds t finished e.header e.body
        (record s { timestamp_offset = offset_after e s.timestamp_offset }) sound in
    let rest : Adds (entries_of_trace s.subrange_start s.subrange_end es) s' (handle_all t es s') =
      subst (λ (n : ℕ). Adds (entries_of_trace n s.subrange_end es) s' (handle_all t es s')) first.1
        (subst (λ (n : ℕ). Adds (entries_of_trace s'.subrange_start n es) s' (handle_all t es s'))
          first.2 (handle_all-Adds t es s' (handle_event-IsSound t finished e s sound))) in
    Adds-trans (entries_of_body s.subrange_start s.subrange_end e.body)
      (entries_of_trace s.subrange_start s.subrange_end es) s s' (handle_all t es s') first rest
