-- ===== src/ParsedIo/Handler.antt =====
-- The operations of source/octf/trace/parser/v2/ParsedIoTraceEventHandler.cpp: handleEvent, flushEvents
-- and pushOutEvent.
use open_cas_telemetry_frame.Prelude.{
  ℕ, ◌+◌, ◌-◌, Bool, true, false, ◌&&◌, ◌||◌, not, Option, none, some, List, [], ◌∷◌, ◌++◌, ltb,
  leb, ◌==◌, if◌then◌else◌, length, add64, sub64, mul64,
}
use open_cas_telemetry_frame.FileView.{Str, get_file_path}
use open_cas_telemetry_frame.ParsedIo.Event.{
  Header, Device, IoEvent, IoCompletion, FilesystemMeta, FilesystemFileEvent, Body,
  device_description, io, io_completion, filesystem_meta, filesystem_file_event,
  filesystem_file_name, other_body, TraceEvent, Io, ParsedEvent, no_io, no_file, file_id_of,
}
use open_cas_telemetry_frame.ParsedIo.Queue.{
  IoQueueDepth, Handler, Trace, queue_limit, put, device_at, has_device, set_device, touch_device,
  deref, store, add_mapping, del_mapping,
}

-- Whether a range lies outside the subrange that is set.
unfoldable pub is_outside : Handler → ℕ → ℕ → Bool
is_outside s lba len =
    if s.subrange_end == 0
    then false
    else ltb (add64 lba len) s.subrange_start || ltb s.subrange_end lba

-- The event as `pushOutEvent` hands it out.
abbrev pub tags_of : List (Str × Str) → List (Str × Str) → List (Str × Str)
tags_of [] old = old
tags_of (x ∷ xs) old = x ∷ xs

abbrev pub out_event : Trace → Handler → ℕ → ParsedEvent → ParsedEvent
out_event t s sid e = record e {
  header = record {
    sid = sid;
    timestamp =
        if ltb s.timestamp_offset e.header.timestamp
        then e.header.timestamp - s.timestamp_offset
        else 0;
  };
  io = record e.io {
    qd = if e.has_io then sub64 e.io.qd (s.queue_depth e.device.id).adjustment else e.io.qd;
  };
  file = record e.file {
    path =
        if e.has_file
        then get_file_path (file_id_of e) (t.viewers e.device.partition)
        else e.file.path;
  };
  tags = tags_of t.tags e.tags;
}

-- The queue depths after it: an event whose completion was lost disturbs those of the next events.
abbrev pub adjusted : (ℕ → IoQueueDepth) → ParsedEvent → ℕ → IoQueueDepth
adjusted qd e =
    if e.has_io && e.io.latency == 0
    then put qd e.device.id
        (record (qd e.device.id) { adjustment = add64 (qd e.device.id).adjustment 1 })
    else qd

-- `pushOutEvent` of the front `e` of the queue, behind which are the events `es`.
unfoldable pub push_out_event : Trace → ParsedEvent → List ParsedEvent → Handler → Handler
push_out_event t e es s =
    let (s', e') = del_mapping e s in
    let sid = add64 s'.ref_sid 1 in
    let out = out_event t s' sid e' in
    record s' {
      queue = es;
      popped = s'.popped + 1;
      ref_sid = sid;
      queue_depth = adjusted s'.queue_depth out;
      handled = s'.handled ++ out ∷ [];
      written = if t.writable then s'.written ++ (sid, out) ∷ [] else s'.written;
    }

-- `flushEvents`: the loop over the events at the front that have a latency, and the loop for a queue
-- that is too long or whose trace is over. The list is the queue of the state.
unfoldable pub flush_ready : Trace → List ParsedEvent → Handler → Handler
flush_ready t [] s = s
flush_ready t (e ∷ es) s =
    let rest = flush_ready t es (push_out_event t e es s) in if e.io.latency == 0 then s else rest

unfoldable pub flush_rest : Trace → Bool → List ParsedEvent → Handler → Handler
flush_rest t finished [] s = s
flush_rest t finished (e ∷ es) s =
    let s' = push_out_event t e es s in
    let rest = flush_rest t finished es s' in
    if not finished && ltb (length es) s'.limit then s' else rest

abbrev pub flush_long : Trace → Bool → Handler → Handler
flush_long t finished s =
    if ltb (length s.queue) s.limit && not finished then s else flush_rest t finished s.queue s

unfoldable pub flush_events : Trace → Bool → Handler → Handler
flush_events t finished s = flush_long t finished (flush_ready t s.queue s)

-- `handleEvent` of a device's description.
unfoldable pub handle_device : Device → Handler → Handler
handle_device d s =
    let devices = set_device d.id d s.devices in
    record s {
      devices = devices;
      limit = mul64 queue_limit (length devices);
      described = s.described ++ d ∷ [];
    }

-- `handleEvent` of a request.
abbrev pub request : Header → IoEvent → Handler → ParsedEvent
request h x s =
    let d = device_at x.device_id s.devices in
    record {
      header = h;
      has_io = true;
      io = record {
        lba = x.lba;
        len = x.len;
        operation = x.operation;
        flags = x.flags;
        write_hint = x.write_hint;
        qd = add64 (s.queue_depth x.device_id).value 1;
        latency = 0;
        error = false;
      };
      device = record { id = x.device_id; name = d.name; partition = x.device_id; model = d.model };
      has_file = false;
      file = no_file;
      tags = [];
    }

unfoldable pub handle_io : Header → IoEvent → Handler → Handler
handle_io h x s =
    let (s', e) = add_mapping x.id (request h x s) s in
    let qd = s.queue_depth x.device_id in
    if is_outside s x.lba x.len then s else record s' {
      queue = s'.queue ++ e ∷ [];
      devices = touch_device x.device_id s'.devices;
      queue_depth = put s'.queue_depth x.device_id (record qd { value = add64 qd.value 1 });
    }

-- `handleEvent` of a completion: the request is told its latency and result.
abbrev pub completed : Header → IoCompletion → Io → ℕ → Io
completed h c x submitted =
    let valid = not (c.lba == 0) && not (c.len == 0) in
    record x {
      latency = h.timestamp - submitted;
      error = c.error;
      lba = if valid then c.lba else x.lba;
      len = if valid then c.len else x.len;
    }

abbrev pub one_less : (ℕ → IoQueueDepth) → ℕ → ℕ → IoQueueDepth
one_less qd i = put qd i (record (qd i) { value = (qd i).value - 1 })

abbrev pub complete_found : Header → IoCompletion → ℕ → Option ParsedEvent → Handler → Handler
complete_found h c p none s = record s { dangling = true }
complete_found h c p (some e) s =
    let (s', e') = del_mapping e s in
    if leb e.header.timestamp h.timestamp
    then store (record s' { queue_depth = one_less s'.queue_depth c.device_id }) p
        (record e' { io = completed h c e'.io e.header.timestamp })
    else store s' p e'

abbrev pub complete : Header → IoCompletion → Option ℕ → Handler → Handler
complete h c none s = s
complete h c (some p) s = complete_found h c p (deref s p) s

unfoldable pub handle_completion : Trace → Bool → Header → IoCompletion → Handler → Handler
handle_completion t finished h c s =
    if is_outside s c.lba c.len
    then s
    else flush_events t finished (complete h c (s.id_mapping c.ref_id) s)

-- `handleEvent` of the file that a request belongs to.
abbrev pub access : ℕ
access = 5

abbrev pub with_file : FilesystemMeta → ParsedEvent → ParsedEvent
with_file x e = record e {
  has_file = true;
  file = record e.file {
    id = x.file_id.id;
    offset = x.file_offset;
    size = x.file_size;
    event_type = access;
    creation_date = x.file_id.creation_date;
  };
  device = record e.device { partition = x.file_id.partition_id };
}

abbrev pub with_partition : ℕ → ℕ → List (ℕ × Device) → List (ℕ × Device)
with_partition partition device ds =
    let ds' = touch_device device ds in
    if has_device partition ds then ds else set_device partition (device_at device ds') ds'

abbrev pub meta_found : FilesystemMeta → ℕ → Option ParsedEvent → Handler → Handler
meta_found x p none s = record s { dangling = true }
meta_found x p (some e) s =
    store (record s { devices = with_partition x.file_id.partition_id e.device.id s.devices }) p
      (with_file x e)

abbrev pub meta_at : FilesystemMeta → Option ℕ → Handler → Handler
meta_at x none s = s
meta_at x (some p) s = meta_found x p (deref s p) s

unfoldable pub handle_meta : FilesystemMeta → Handler → Handler
handle_meta x s = meta_at x (s.id_mapping x.ref_id) s

-- `handleEvent` of a file event, which is put into the queue by itself.
abbrev pub file_event : Header → FilesystemFileEvent → Handler → ParsedEvent
file_event h x s =
    let d = device_at x.file_id.partition_id s.devices in
    record {
      header = h;
      has_io = false;
      io = no_io;
      device = record {
        id = d.id;
        name = d.name;
        partition = x.file_id.partition_id;
        model = d.model;
      };
      has_file = true;
      file = record no_file {
        id = x.file_id.id;
        event_type = x.fs_event_type;
        creation_date = x.file_id.creation_date;
      };
      tags = [];
    }

unfoldable pub handle_file_event : Header → FilesystemFileEvent → Handler → Handler
handle_file_event h x s = record s {
  queue = s.queue ++ file_event h x s ∷ [];
  devices = touch_device x.file_id.partition_id s.devices;
}

-- `handleEvent`. `finished` is what the parser's isFinished returns.
abbrev pub offset_after : TraceEvent → ℕ → ℕ
offset_after e offset =
    if offset == 0
    then (elim e.body [ device_description d ↦ offset | _ ↦ e.header.timestamp ])
    else offset

abbrev pub dispatch : Trace → Bool → Header → Body → Handler → Handler
dispatch t finished h (device_description d) s = handle_device d s
dispatch t finished h (io x) s = handle_io h x s
dispatch t finished h (io_completion c) s = handle_completion t finished h c s
dispatch t finished h (filesystem_meta x) s = handle_meta x s
dispatch t finished h (filesystem_file_event x) s = handle_file_event h x s
dispatch t finished h filesystem_file_name s = s
dispatch t finished h other_body s = s

unfoldable pub handle_event : Trace → Bool → TraceEvent → Handler → Handler
handle_event t finished e s =
    dispatch t finished e.header e.body
      (record s { timestamp_offset = offset_after e s.timestamp_offset })

-- `processEvents` of a trace whose parsed events are not cached and that is not cancelled: its events,
-- each with what isFinished returned then, and the last flush, when the parser is finished. The commit of
-- the extension is left out.
unfoldable pub handle_all : Trace → List (Bool × TraceEvent) → Handler → Handler
handle_all t [] s = s
handle_all t ((finished, e) ∷ es) s = handle_all t es (handle_event t finished e s)

unfoldable pub process_events : Trace → List (Bool × TraceEvent) → Handler → Handler
process_events t es s = flush_events t true (handle_all t es s)
