-- ===== src/ParsedIo/Tests.antt =====
-- A small trace, on which the theorems about the parsed I/O are applied.
use open_cas_telemetry_frame.Prelude.{
  ℕ, ◌*◌, ◌<◌, ◌≡◌, refl, Bool, true, false, some, List, [], ◌∷◌, ◌++◌, arith, if◌then◌else◌,
  length,
}
use open_cas_telemetry_frame.FileView.{get_file_path}
use open_cas_telemetry_frame.ParsedIo.Event.{
  Header, Device, IoCompletion, device_description, io, io_completion, filesystem_file_event,
  TraceEvent, ParsedEvent, no_flags,
}
use open_cas_telemetry_frame.ParsedIo.Queue.{
  Handler, Trace, new_handler, set_exclusive_subrange, deref, add_mapping, store, del_mapping,
}
use open_cas_telemetry_frame.ParsedIo.Handler.{
  flush_events, complete, handle_all, handle_event, process_events, handle_device, handle_io,
  is_outside, handle_file_event, flush_ready, flush_rest, handle_completion, push_out_event,
}
use open_cas_telemetry_frame.ParsedIo.Pointers.{IsSound}
use open_cas_telemetry_frame.ParsedIo.Safety.{
  handle_event-IsSound, handle_all-IsSound, process_events-not_dangling,
}
use open_cas_telemetry_frame.ParsedIo.Order.{entries}
use open_cas_telemetry_frame.ParsedIo.Drained.{entries_of_trace}
use open_cas_telemetry_frame.ParsedIo.Flush.{
  flush_events-within, flush_events-drains, process_events-in_order,
}
use open_cas_telemetry_frame.ParsedIo.Completion.{Completes, complete-Completes}
use open_cas_telemetry_frame.ParsedIo.Numbered.{sids, counted, with_sids, process_events-IsNumbered}

abbrev trace : Trace
trace = record { viewers = λ p. []; tags = []; writable = true }

abbrev disk : Device
disk = record { id = 7; name = 100 ∷ []; size = 4096; model = [] }

abbrev request_at : ℕ → ℕ → TraceEvent
request_at id time = record {
  header = record { sid = id; timestamp = time };
  body = io (record {
    id = id;
    device_id = 7;
    lba = 8 * id;
    len = 8;
    operation = 1;
    flags = no_flags;
    write_hint = 0;
  });
}

abbrev completion_of_5 : IoCompletion
completion_of_5 = record { ref_id = 5; device_id = 7; lba = 40; len = 8; error = false }

abbrev time_150 : Header
time_150 = record { sid = 9; timestamp = 150 }

abbrev opened : TraceEvent
opened = record {
  header = record { sid = 3; timestamp = 120 };
  body = filesystem_file_event (record {
    file_id = record { partition_id = 7; id = 11; creation_date = 1 };
    fs_event_type = 2;
  });
}

-- A device, two requests, a file event, and the completion of the first request.
abbrev submitted : List (Bool × TraceEvent)
submitted =
    (false, record { header = record { sid = 1; timestamp = 90 }; body = device_description disk })
    ∷ (false, request_at 5 100)
    ∷ (false, request_at 6 110)
    ∷ (false, opened)
    ∷ []

abbrev events : List (Bool × TraceEvent)
events =
    submitted ++ (false, record { header = time_150; body = io_completion completion_of_5 }) ∷ []

abbrev waiting : Handler
waiting = handle_all trace submitted new_handler

mapped : waiting.id_mapping 5 ≡ some 0
unfolding new_handler handle_all handle_event handle_device handle_io add_mapping is_outside
    handle_file_event
mapped = refl

waiting-IsSound : IsSound waiting
unfolding new_handler
waiting-IsSound = handle_all-IsSound trace submitted new_handler (λ i p h. ground arith, refl)

handle_event-IsSound_example : IsSound (handle_event trace false opened waiting)
handle_event-IsSound_example = handle_event-IsSound trace false opened waiting waiting-IsSound

process_events-not_dangling_example :
    (process_events trace events (set_exclusive_subrange 0 48 new_handler)).dangling ≡ false
process_events-not_dangling_example = process_events-not_dangling trace 0 48 events

process_events-in_order_example :
    let s = process_events trace events (set_exclusive_subrange 0 48 new_handler) in
    (entries s.handled ≡ entries_of_trace 0 48 events) × (s.queue ≡ [])
process_events-in_order_example = process_events-in_order trace 0 48 events

process_events-IsNumbered_example :
    let s = process_events trace events (set_exclusive_subrange 0 48 new_handler) in
    (sids s.handled ≡ counted (length s.handled))
    × (s.written ≡ (if trace.writable then with_sids s.handled else []))
process_events-IsNumbered_example = process_events-IsNumbered trace 0 48 events

waiting_limit : 0 < waiting.limit
unfolding new_handler handle_all handle_event handle_device handle_io add_mapping is_outside
    handle_file_event
waiting_limit = omega arith

flush_events-within_example : length (flush_events trace false waiting).queue < waiting.limit
flush_events-within_example = flush_events-within trace waiting waiting_limit

flush_events-drains_example : (flush_events trace true waiting).queue ≡ []
flush_events-drains_example = flush_events-drains trace waiting

complete-Completes_example :
    (e : ParsedEvent) × (deref waiting 0 ≡ some e)
    × (e.has_io ≡ true)
    × (e.header.sid ≡ 5)
    × Completes time_150 completion_of_5 0 e waiting
        (complete time_150 completion_of_5 (waiting.id_mapping 5) waiting)
complete-Completes_example =
    complete-Completes time_150 completion_of_5 0 waiting waiting-IsSound mapped

-- The numbers and latencies of what is handed out.
abbrev seen : List ParsedEvent → List (ℕ × ℕ × ℕ)
seen [] = []
seen (e ∷ es) = (e.header.sid, e.header.timestamp, e.io.latency) ∷ seen es

outcome :
    seen (process_events trace events new_handler).handled
    ≡ (1, 0, 50) ∷ (2, 10, 0) ∷ (3, 20, 0) ∷ []
unfolding process_events flush_events flush_ready flush_rest handle_all handle_event
    handle_completion is_outside handle_file_event handle_io handle_device new_handler add_mapping
    deref store del_mapping push_out_event get_file_path
outcome = refl
