-- ===== src/ParsedIo/Queue.antt =====
-- The state of source/octf/trace/parser/v2/ParsedIoTraceEventHandler.cpp, and how its parts are read and
-- written.
use open_cas_telemetry_frame.Prelude.{
  ℕ, zero, suc, ◌+◌, ◌-◌, Bool, false, ◌||◌, Option, none, some, List, [], ◌∷◌, ltb, ◌==◌,
  if◌then◌else◌, length, set,
}
use open_cas_telemetry_frame.FileView.{Str, Viewer}
use open_cas_telemetry_frame.ParsedIo.Event.{Device, ParsedEvent}

-- `IoQueueDepth`.
pub record IoQueueDepth : Type 0 where
  pub value : ℕ
  pub adjustment : ℕ

-- The handler. A pointer to an event of the queue is the number of events that were put into the queue
-- before it; `popped` of them are gone. A std::map of which only the entries are read is a function.
-- `handled` and `written` are the calls of the parent handler's handleIO and of the extension's writer;
-- `dangling` tells that a pointer to an event that is gone was followed.
pub record Handler : Type 0 where
  pub queue : List ParsedEvent
  pub popped : ℕ
  pub ref_sid : ℕ
  pub id_mapping : ℕ → Option ℕ
  pub devices : List (ℕ × Device)
  pub timestamp_offset : ℕ
  pub limit : ℕ
  pub subrange_start : ℕ
  pub subrange_end : ℕ
  pub queue_depth : ℕ → IoQueueDepth
  pub handled : List ParsedEvent
  pub described : List Device
  pub written : List (ℕ × ParsedEvent)
  pub dangling : Bool

-- What does not change while a trace is parsed: the filesystem trees that were built before, by
-- partition, the tags of the trace's summary, and whether the extension takes the parsed events.
pub record Trace : Type 0 where
  pub viewers : ℕ → Viewer
  pub tags : List (Str × Str)
  pub writable : Bool

abbrev pub queue_limit : ℕ
queue_limit = 10000

abbrev pub no_depth : IoQueueDepth
no_depth = record { value = 0; adjustment = 0 }

-- The constructor.
unfoldable pub new_handler : Handler
new_handler = record {
  queue = [];
  popped = 0;
  ref_sid = 0;
  id_mapping = λ i. none;
  devices = [];
  timestamp_offset = 0;
  limit = queue_limit;
  subrange_start = 0;
  subrange_end = 0;
  queue_depth = λ d. no_depth;
  handled = [];
  described = [];
  written = [];
  dangling = false;
}

-- `setExclusiveSubrange`.
unfoldable pub set_exclusive_subrange : ℕ → ℕ → Handler → Handler
set_exclusive_subrange start end s = record s { subrange_start = start; subrange_end = end }

abbrev pub put {ℓ} : {A : Type ℓ} → (ℕ → A) → ℕ → A → ℕ → A
put f i a = λ j. if j == i then a else f j

-- The map of the devices: `operator[]` makes an empty description where there is none.
abbrev pub no_device : Device
no_device = record { id = 0; name = []; size = 0; model = [] }

abbrev pub device_at : ℕ → List (ℕ × Device) → Device
device_at i [] = no_device
device_at i (d ∷ ds) = let rest = device_at i ds in if d.0 == i then d.1 else rest

abbrev pub has_device : ℕ → List (ℕ × Device) → Bool
has_device i [] = false
has_device i (d ∷ ds) = d.0 == i || has_device i ds

abbrev pub set_device : ℕ → Device → List (ℕ × Device) → List (ℕ × Device)
set_device i x [] = (i, x) ∷ []
set_device i x (d ∷ ds) = let rest = set_device i x ds in if d.0 == i then (i, x) ∷ ds else d ∷ rest

abbrev pub touch_device : ℕ → List (ℕ × Device) → List (ℕ × Device)
touch_device i ds = if has_device i ds then ds else set_device i no_device ds

-- The event that a pointer leads to, and its update.
abbrev pub nth : List ParsedEvent → ℕ → Option ParsedEvent
nth [] i = none
nth (e ∷ es) zero = some e
nth (e ∷ es) (suc i) = nth es i

unfoldable pub deref : Handler → ℕ → Option ParsedEvent
deref s p = if ltb p s.popped then none else nth s.queue (p - s.popped)

unfoldable pub store : Handler → ℕ → ParsedEvent → Handler
store s p e = record s { queue = set s.queue (p - s.popped) e }

-- `addMapping` of an event of the id `id`, the last one of the queue: the id goes to the event's sid.
unfoldable pub add_mapping : ℕ → ParsedEvent → Handler → Handler × ParsedEvent
add_mapping id e s = if id == 0 then (s, e) else (
  record s { id_mapping = put s.id_mapping id (some (s.popped + length s.queue)) },
  record e { header = record e.header { sid = id } },
)

-- `delMapping`.
unfoldable pub del_mapping : ParsedEvent → Handler → Handler × ParsedEvent
del_mapping e s =
    if e.has_io
    then (
      record s { id_mapping = put s.id_mapping e.header.sid none },
      record e { header = record e.header { sid = 0 } },
    )
    else (s, e)
