-- ===== src/ParsedIo/Event.antt =====
-- The events of source/octf/proto/trace.proto and parsedTrace.proto that the handler of
-- source/octf/trace/parser/v2/ParsedIoTraceEventHandler.cpp reads and makes.
use open_cas_telemetry_frame.Prelude.{ℕ, Bool, false, List, []}
use open_cas_telemetry_frame.FileView.{Str, FileId}

-- `EventHeader`.
pub record Header : Type 0 where
  pub sid : ℕ
  pub timestamp : ℕ

pub record Flags : Type 0 where
  pub flush : Bool
  pub fua : Bool
  pub direct : Bool
  pub metadata : Bool
  pub readahead : Bool

-- `EventDeviceDescription`.
pub record Device : Type 0 where
  pub id : ℕ
  pub name : Str
  pub size : ℕ
  pub model : Str

-- `EventIo`; the operation is the number of the `IoType`.
pub record IoEvent : Type 0 where
  pub id : ℕ
  pub device_id : ℕ
  pub lba : ℕ
  pub len : ℕ
  pub operation : ℕ
  pub flags : Flags
  pub write_hint : ℕ

-- `EventIoCompletion`.
pub record IoCompletion : Type 0 where
  pub ref_id : ℕ
  pub device_id : ℕ
  pub lba : ℕ
  pub len : ℕ
  pub error : Bool

-- `EventIoFilesystemMeta`.
pub record FilesystemMeta : Type 0 where
  pub ref_id : ℕ
  pub file_id : FileId
  pub file_offset : ℕ
  pub file_size : ℕ

-- `EventIoFilesystemFileEvent`; the type is the number of the `FsEventType`.
pub record FilesystemFileEvent : Type 0 where
  pub file_id : FileId
  pub fs_event_type : ℕ

-- The cases of `Event::EventTypeCase`.
pub data Body : Type 0 where
  device_description : Device → Body
  io : IoEvent → Body
  io_completion : IoCompletion → Body
  filesystem_meta : FilesystemMeta → Body
  filesystem_file_event : FilesystemFileEvent → Body
  filesystem_file_name other_body : Body

pub record TraceEvent : Type 0 where
  pub header : Header
  pub body : Body

-- `ParsedEvent`, with its `IO`, `DeviceInfo` and `FileInfo`.
pub record Io : Type 0 where
  pub lba : ℕ
  pub len : ℕ
  pub operation : ℕ
  pub flags : Flags
  pub write_hint : ℕ
  pub qd : ℕ
  pub latency : ℕ
  pub error : Bool

pub record DeviceInfo : Type 0 where
  pub id : ℕ
  pub name : Str
  pub partition : ℕ
  pub model : Str

pub record FileAccess : Type 0 where
  pub id : ℕ
  pub offset : ℕ
  pub size : ℕ
  pub event_type : ℕ
  pub creation_date : ℕ
  pub path : Str

-- `has_io` and `has_file` tell whether the message has the part; without it the part reads as its
-- default.
pub record ParsedEvent : Type 0 where
  pub header : Header
  pub has_io : Bool
  pub io : Io
  pub device : DeviceInfo
  pub has_file : Bool
  pub file : FileAccess
  pub tags : List (Str × Str)

abbrev pub no_flags : Flags
no_flags = record {
  flush = false;
  fua = false;
  direct = false;
  metadata = false;
  readahead = false;
}

abbrev pub no_io : Io
no_io = record {
  lba = 0;
  len = 0;
  operation = 0;
  flags = no_flags;
  write_hint = 0;
  qd = 0;
  latency = 0;
  error = false;
}

abbrev pub no_file : FileAccess
no_file = record { id = 0; offset = 0; size = 0; event_type = 0; creation_date = 0; path = [] }

-- `FileId(const proto::trace::ParsedEvent &)`.
abbrev pub file_id_of : ParsedEvent → FileId
file_id_of e = record {
  partition_id = e.device.partition;
  id = e.file.id;
  creation_date = e.file.creation_date;
}
