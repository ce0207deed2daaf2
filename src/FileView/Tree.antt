-- ===== src/FileView/Tree.antt =====
-- The TraceEventHandlerFilesystemTree of source/octf/trace/parser/v2/ParsedIoTraceEventHandler.cpp.
use open_cas_telemetry_frame.Prelude.{
  ℕ, Bool, false, ◌&&◌, not, List, [], ◌∷◌, ◌++◌, ◌==◌, if◌then◌else◌,
}
use open_cas_telemetry_frame.FileView.{FileId, FileInfo, Viewer, add_file, has_file}

-- `EventIoFilesystemFileName`.
pub record NameEvent : Type 0 where
  pub file_id : FileId
  pub info : FileInfo

-- A viewer for each partition, empty until a file of the partition is named. `written` is what was written
-- to the extension of the trace.
pub record Tree : Type 0 where
  pub viewers : ℕ → Viewer
  pub writable : Bool
  pub written : List NameEvent

unfoldable pub new_tree : Bool → Tree
new_tree writable = record { viewers = λ p. []; writable = writable; written = [] }

-- `handleEvent` of the name of a file.
abbrev pub put_viewer : ℕ → Viewer → (ℕ → Viewer) → ℕ → Viewer
put_viewer i v f = λ j. if j == i then v else f j

unfoldable pub name_file : NameEvent → Tree → Tree
name_file e t =
    let v = t.viewers e.file_id.partition_id in
    record t {
      viewers = put_viewer e.file_id.partition_id (add_file e.file_id e.info v) t.viewers;
      written = if t.writable && not (has_file e.file_id v) then t.written ++ e ∷ [] else t.written;
    }

unfoldable pub name_files : List NameEvent → Tree → Tree
name_files [] t = t
name_files (e ∷ es) t = name_files es (name_file e t)

-- `init` where the extension is not ready: the names of the trace, which is to be written where it can be.
unfoldable pub build : Bool → List NameEvent → Tree
build writable es = name_files es (new_tree writable)

-- `init` where the extension is ready, which then is not written: its events.
unfoldable pub rebuild : List NameEvent → Tree
rebuild es = name_files es (new_tree false)
