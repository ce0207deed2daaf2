-- ===== src/ParsedIo.antt =====
-- The parsed I/O of a trace: the handler of source/octf/trace/parser/v2/ParsedIoTraceEventHandler.cpp,
-- which makes one event of a request and of its completion and hands the events out in the order of the
-- requests.
pub mod Event
pub mod Queue
pub mod Handler
pub mod Mapping
pub mod Pointers
pub mod Safety
pub mod Order
pub mod Drained
pub mod Flush
pub mod Completion
pub mod Steps
pub mod Numbered
mod Tests
