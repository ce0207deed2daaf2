-- ===== src/TraceBuffer.antt =====
-- source/octf/trace/trace.c and trace.h: the ring buffer, shared by one producer and one consumer
-- handle, that trace events go through.
pub mod State
pub mod Space
pub mod Producer
pub mod Consumer
pub mod Allocate
pub mod Layout
pub mod Commit
pub mod Reserve
pub mod Push
pub mod Pop
pub mod Fifo
pub mod Drained
pub mod Open
pub mod Borrow
mod Tests
