-- ===== src/Lib.antt =====
-- A verification library for the Open CAS Telemetry Framework (octf).
--
-- The framework collects traces of I/O events and turns them into statistics. A traced program (the
-- producer) and the framework (the consumer) share a ring buffer in memory, source/octf/trace/trace.c;
-- the consumer writes the events into trace files; the parsers of source/octf/trace/parser read and merge
-- the files, make one event of a request and its completion, and feed it to the statistics and the
-- calculators of source/octf/analytics/statistics; results that cost time are kept in a cache beside the trace,
-- source/octf/trace/internal/TraceCacheLocal.cpp; and the framework's processes talk to each other in
-- packets over Unix sockets, source/octf/socket/internal.
--
-- Files, and the code each is about:
--   Prelude            shared names: native numbers, Boolean tests, lists, machine words.
--   Workset            source/octf/analytics/statistics/WorksetCalculator.{h,cpp}. The std::set of
--                      ranges is a sorted list that is compared by operator<, as the set does it;
--                      insert_range, remove_range and get_workset are insertRange, removeRange and
--                      getWorkset, in uint64_t. Ordered, Insert, Remove, Gap, Total and Reported hold
--                      the lemmas and theorems; Spec is the abstract calculator: a set of sectors and
--                      the peak of its size.
--   TraceBuffer        source/octf/trace/trace.{h,c}. State has the two shared headers and the ring
--                      (a cell per offset: a byte or an event header) as the record Shared, and the
--                      handle as Trace. Space is the pointer arithmetic in uint64_t; Producer is
--                      octf_trace_push, octf_trace_get_wr_buffer and octf_trace_commit_wr_buffer with
--                      _allocate_event (open_event is the part that push and get_wr_buffer share);
--                      Consumer is octf_trace_pop, octf_trace_get_rd_buffer,
--                      octf_trace_release_rd_buffer, octf_trace_add_lost and the queries; Open is
--                      octf_trace_open and octf_trace_close. Each function takes the shared state and
--                      returns a Status (0 or a negated error number) and the new state.
--                      Layout is the invariant: the ring holds a queue of events from the read pointer
--                      to the write pointer. Allocate, Reserve, Commit, Push, Pop,
--                      Fifo, Drained and Borrow prove what the operations do to this queue.
--   Distribution       source/octf/analytics/statistics/Distribution.{h,cpp}: the buckets, operator+=,
--                      getBucket, getStatistics (less the percentiles, which are floating point) and
--                      getHistogram. Level, Adding, Counting and Summary prove what is counted where.
--   IoStatistics       source/octf/analytics/statistics/IoStatistics.cpp: the statistics of a device,
--                      over Distribution and Workset; count is `count`, whose steps are hit_lbas,
--                      add_both, count_error, update_workset and finish; a division by a range
--                      size of zero is an outcome of its own. Reports has the reports.
--                      Counted and Adding show where no distribution throws; Conserved, Stages,
--                      Requests and Totals what is summed up.
--   IoStatisticsSet    source/octf/analytics/statistics/IoStatisticsSet.cpp: a map from the device's id to
--                      its statistics; IoStatistics is the parameter Statistics.
--   TraceReader        source/octf/trace/parser/TraceFileReader.cpp, `serialize` of a message in
--                      source/octf/interface/internal/FileTraceSerializer.cpp, and encodeVarint32 and
--                      decodeVarint32 of source/octf/utils/ProtoConverter.cpp; protobuf's messages are
--                      the parameter Messages. Varint and Records prove the round trips.
--   TraceParser        source/octf/trace/parser/TraceFileParser.cpp, the merge of the trace files of the
--                      queues, and the loop of source/octf/trace/parser/TraceEventHandler.h. A file is
--                      the list of its events. Merge and Step are about one step, Once about the run.
--   FileView           FileId of source/octf/fs/FileId.h, and FileSystemViewer and
--                      TraceEventHandlerFilesystemTree of
--                      source/octf/trace/parser/v2/ParsedIoTraceEventHandler.cpp. The std::map of a
--                      viewer is the list of its entries in the order of the keys; Tree is the tree of
--                      the partitions. Files has the order, Paths, Weak and Rebuilt the theorems.
--   ParsedIo           ParsedIoTraceEventHandler of the same file. Event has the messages; Queue the
--                      fields of the handler as the record Handler, addMapping, delMapping and the
--                      pointers into the queue, which are counts of the events that were put in before;
--                      Handler is handleEvent, flushEvents, pushOutEvent and processEvents. What the
--                      handler hands to its parent and to the writer of the extension is kept in lists.
--                      Mapping, Pointers and Safety are about the pointers; Order, Drained and Flush
--                      about the order of what is handed out; Steps and Numbered about its numbers;
--                      Completion about the completion of a request.
--   Socket             Connection is source/octf/socket/internal/unixsocket/Connection.cpp over the
--                      system calls, which are the parameter Os; Packetizer is
--                      source/octf/socket/internal/Packetizer.cpp; Header, Stream, Sending, Buffer
--                      and Delivery prove what goes out and comes in.
--   TraceCache         source/octf/trace/internal/TraceCacheLocal.cpp over the file's entries; what it
--                      uses of protobuf is the parameter Messages.
--
-- A lock of the ring buffer is a number in the shared state; an operation is one step, so a step that
-- finds a lock taken is refused as in the code after its retries. A failed ENV_BUG() is the status
-- assert_failed. Pointers are offsets; an event handle is the offset of the event's header.
--
-- Loops: the loops of Connection::send and Packetizer::receivePacket run on fuel, the number of bytes
-- that are left. Every round moves at least one byte, so the fuel is enough. The loop of
-- getBucket has 64 rounds, which is enough for every value below 2 ^ 53 / base: the level's end at least
-- doubles in each round. getPath has PATH_MAX + 2 rounds: where every file has a name, each round adds to
-- the length that is checked against PATH_MAX. The loop of processEvents has a round for each event. The
-- other loops run over the list of what they go through, or over the room that is left.
--
-- Sizes of events are bounded by `size + 15 < 2 ^ 32` where a theorem says so: trace.c rounds them up
-- in 32 bits, and a larger size becomes zero there. The distributions count values below 2 ^ 52 without
-- an exception.
--
-- Not modelled: the visibility of single stores between the processes (memory barriers), steps of
-- other threads between the retries of a lock, allocation and mapping of memory and files, a parser
-- that is cancelled, floating point, the older versions of the trace format, the command line, and the
-- protobuf services.
pub mod Prelude
pub mod Workset
pub mod TraceBuffer
pub mod Distribution
pub mod IoStatistics
pub mod IoStatisticsSet
pub mod TraceReader
pub mod TraceParser
pub mod FileView
pub mod ParsedIo
pub mod Socket
pub mod TraceCache
