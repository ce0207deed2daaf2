-- ===== src/TraceBuffer/State.antt =====
-- The state of source/octf/trace/trace.c: the two shared headers, the ring memory and a handle.
use open_cas_telemetry_frame.Prelude.{
  ℕ, zero, suc, ◌+◌, ◌*◌, ◌/◌, ◌%◌, ◌^◌, Bool, true, false, ◌&&◌, List, [], ◌∷◌, ◌==◌,
  if◌then◌else◌,
}
use Prim.Native.Nat.{bit_or}

-- `TRACE_VER`, `TRACE_MAGIC_BUFFER`, `TRACE_ALIGNMENT` (the size of `trace_event_hdr`),
-- `OCTF_TRACE_MIN_BUFFER_SIZE`.
abbrev pub trace_ver : ℕ
trace_ver = 1

abbrev pub trace_magic_buffer : ℕ
trace_magic_buffer =
    bit_or (bit_or (0x1410 * 2 ^ 24) (0x1683 * 2 ^ 16)) (bit_or (0x1920 * 2 ^ 8) 0x1989)

abbrev pub trace_alignment : ℕ
trace_alignment = 16

abbrev pub min_buffer_size : ℕ
min_buffer_size = 32 * 1024

abbrev pub u32_mod : ℕ
u32_mod = 2 ^ 32

-- `TRACE_ALIGN`, computed in size_t.
abbrev pub trace_align : ℕ → ℕ
trace_align s = (s + 15) / 16 * 16

-- `trace_event_hdr`.
pub record EventHdr : Type 0 where
  pub ready : Bool
  pub data_size : ℕ
  pub data_ptr : ℕ

-- What is stored at an offset of the ring: a byte, or the first byte of an event header. Headers and
-- data start at multiples of the header's size, so a write over a header replaces its cell.
pub data Cell : Type 0 where
  byte : ℕ → Cell
  header : EventHdr → Cell

abbrev pub Ring : Type 0
Ring = ℕ → Cell

-- `trace_producer_hdr`, `trace_consumer_hdr` and the ring.
pub record Shared : Type 0 where
  pub magic : ℕ
  pub version : ℕ
  pub closed : ℕ
  pub wr_ptr : ℕ
  pub wr_lock : ℕ
  pub lost : ℕ
  pub has_chdr : ℕ
  pub rd_ptr : ℕ
  pub rd_lock : ℕ
  pub ring : Ring

-- `octf_trace_open_mode_t`; a C enum may hold another value.
pub data Mode : Type 0 where
  producer consumer other_mode : Mode

-- `struct octf_trace`, the handle.
pub record Trace : Type 0 where
  pub mode : Mode
  pub ring_size : ℕ
  pub ring_size_almost_empty : ℕ

-- The results: 0, the negated error numbers, and `assert_failed` for an `ENV_BUG()`, at which the
-- process stops.
pub data Status : Type 0 where
  ok einval eperm ebusy ebadf eagain enospc enobufs enomem assert_failed : Status

-- `_is_trace_valid` on a handle that is not NULL.
abbrev pub is_trace_valid : Shared → Bool
is_trace_valid s = s.magic == trace_magic_buffer && s.version == trace_ver

abbrev pub is_producer : Trace → Bool
is_producer t = elim t.mode [ producer ↦ true | _ ↦ false ]

abbrev pub is_consumer : Trace → Bool
is_consumer t = elim t.mode [ consumer ↦ true | _ ↦ false ]

abbrev pub update : Ring → ℕ → Cell → Ring
update ring p c = λ q. if q == p then c else ring q

abbrev pub byte_of : Cell → ℕ
byte_of (byte b) = b
byte_of (header h) = 0

-- A little-endian number of `n` bytes.
abbrev pub le_bytes : Ring → ℕ → ℕ → ℕ
le_bytes ring p zero = 0
le_bytes ring p (suc n) = byte_of (ring p) + 256 * le_bytes ring (p + 1) n

-- What a pointer to a header reads where plain bytes stand: `ready` is the lowest bit of the first byte,
-- and the struct is packed.
abbrev pub decode_header : Ring → ℕ → EventHdr
decode_header ring p = record {
  ready = byte_of (ring p) % 2 == 1;
  data_size = le_bytes ring (p + 1) 4;
  data_ptr = le_bytes ring (p + 5) 8;
}

abbrev pub header_of : Cell → EventHdr → EventHdr
header_of (byte b) h = h
header_of (header h) h' = h

unfoldable pub read_header : Ring → ℕ → EventHdr
read_header ring p = header_of (ring p) (decode_header ring p)

-- `memcpy_s` into the ring and out of it.
unfoldable pub write_bytes : Ring → ℕ → List ℕ → Ring
write_bytes ring p [] = ring
write_bytes ring p (b ∷ bs) = write_bytes (update ring p (byte b)) (p + 1) bs

unfoldable pub read_bytes : Ring → ℕ → ℕ → List Cell
read_bytes ring p zero = []
read_bytes ring p (suc n) = ring p ∷ read_bytes ring (p + 1) n
