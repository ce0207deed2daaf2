-- ===== src/Socket/Header.antt =====
-- The header of source/octf/socket/internal/Packetizer.cpp: what createHeader writes and processHeader
-- reads.
use open_cas_telemetry_frame.Prelude.{ℕ, ◌+◌, ◌*◌, ◌/◌, ◌%◌, ◌^◌, ◌<◌, ◌≡◌, refl, true, arith, leb}
use open_cas_telemetry_frame.Socket.Connection.{max_packet_size}
use open_cas_telemetry_frame.Socket.Packetizer.{
  Packetizer, create_header, parse_data_size, process_header,
}

pub parse_data_size-create_header :
    {W : Type 0} (p : Packetizer W) (n : ℕ)
    → n < 2 ^ 32
    → parse_data_size p (create_header n) ≡ (true, record p { m_expected = n })
unfolding parse_data_size
parse_data_size-create_header p n b =
    let e : (n % 2 ^ 32 % 256
            + n % 2 ^ 32 / 256 % 256 * 256
            + n % 2 ^ 32 / 65536 % 256 * 65536
            + n % 2 ^ 32 / 16777216 % 256 * 16777216)
          % 2 ^ 32
        ≡ n =
      omega arith in
    rw e refl

-- processHeader on the header that createHeader makes for a size of 32 bits: it succeeds exactly for
-- sizes of at most MAX_PACKET_SIZE, and the size it expects is the one that was written.
pub process_header-create_header :
    {W : Type 0} (p : Packetizer W) (n : ℕ)
    → n < 2 ^ 32
    → process_header p (create_header n) ≡ (leb n max_packet_size, record p { m_expected = n })
unfolding process_header
process_header-create_header p n b = rw (parse_data_size-create_header p n b) (ground arith)
