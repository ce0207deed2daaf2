-- ===== src/Socket/Packetizer.antt =====
-- source/octf/socket/internal/Packetizer.cpp: packets with a header that holds their size.
use open_cas_telemetry_frame.Prelude.{
  ℕ, zero, suc, ◌+◌, ◌-◌, ◌*◌, ◌/◌, ◌%◌, ◌^◌, Bool, true, false, ◌||◌, not, Option, none, some,
  List, [], ◌∷◌, ◌++◌, ltb, ◌==◌, if◌then◌else◌, length, take, drop, replicate, get_or,
}
use open_cas_telemetry_frame.Socket.Connection.{
  Os, Connection, max_packet_size, is_active, send, Received, received, refused, aborted, receive,
}

pub record Packetizer (W : Type 0) : Type 0 where
  pub m_conn : Connection W
  pub m_error : Bool
  pub m_expected : ℕ

-- `HEADER_SIZE` and `HEADER_SIGNATURE`.
abbrev pub header_size : ℕ
header_size = 5

abbrev pub header_signature : ℕ
header_signature = 0x7f

-- `Packetizer::createHeader`, whose parameter is a uint32_t.
abbrev pub create_header : ℕ → List ℕ
create_header size =
    let n = size % 2 ^ 32 in
    header_signature ∷ n % 256 ∷ n / 256 % 256 ∷ n / 65536 % 256 ∷ n / 16777216 % 256 ∷ []

-- `Packetizer::sendPacket`; `none` stands for a loop that does not end.
abbrev pub send_result :
    {W : Type 0} → Packetizer W → Option (Bool × Connection W) → Option (Bool × Packetizer W)
send_result p none = none
send_result p (some (true, c)) = some (true, record p { m_conn = c })
send_result p (some (false, c)) = some (false, record p { m_conn = c; m_error = true })

abbrev pub send_data :
    {W : Type 0} → Os W → List ℕ → Option (Bool × Packetizer W) → Option (Bool × Packetizer W)
send_data os content none = none
send_data os content (some (false, p)) = some (false, p)
send_data os content (some (true, p)) = send_result p (send os p.m_conn content)

unfoldable pub send_packet :
    {W : Type 0} → Os W → Packetizer W → List ℕ → Option (Bool × Packetizer W)
send_packet os p content =
    send_data os content (send_result p (send os p.m_conn (create_header (length content))))

-- `Packetizer::parseDataSize`; the sum is a uint32_t.
unfoldable pub parse_data_size : {W : Type 0} → Packetizer W → List ℕ → Bool × Packetizer W
parse_data_size p header =
    if ltb (length header) header_size
    then (false, record p { m_error = true; m_expected = 0 })
    else (
      true,
      record p {
        m_expected =
            (get_or header 1 0
              + get_or header 2 0 * 256
              + get_or header 3 0 * 65536
              + get_or header 4 0 * 16777216)
            % 2 ^ 32;
      },
    )

-- `Packetizer::processHeader`.
unfoldable pub process_header : {W : Type 0} → Packetizer W → List ℕ → Bool × Packetizer W
process_header p header =
    if not (get_or header 0 0 == header_signature)
    then (false, p)
    else let (parsed, p') = parse_data_size p header in
      if not parsed
      then (false, p')
      else if ltb max_packet_size p'.m_expected
      then (false, p')
      else (true, p')

-- `std::string::resize` and `std::string::replace`.
abbrev pub resize : ℕ → List ℕ → List ℕ
resize n s = take n s ++ replicate (n - length s) 0

abbrev pub replace : ℕ → ℕ → List ℕ → List ℕ → List ℕ
replace pos n by s = take pos s ++ by ++ drop n (drop pos s)

-- What `Packetizer::receivePacket` ends with.
pub data Outcome (W : Type 0) : Type 0 where
  done : List ℕ → Packetizer W → Outcome W
  failed : List ℕ → Packetizer W → Outcome W
  stopped : Outcome W
  endless : Outcome W

-- A round of the loop of `Packetizer::receivePacket` after the call of `receive`; `next` is the rest
-- of the loop.
abbrev pub receive_chunk :
    {W : Type 0}
    → (Packetizer W → List ℕ → ℕ → Outcome W)
    → Packetizer W
    → List ℕ
    → ℕ
    → Received × Connection W
    → Outcome W
receive_chunk next p content got (received bytes, c) =
    next (record p { m_conn = c }) (replace got (length bytes) bytes content) (got + length bytes)
receive_chunk next p content got (refused, c) =
    failed content (record p { m_conn = c; m_error = true })
receive_chunk next p content got (aborted, c) = stopped

-- The loop of `Packetizer::receivePacket`, with the buffer `content` of which `got` bytes are filled.
unfoldable pub receive_loop : {W : Type 0} → Os W → ℕ → Packetizer W → List ℕ → ℕ → Outcome W
receive_loop os zero p content got = if ltb got p.m_expected then endless else done content p
receive_loop os (suc k) p content got =
    if ltb got p.m_expected
    then (if p.m_error || ltb p.m_expected got
        then failed content (record p { m_error = true; m_expected = 0 })
        else receive_chunk (receive_loop os k) p content got
            (receive os p.m_conn (p.m_expected - got)))
    else done content p

abbrev pub receive_data : {W : Type 0} → Os W → List ℕ → Bool × Packetizer W → Outcome W
receive_data os content (false, p) = failed content (record p { m_error = true; m_expected = 0 })
receive_data os content (true, p) = receive_loop os p.m_expected p (resize p.m_expected content) 0

-- `Packetizer::receivePacket` into a string that holds `content`.
abbrev pub receive_header : {W : Type 0} → Os W → Packetizer W → List ℕ → Received → Outcome W
receive_header os p content (received header) = receive_data os content (process_header p header)
receive_header os p content refused = failed content (record p { m_error = true; m_expected = 0 })
receive_header os p content aborted = stopped

unfoldable pub receive_packet : {W : Type 0} → Os W → Packetizer W → List ℕ → Outcome W
receive_packet os p content =
    if p.m_error
    then failed content (record p { m_expected = 0 })
    else let (r, c) = receive os p.m_conn header_size in
      receive_header os (record p { m_conn = c }) content r

-- `Packetizer::isError` and `Packetizer::reset`.
unfoldable pub is_error : {W : Type 0} → Packetizer W → Bool × Packetizer W
is_error p = if is_active p.m_conn then (p.m_error, p) else (true, record p { m_error = true })

unfoldable pub reset : {W : Type 0} → Packetizer W → Packetizer W
reset p = record p { m_error = false; m_expected = 0 }
