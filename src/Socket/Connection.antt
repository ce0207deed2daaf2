-- ===== src/Socket/Connection.antt =====
-- source/octf/socket/internal/unixsocket/Connection.cpp: sending and receiving on a file descriptor.
use open_cas_telemetry_frame.Prelude.{
  ℕ, zero, suc, ◌*◌, min, Bool, true, false, not, Option, none, some, List, [], ◌∷◌, ltb, leb, ◌==◌,
  if◌then◌else◌, length, take, drop,
}

-- The operating system's calls on a world of type `W`. `send` and `recv` return `none` for a negative
-- result; `recv` returns the bytes it put into the buffer, and none of them when the peer has closed.
pub record Os (W : Type 0) : Type 0 where
  pub send : W → ℕ → List ℕ → Option ℕ × W
  pub recv : W → ℕ → ℕ → Option (List ℕ) × W
  pub shutdown : W → ℕ → W
  pub close : W → ℕ → W

-- `m_fd`.
pub data Fd : Type 0 where
  negative : Fd
  fd : ℕ → Fd

pub record Connection (W : Type 0) : Type 0 where
  pub m_fd : Fd
  pub world : W

-- `ISocketConnection::MAX_PACKET_SIZE`.
abbrev pub max_packet_size : ℕ
max_packet_size = 32 * 1024 * 1024

abbrev pub fd_number : Fd → ℕ
fd_number negative = 0
fd_number (fd n) = n

-- `Connection::isActive`.
abbrev pub is_active : {W : Type 0} → Connection W → Bool
is_active c = ltb 0 (fd_number c.m_fd)

-- `Connection::close`.
abbrev pub close : {W : Type 0} → Os W → Connection W → Connection W
close os c =
    let n = fd_number c.m_fd in
    if is_active c
    then record { m_fd = negative; world = os.close (os.shutdown c.world n) n }
    else c

abbrev pub count_of : Option ℕ → ℕ
count_of none = 0
count_of (some n) = n

-- The loop of `Connection::send`; `content` is what is left to send. `none` stands for a loop that has
-- not ended after that many rounds.
unfoldable pub send_loop :
    {W : Type 0} → Os W → ℕ → Connection W → List ℕ → Option (Bool × Connection W)
send_loop os k c [] = some (true, c)
send_loop os zero c (b ∷ bs) = none
send_loop os (suc k) c (b ∷ bs) =
    let content = b ∷ bs in
    let length_sent = min max_packet_size (length content) in
    let (result, w) = os.send c.world (fd_number c.m_fd) (take length_sent content) in
    let c' = record c { world = w } in
    let rest = send_loop os k c' (drop (count_of result) content) in
    if ltb 0 (count_of result)
    then (if ltb length_sent (count_of result) then some (false, close os c') else rest)
    else some (false, close os c')

-- `Connection::send`.
unfoldable pub send : {W : Type 0} → Os W → Connection W → List ℕ → Option (Bool × Connection W)
send os c content = if is_active c then send_loop os (length content) c content else some (false, c)

-- What `Connection::receive` does: it fills the buffer, it returns false, or it aborts the process.
pub data Received : Type 0 where
  received : List ℕ → Received
  refused : Received
  aborted : Received

abbrev pub receive_result :
    {W : Type 0} → Os W → Connection W → ℕ → Option (List ℕ) → Received × Connection W
receive_result os c size none = (refused, c)
receive_result os c size (some bytes) =
    if length bytes == 0
    then (refused, close os c)
    else if leb (length bytes) size
    then (received bytes, c)
    else (aborted, c)

-- `Connection::receive`.
unfoldable pub receive : {W : Type 0} → Os W → Connection W → ℕ → Received × Connection W
receive os c size =
    if not (is_active c)
    then (refused, c)
    else if ltb max_packet_size size
    then (refused, c)
    else let (result, w) = os.recv c.world (fd_number c.m_fd) size in
      receive_result os (record c { world = w }) size result
