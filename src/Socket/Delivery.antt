-- ===== src/Socket/Delivery.antt =====
-- Receiving: Connection::receive and Packetizer::receivePacket of source/octf/socket/internal, on a
-- connection on which bytes come in.
use open_cas_telemetry_frame.Socket.Buffer.{chunk, length-replace, take-replace, length-resize}
use open_cas_telemetry_frame.Prelude.{
  ℕ, zero, suc, ◌+◌, ◌-◌, ◌≤◌, ◌<◌, ◌≡◌, refl, sym, ap, ◌∙◌, inl, inr, Bool, true, false, ◌||◌,
  some, List, [], ◌∷◌, ◌++◌, append-nil, append_assoc, arith, ltb, leb, ◌==◌, if◌then◌else◌, ltb→lt,
  Bool-cases, length, take, drop, get_or, length-append, take-append-drop, length-drop, take-all,
}
use open_cas_telemetry_frame.Socket.Connection.{
  Os, Connection, fd_number, max_packet_size, is_active, receive, received,
}
use open_cas_telemetry_frame.Socket.Packetizer.{
  Packetizer, receive_chunk, create_header, header_size, process_header, resize, replace, Outcome,
  done, failed, receive_loop, receive_data, receive_header, receive_packet, parse_data_size,
  header_signature,
}
use open_cas_telemetry_frame.Socket.Header.{process_header-create_header}
use open_cas_telemetry_frame.Socket.Stream.{IsStream}

-- recv(2) on a connection on which bytes come in waits for some of them and does not fail.
pub record IsFlowing {W : Type 0} (os : Os W) (stream : IsStream os) : Type 0 where
  pub flows :
      (w : W) (n size : ℕ)
      → 0 < size
      → 0 < length (stream.incoming w)
      → (bs : List ℕ) × ((os.recv w n size).0 ≡ some bs) × (0 < length bs)

module _ {W : Type 0} (os : Os W) where
  receive-received :
      (c : Connection W) (size : ℕ) (bs : List ℕ)
      → is_active c ≡ true
      → size ≤ max_packet_size
      → (os.recv c.world (fd_number c.m_fd) size).0 ≡ some bs
      → 0 < length bs
      → length bs ≤ size
      → receive os c size
        ≡ (received bs, record c { world = (os.recv c.world (fd_number c.m_fd) size).1 })
  unfolding receive
  receive-received c size bs a fits e positive within =
      let small : ltb max_packet_size size ≡ false = ground arith in
      let filled : (length bs == 0) ≡ false = ground arith in
      let short : leb (length bs) size ≡ true = ground arith in
      rw a (rw small (rw e (rw filled (rw short refl))))

  receive_packet-received :
      (p : Packetizer W) (before header : List ℕ) (c : Connection W)
      → p.m_error ≡ false
      → receive os p.m_conn header_size ≡ (received header, c)
      → receive_packet os p before
        ≡ receive_data os before (process_header (record p { m_conn = c }) header)
  unfolding receive_packet
  receive_packet-received p before header c ok r =
      ap
        (λ b.
          if b
          then failed before (record p { m_expected = 0 })
          else let (x, d) = receive os p.m_conn header_size in
            receive_header os (record p { m_conn = d }) before x)
        ok
      ∙ ap (λ x. receive_header os (record p { m_conn = x.1 }) before x.0) r

module _ {W : Type 0} (os : Os W) (stream : IsStream os) (flowing : IsFlowing os stream) where
  -- A call of Connection::receive while bytes come in.
  receive-flows :
      (c : Connection W) (size : ℕ)
      → is_active c ≡ true
      → 0 < size
      → size ≤ max_packet_size
      → 0 < length (stream.incoming c.world)
      → (bs : List ℕ) × (w : W) × (receive os c size ≡ (received bs, record c { world = w }))
        × (0 < length bs)
        × (length bs ≤ size)
        × (stream.incoming c.world ≡ bs ++ stream.incoming w)
  receive-flows c size a positive fits some_in =
      let n = fd_number c.m_fd in
      let (bs, e, some_out) = flowing.flows c.world n size positive some_in in
      let (within, taken) = stream.delivers c.world n size bs e in
      (
        bs,
        (os.recv c.world n size).1,
        receive-received os c size bs a fits e some_out within,
        some_out,
        within,
        taken,
      )

  -- What a receivePacket that succeeds leaves: the packet, an open connection, and what comes behind.
  abbrev pub Delivered : Packetizer W → Outcome W → List ℕ → List ℕ → Type 0
  Delivered p out packet rest =
      (p' : Packetizer W) × (out ≡ done packet p')
      × (p'.m_error ≡ false)
      × (p'.m_conn.m_fd ≡ p.m_conn.m_fd)
      × (stream.incoming p'.m_conn.world ≡ rest)

  full-Delivered :
      (p : Packetizer W) (content : List ℕ) (got : ℕ) (left rest : List ℕ)
      → p.m_error ≡ false
      → length content ≡ p.m_expected
      → got + length left ≡ p.m_expected
      → ltb got p.m_expected ≡ false
      → stream.incoming p.m_conn.world ≡ left ++ rest
      → Delivered p (done content p) (take got content ++ left) rest
  full-Delivered p content got [] rest ok n l e i =
      let whole = take-all got content (omega arith) in
      (p, ap (λ d. done d p) (sym (append-nil (take got content) ∙ whole)), ok, refl, i)
  full-Delivered p content got (b ∷ bs) rest ok n l e i = ground arith

  receive_loop-full :
      (k : ℕ) (p : Packetizer W) (content : List ℕ) (got : ℕ)
      → ltb got p.m_expected ≡ false
      → receive_loop os k p content got ≡ done content p
  unfolding receive_loop
  receive_loop-full zero p content got e = rw e refl
  receive_loop-full (suc k) p content got e = rw e refl

  -- A round of the loop that receives `bs`.
  receive_loop-received :
      (k : ℕ) (p : Packetizer W) (content : List ℕ) (got : ℕ) (bs : List ℕ) (c : Connection W)
      → p.m_error ≡ false
      → ltb got p.m_expected ≡ true
      → receive os p.m_conn (p.m_expected - got) ≡ (received bs, c)
      → receive_loop os (suc k) p content got
        ≡ receive_loop os k
            (record p { m_conn = c })
            (replace got (length bs) bs content)
            (got + length bs)
  unfolding receive_loop
  receive_loop-received k p content got bs c ok e r =
      let past : ltb p.m_expected got ≡ false = ground arith in
      let goes_on : (p.m_error || ltb p.m_expected got) ≡ false = rw ok past in
      rw e (rw goes_on (ap (receive_chunk (receive_loop os k) p content got) r))

  receive_loop-Delivered :
      (k : ℕ) (p : Packetizer W) (content : List ℕ) (got : ℕ) (left rest : List ℕ)
      → p.m_error ≡ false
      → is_active p.m_conn ≡ true
      → p.m_expected ≤ max_packet_size
      → length content ≡ p.m_expected
      → got + length left ≡ p.m_expected
      → length left ≤ k
      → stream.incoming p.m_conn.world ≡ left ++ rest
      → Delivered p (receive_loop os k p content got) (take got content ++ left) rest
  receive_loop-Delivered zero p content got left rest ok a m n l f i =
      let e : ltb got p.m_expected ≡ false = ground arith in
      rw (receive_loop-full zero p content got e)
        (full-Delivered p content got left rest ok n l e i)
  receive_loop-Delivered (suc k) p content got left rest ok a m n l f i =
      elim (Bool-cases (ltb got p.m_expected)) [
        | inr e ↦
            rw (receive_loop-full (suc k) p content got e)
              (full-Delivered p content got left rest ok n l e i)
        | inl e ↦
            let before = ltb→lt got p.m_expected e in
            let some_in : 0 < length (stream.incoming p.m_conn.world) =
              omega (arith, ap length i ∙ length-append left rest) in
            let (bs, w, r, some_out, small, incoming) =
              receive-flows p.m_conn (p.m_expected - got) a (omega arith) (omega arith) some_in in
            let front = chunk bs (stream.incoming w) left rest (sym i ∙ incoming) (omega arith) in
            let packet : take (got + length bs) (replace got (length bs) bs content)
                  ++ drop (length bs) left
                ≡ take got content ++ left =
              ap (λ l. l ++ drop (length bs) left) (take-replace content bs got (omega arith))
              ∙ append_assoc (take got content) bs (drop (length bs) left)
              ∙ ap (λ x. take got content ++ (x ++ drop (length bs) left)) front.0
              ∙ ap (◌++◌ (take got content)) (take-append-drop (length bs) left) in
            let after =
              receive_loop-Delivered k (record p { m_conn = record p.m_conn { world = w } })
                (replace got (length bs) bs content) (got + length bs) (drop (length bs) left) rest
                ok a m (length-replace content bs got (omega arith) ∙ n)
                (omega (arith, length-drop (length bs) left))
                (omega (arith, length-drop (length bs) left)) front.1 in
            let round =
              receive_loop-received k p content got bs (record p.m_conn { world = w }) ok e r in
            rw round (rw packet at after)
      ]

  -- A packet of at most MAX_PACKET_SIZE bytes that comes in on an open connection without an error, over
  -- a stream socket whose recv gets some bytes while bytes come in: if the read of the
  -- header gets the whole header at once, then, however the rest is cut into pieces, receivePacket
  -- returns true with exactly the packet's bytes, keeps the connection open without an error, and takes
  -- nothing of what comes behind the packet.
  pub receive_packet-Delivered :
      (p : Packetizer W) (before packet rest : List ℕ)
      → p.m_error ≡ false
      → is_active p.m_conn ≡ true
      → length packet ≤ max_packet_size
      → stream.incoming p.m_conn.world ≡ create_header (length packet) ++ packet ++ rest
      → (os.recv p.m_conn.world (fd_number p.m_conn.m_fd) header_size).0
        ≡ some (create_header (length packet))
      → Delivered p (receive_packet os p before) packet rest
  receive_packet-Delivered p before packet rest ok a m i whole =
      let header = create_header (length packet) in
      let n = length packet in
      let w = (os.recv p.m_conn.world (fd_number p.m_conn.m_fd) header_size).1 in
      let c : Connection W = record p.m_conn { world = w } in
      let p' : Packetizer W = record p { m_conn = c; m_expected = n } in
      let law = stream.delivers p.m_conn.world (fd_number p.m_conn.m_fd) header_size header whole in
      let behind : stream.incoming w ≡ packet ++ rest = ap (drop 5) (sym law.1 ∙ i) in
      let fits : leb n max_packet_size ≡ true = ground arith in
      let start =
        receive_packet-received os p before header c ok (
          receive-received os p.m_conn header_size header a (omega arith) whole (omega arith)
            (omega arith))
        ∙ ap (receive_data os before) (
            process_header-create_header (record p { m_conn = c }) n (omega arith)
            ∙ ap (λ b. (b, p')) fits) in
      rw start (
        receive_loop-Delivered n p' (resize n before) 0 packet rest ok a m (length-resize n before)
          (omega arith) (omega arith) behind)

process_header-short :
    {W : Type 0} (p : Packetizer W) (part : List ℕ)
    → length part < header_size
    → (process_header p part).0 ≡ false
unfolding process_header parse_data_size
process_header-short p part short =
    let e : ltb (length part) header_size ≡ true = ground arith in
    elim (Bool-cases (get_or part 0 0 == header_signature)) [
      | inl signed ↦ rw signed (rw e refl)
      | inr other ↦ rw other refl
    ]

receive_data-false :
    {W : Type 0} (os : Os W) (content : List ℕ) (x : Bool × Packetizer W)
    → x.0 ≡ false
    → receive_data os content x ≡ failed content (record x.1 { m_error = true; m_expected = 0 })
receive_data-false os content (false, p) e = refl
receive_data-false os content (true, p) e = ground arith

-- A first read on an open connection without an error that gets some bytes, but fewer than a header
-- has: receivePacket returns false and sets the error
-- flag, whatever the bytes are and whatever still comes in.
pub receive_packet-short :
    {W : Type 0} (os : Os W) (p : Packetizer W) (before part : List ℕ)
    → p.m_error ≡ false
    → is_active p.m_conn ≡ true
    → (os.recv p.m_conn.world (fd_number p.m_conn.m_fd) header_size).0 ≡ some part
    → 0 < length part
    → length part < header_size
    → (p' : Packetizer W) × (receive_packet os p before ≡ failed before p') × (p'.m_error ≡ true)
receive_packet-short {W = W} os p before part ok a r some_out short =
    let c : Connection W = record p.m_conn {
      world = (os.recv p.m_conn.world (fd_number p.m_conn.m_fd) header_size).1;
    } in
    let bad = process_header-short (record p { m_conn = c }) part short in
    (
      record (process_header (record p { m_conn = c }) part).1 { m_error = true; m_expected = 0 },
      receive_packet-received os p before part c ok
            (receive-received os p.m_conn header_size part a (omega arith) r some_out (omega arith))
          ∙ receive_data-false os before _ bad,
      refl,
    )
