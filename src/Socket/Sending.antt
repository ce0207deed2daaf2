-- ===== src/Socket/Sending.antt =====
-- Packetizer::sendPacket of source/octf/socket/internal/Packetizer.cpp over sockets that behave like
-- byte streams.
use open_cas_telemetry_frame.Prelude.{
  ℕ, ◌+◌, min, ◌≡◌, refl, sym, ap, ◌∙◌, subst, Bool, true, false, Option, some, List, ◌++◌,
  append_assoc, arith, dec_le, ltb, length, take, take-all, take_add, take-within,
}
use open_cas_telemetry_frame.Socket.Connection.{Os, Connection, is_active, fd_number}
use open_cas_telemetry_frame.Socket.Packetizer.{
  Packetizer, create_header, send_packet, send_result, send_data,
}
use open_cas_telemetry_frame.Socket.Stream.{IsStream, Sends, send-Sends}

take-min : (m : ℕ) (xs : List ℕ) → take (min m (length xs)) xs ≡ take m xs
take-min m xs = elim (dec_le m (length xs)) [
  | yes le ↦ let e : min m (length xs) ≡ m = omega arith in ap (λ k. take k xs) e
  | no gt ↦ take-all (min m (length xs)) xs (omega arith) ∙ sym (take-all m xs (omega arith))
]

module _ {W : Type 0} (os : Os W) (stream : IsStream os) where
  -- The outcome of sendPacket.
  pub data SendsPacket (p : Packetizer W) (packet : List ℕ) (out : Option (Bool × Packetizer W))
      : Type 0 where
    packet_sent :
        (p' : Packetizer W)
        → out ≡ some (true, p')
        → p'.m_error ≡ p.m_error
        → p'.m_conn.m_fd ≡ p.m_conn.m_fd
        → stream.outgoing p'.m_conn.world
          ≡ stream.outgoing p.m_conn.world ++ (create_header (length packet) ++ packet)
        → SendsPacket p packet out
    packet_broken :
        (p' : Packetizer W) (m : ℕ)
        → out ≡ some (false, p')
        → p'.m_error ≡ true
        → is_active p'.m_conn ≡ false
        → stream.outgoing p'.m_conn.world
          ≡ stream.outgoing p.m_conn.world ++ take m (create_header (length packet) ++ packet)
        → SendsPacket p packet out

  -- The packet's bytes after its header.
  data-SendsPacket :
      (p : Packetizer W) (packet : List ℕ) (c : Connection W) (out : Option (Bool × Connection W))
      → c.m_fd ≡ p.m_conn.m_fd
      → stream.outgoing c.world ≡ stream.outgoing p.m_conn.world ++ create_header (length packet)
      → Sends os stream c packet out
      → SendsPacket p packet (send_result (record p { m_conn = c }) out)
  data-SendsPacket p packet c out same first (Sends.all_sent d e f o) =
      packet_sent (record p { m_conn = d }) (ap (send_result (record p { m_conn = c })) e) refl
        (f ∙ same)
        (o
          ∙ ap (λ l. l ++ packet) first
          ∙ append_assoc (stream.outgoing p.m_conn.world) (create_header (length packet)) packet)
  data-SendsPacket p packet c out same first (Sends.broken d m e f o) =
      packet_broken (record p { m_conn = d; m_error = true }) (5 + m)
        (ap (send_result (record p { m_conn = c })) e) refl f
        (o
          ∙ ap (λ l. l ++ take m packet) first
          ∙ append_assoc (stream.outgoing p.m_conn.world) (create_header (length packet))
              (take m packet)
          ∙ ap (◌++◌ (stream.outgoing p.m_conn.world))
              (sym (take_add 5 m (create_header (length packet) ++ packet))))

  header-SendsPacket :
      (p : Packetizer W) (packet : List ℕ) (out : Option (Bool × Connection W))
      → is_active p.m_conn ≡ true
      → Sends os stream p.m_conn (create_header (length packet)) out
      → SendsPacket p packet (send_data os packet (send_result p out))
  header-SendsPacket p packet out a (Sends.all_sent c e f o) =
      let still : is_active c ≡ true = ap (λ m. ltb 0 (fd_number m)) f ∙ a in
      subst (λ x. SendsPacket p packet (send_data os packet (send_result p x))) (sym e)
        (data-SendsPacket p packet c _ f o (send-Sends os stream c packet still))
  header-SendsPacket p packet out a (Sends.broken c m e f o) =
      packet_broken (record p { m_conn = c; m_error = true }) (min m 5)
        (ap (λ x. send_data os packet (send_result p x)) e) refl f
        (o
          ∙ ap (◌++◌ (stream.outgoing p.m_conn.world)) (
              sym (
                take-within (min m 5) (create_header (length packet)) packet (omega arith)
                ∙ take-min m (create_header (length packet)))))

  -- sendPacket on an open connection over a stream socket always ends: either it returns true, the connection stays open,
  -- and exactly the header with the packet's size and the packet's bytes went out, in this order; or it
  -- returns false, sets the error flag, the connection is closed, and a prefix of them went out.
  pub send_packet-SendsPacket :
      (p : Packetizer W) (packet : List ℕ)
      → is_active p.m_conn ≡ true
      → SendsPacket p packet (send_packet os p packet)
  unfolding send_packet
  send_packet-SendsPacket p packet a =
      header-SendsPacket p packet _ a
        (send-Sends os stream p.m_conn (create_header (length packet)) a)
