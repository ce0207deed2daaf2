-- ===== src/Socket/Tests.antt =====
-- Tests of the model of source/octf/socket/internal on a pipe that moves at most five bytes per call,
-- and its theorems at work.
use open_cas_telemetry_frame.Prelude.{
  ℕ, zero, suc, ◌≤◌, ◌<◌, min, ◌≡◌, refl, sym, ap, ◌∙◌, true, false, Option, none, some, List, [],
  ◌∷◌, ◌++◌, arith, length, take, drop, length-append, take-append-drop, length-take_le,
  take-prefix,
}
use open_cas_telemetry_frame.Socket.Connection.{Os, fd, count_of, send}
use open_cas_telemetry_frame.Socket.Packetizer.{
  Packetizer, create_header, process_header, send_packet, failed, receive_packet,
}
use open_cas_telemetry_frame.Socket.Header.{process_header-create_header}
use open_cas_telemetry_frame.Socket.Stream.{IsStream, Sends, send-Sends}
use open_cas_telemetry_frame.Socket.Delivery.{
  IsFlowing, Delivered, receive_packet-Delivered, receive_packet-short,
}
use open_cas_telemetry_frame.Socket.Sending.{SendsPacket, send_packet-SendsPacket}

record Pipe : Type 0 where
  coming : List ℕ
  gone : List ℕ

abbrev pipe_os : Os Pipe
pipe_os = record {
  send = λ w n bs. (some (length (take 5 bs)), record w { gone = w.gone ++ take 5 bs });
  recv = λ w n size.
      (some (take (min 5 size) w.coming), record w { coming = drop (min 5 size) w.coming });
  shutdown = λ w n. w;
  close = λ w n. w;
}

abbrev bytes_of : Option (List ℕ) → List ℕ
bytes_of none = []
bytes_of (some bs) = bs

take-taken : (n k : ℕ) (bs : List ℕ) → length (take n bs) ≡ k → take n bs ≡ take k bs
take-taken n k bs e =
    sym (take-prefix (take n bs) (drop n bs))
    ∙ ap (λ l. take (length (take n bs)) l) (take-append-drop n bs)
    ∙ ap (λ j. take j bs) e

length-taken : (n : ℕ) (bs : List ℕ) → length (take n bs) ≤ length bs
length-taken n bs =
    omega (arith, ap length (take-append-drop n bs), length-append (take n bs) (drop n bs))

abbrev pipe_stream : IsStream pipe_os
pipe_stream = record {
  incoming = λ w. w.coming;
  outgoing = λ w. w.gone;
  accepts = λ w n bs k e.
      let taken : length (take 5 bs) ≡ k = ap count_of e in
      (omega (arith, taken, length-taken 5 bs), ap (◌++◌ w.gone) (take-taken 5 k bs taken));
  send_fails = λ w n bs e. ground arith;
  delivers = λ w n size bs e.
      let taken : take (min 5 size) w.coming ≡ bs = ap bytes_of e in
      (
        omega (arith, ap length taken, length-take_le (min 5 size) w.coming),
        sym (take-append-drop (min 5 size) w.coming)
            ∙ ap (λ l. l ++ drop (min 5 size) w.coming) taken,
      );
  closes = λ w n. refl;
}

some_taken : (n : ℕ) (bs : List ℕ) → 0 < n → 0 < length bs → 0 < length (take n bs)
some_taken zero bs h l = ground arith
some_taken (suc n) [] h l = ground arith
some_taken (suc n) (b ∷ bs) h l = omega arith

abbrev pipe_flowing : IsFlowing pipe_os pipe_stream
pipe_flowing = record {
  flows = λ w n size h l.
      (take (min 5 size) w.coming, refl, some_taken (min 5 size) w.coming (omega arith) l);
}

abbrev packet : List ℕ
packet = 1 ∷ 2 ∷ 3 ∷ 4 ∷ 5 ∷ 6 ∷ 7 ∷ []

abbrev end_with : List ℕ → Packetizer Pipe
end_with bs = record {
  m_conn = record { m_fd = fd 3; world = record { coming = bs; gone = [] } };
  m_error = false;
  m_expected = 0;
}

send-Sends_example :
    Sends pipe_os pipe_stream (end_with []).m_conn packet (send pipe_os (end_with []).m_conn packet)
send-Sends_example = send-Sends pipe_os pipe_stream (end_with []).m_conn packet refl

process_header-create_header_example :
    process_header (end_with []) (create_header 7) ≡ (true, record (end_with []) { m_expected = 7 })
process_header-create_header_example = process_header-create_header (end_with []) 7 (omega arith)

send_packet-SendsPacket_example :
    SendsPacket pipe_os pipe_stream (end_with []) packet (send_packet pipe_os (end_with []) packet)
send_packet-SendsPacket_example =
    send_packet-SendsPacket pipe_os pipe_stream (end_with []) packet refl

abbrev coming_in : List ℕ
coming_in = create_header 7 ++ packet ++ (9 ∷ [])

receive_packet-Delivered_example :
    Delivered pipe_os pipe_stream pipe_flowing
      (end_with coming_in)
      (receive_packet pipe_os (end_with coming_in) [])
      packet
      (9 ∷ [])
receive_packet-Delivered_example =
    receive_packet-Delivered pipe_os pipe_stream pipe_flowing (end_with coming_in) [] packet
      (9 ∷ []) refl refl (omega arith) refl refl

-- Only three bytes of the header have come in.
abbrev part : List ℕ
part = 127 ∷ 7 ∷ 0 ∷ []

receive_packet-short_example :
    (p' : Packetizer Pipe) × (receive_packet pipe_os (end_with part) [] ≡ failed [] p')
    × (p'.m_error ≡ true)
receive_packet-short_example =
    receive_packet-short pipe_os (end_with part) [] part refl refl refl (omega arith) (omega arith)
