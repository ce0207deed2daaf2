-- ===== src/Socket/Stream.antt =====
-- Sending on a stream: Connection::send of source/octf/socket/internal/unixsocket/Connection.cpp over
-- sockets that behave like byte streams.
use open_cas_telemetry_frame.Prelude.{
  ℕ, zero, suc, ◌+◌, ◌≤◌, min, ◌≡◌, refl, sym, ap, ◌∙◌, inl, inr, Bool, true, false, Option, none,
  some, List, [], ◌∷◌, ◌++◌, append-nil, append_assoc, arith, ltb, ltb→lt, Bool-cases, Option-cases,
  length, take, drop, take-append-drop, take_add, length-take_le, take-take, length-drop,
}
use open_cas_telemetry_frame.Socket.Connection.{
  Os, Connection, fd_number, is_active, max_packet_size, close, send_loop, send,
}

-- What send(2), recv(2), shutdown(2) and close(2) document of a stream socket: `send` accepts a prefix
-- of the bytes it is given, of the length it returns; `recv` takes at most as many bytes as it is asked
-- for from the front of what is coming in; closing sends nothing.
pub record IsStream {W : Type 0} (os : Os W) : Type 0 where
  pub incoming : W → List ℕ
  pub outgoing : W → List ℕ
  pub accepts :
      (w : W) (n : ℕ) (bs : List ℕ) (k : ℕ)
      → (os.send w n bs).0 ≡ some k
      → (k ≤ length bs) × (outgoing (os.send w n bs).1 ≡ outgoing w ++ take k bs)
  pub send_fails :
      (w : W) (n : ℕ) (bs : List ℕ)
      → (os.send w n bs).0 ≡ none
      → outgoing (os.send w n bs).1 ≡ outgoing w
  pub delivers :
      (w : W) (n size : ℕ) (bs : List ℕ)
      → (os.recv w n size).0 ≡ some bs
      → (length bs ≤ size) × (incoming w ≡ bs ++ incoming (os.recv w n size).1)
  pub closes : (w : W) (n : ℕ) → outgoing (os.close (os.shutdown w n) n) ≡ outgoing w

module _ {W : Type 0} (os : Os W) (stream : IsStream os) where
  -- The outcome of Connection::send.
  pub data Sends (c : Connection W) (content : List ℕ) (out : Option (Bool × Connection W))
      : Type 0 where
    all_sent :
        (c' : Connection W)
        → out ≡ some (true, c')
        → c'.m_fd ≡ c.m_fd
        → stream.outgoing c'.world ≡ stream.outgoing c.world ++ content
        → Sends c content out
    broken :
        (c' : Connection W) (m : ℕ)
        → out ≡ some (false, c')
        → is_active c' ≡ false
        → stream.outgoing c'.world ≡ stream.outgoing c.world ++ take m content
        → Sends c content out

  close-outgoing : (c : Connection W) → stream.outgoing (close os c).world ≡ stream.outgoing c.world
  close-outgoing c = elim (Bool-cases (is_active c)) [
    | inl e ↦ rw e (stream.closes c.world (fd_number c.m_fd))
    | inr e ↦ rw e refl
  ]

  close-inactive : (c : Connection W) → is_active (close os c) ≡ false
  close-inactive c = elim (Bool-cases (is_active c)) [ inl e ↦ rw e refl | inr e ↦ rw e e ]

  -- A round that sends `n` bytes, and what the later rounds do.
  round-Sends :
      (c c' : Connection W) (content : List ℕ) (n : ℕ) (out : Option (Bool × Connection W))
      → c'.m_fd ≡ c.m_fd
      → stream.outgoing c'.world ≡ stream.outgoing c.world ++ take n content
      → Sends c' (drop n content) out
      → Sends c content out
  round-Sends c c' content n out same first (Sends.all_sent d e f o) =
      Sends.all_sent d e (f ∙ same) (
        o
        ∙ ap (λ l. l ++ drop n content) first
        ∙ append_assoc (stream.outgoing c.world) (take n content) (drop n content)
        ∙ ap (◌++◌ (stream.outgoing c.world)) (take-append-drop n content))
  round-Sends c c' content n out same first (Sends.broken d m e f o) = Sends.broken d (n + m) e f (
      o
      ∙ ap (λ l. l ++ take m (drop n content)) first
      ∙ append_assoc (stream.outgoing c.world) (take n content) (take m (drop n content))
      ∙ ap (◌++◌ (stream.outgoing c.world)) (sym (take_add n m content)))

  stops-Sends :
      (c : Connection W) (w : W) (content : List ℕ)
      → stream.outgoing w ≡ stream.outgoing c.world
      → Sends c content (some (false, close os (record c { world = w })))
  stops-Sends c w content e =
      Sends.broken _ 0 refl (close-inactive (record c { world = w }))
        (close-outgoing (record c { world = w }) ∙ e ∙ sym (append-nil _))

  send_loop-Sends :
      (k : ℕ) (c : Connection W) (content : List ℕ)
      → length content ≤ k
      → Sends c content (send_loop os k c content)
  unfolding send_loop
  send_loop-Sends k c [] h = Sends.all_sent c refl refl (sym (append-nil _))
  send_loop-Sends zero c (b ∷ bs) h = ground arith
  send_loop-Sends (suc k) c (b ∷ bs) h =
      let content = b ∷ bs in
      let size = min max_packet_size (length content) in
      let out = os.send c.world (fd_number c.m_fd) (take size content) in
      elim (Option-cases out.0) [
        | inl e ↦ rw e (stops-Sends c out.1 content (stream.send_fails _ _ _ e))
        | inr (n, e) ↦
            let law = stream.accepts _ _ _ n e in
            let small : n ≤ size = omega (arith, law.0, length-take_le size content) in
            let first : stream.outgoing out.1 ≡ stream.outgoing c.world ++ take n content =
              law.1 ∙ ap (◌++◌ (stream.outgoing c.world)) (take-take n size content small) in
            elim (Bool-cases (ltb 0 n)) [
              | inl goes ↦
                  let positive = ltb→lt 0 n goes in
                  let fits : ltb size n ≡ false = ground arith in
                  let rest =
                    round-Sends c (record c { world = out.1 }) content n _ refl first
                      (send_loop-Sends k (record c { world = out.1 }) (drop n content)
                        (omega (arith, length-drop n content))) in
                  rw e (rw goes (rw fits rest))
              | inr stuck ↦
                  let zero : n ≡ 0 = ground arith in
                  rw e (
                    rw stuck (
                      stops-Sends c out.1 content (
                        first
                        ∙ ap (λ m. stream.outgoing c.world ++ take m content) zero
                        ∙ append-nil _)))
            ]
      ]

  -- Connection::send on an active connection over a stream socket always ends: either it returns true and exactly the bytes
  -- it was given went out, in order, or it returns false, the connection is closed and a prefix of them
  -- went out.
  pub send-Sends :
      (c : Connection W) (content : List ℕ)
      → is_active c ≡ true
      → Sends c content (send os c content)
  unfolding send
  send-Sends c content a = rw a (send_loop-Sends (length content) c content (omega arith))
