-- ===== src/Socket/Buffer.antt =====
-- The buffer that Packetizer::receivePacket of source/octf/socket/internal/Packetizer.cpp fills piece by
-- piece.
use open_cas_telemetry_frame.Prelude.{
  ℕ, ◌+◌, ◌-◌, ◌≤◌, ◌≡◌, sym, ap, ◌∙◌, List, ◌++◌, arith, dec_le, length, take, drop, replicate,
  length-append, length-replicate, take-all, take-prefix, drop-prefix, take-within, drop-within,
  length-take, length-drop,
}
use open_cas_telemetry_frame.Socket.Packetizer.{resize, replace}

-- A chunk from the front of `xs ++ ys` that is not longer than `xs`.
pub chunk :
    (bs zs xs ys : List ℕ)
    → xs ++ ys ≡ bs ++ zs
    → length bs ≤ length xs
    → (bs ≡ take (length bs) xs) × (zs ≡ drop (length bs) xs ++ ys)
chunk bs zs xs ys e h = (
  sym (take-prefix bs zs) ∙ ap (take (length bs)) (sym e) ∙ take-within (length bs) xs ys h,
  sym (drop-prefix bs zs) ∙ ap (drop (length bs)) (sym e) ∙ drop-within (length bs) xs ys h,
)

-- The buffer after `bs` is put behind the `got` bytes that are filled.
module _ (content bs : List ℕ) (got : ℕ) (fits : got + length bs ≤ length content) where
  length-filled : length (take got content ++ bs) ≡ got + length bs
  length-filled =
      length-append (take got content) bs
      ∙ ap (λ n. n + length bs) (length-take got content (omega arith))

  pub length-replace : length (replace got (length bs) bs content) ≡ length content
  length-replace =
      let e = length-append (take got content ++ bs) (drop (length bs) (drop got content)) in
      omega (
        arith,
        e,
        length-filled,
        length-drop (length bs) (drop got content),
        length-drop got content,
      )

  pub take-replace :
      take (got + length bs) (replace got (length bs) bs content) ≡ take got content ++ bs
  take-replace =
      ap (λ n. take n (replace got (length bs) bs content)) (sym length-filled)
      ∙ take-prefix (take got content ++ bs) (drop (length bs) (drop got content))

pub length-resize : (n : ℕ) (xs : List ℕ) → length (resize n xs) ≡ n
length-resize n xs =
    let e = length-append (take n xs) (replicate (n - length xs) 0) in
    let f = length-replicate {A = ℕ} (n - length xs) 0 in
    elim (dec_le n (length xs)) [
      | yes le ↦ omega (arith, e, f, length-take n xs le)
      | no gt ↦ omega (arith, e, f, ap length (take-all n xs (omega arith)))
    ]
