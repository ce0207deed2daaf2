-- ===== src/ParsedIo/Completion.antt =====
-- What the completion of a request changes in
-- source/octf/trace/parser/v2/ParsedIoTraceEventHandler.cpp.
use open_cas_telemetry_frame.Prelude.{
  ℕ, ◌-◌, ◌≤◌, ◌≡◌, refl, sym, ap, subst, ◌≢◌, inl, inr, Bool, true, false, ◌&&◌, not, Option, none,
  some, arith, ltb, leb, ◌==◌, if◌then◌else◌, Bool-cases, length, length-set,
}
use open_cas_telemetry_frame.ParsedIo.Event.{Header, IoCompletion, ParsedEvent}
use open_cas_telemetry_frame.ParsedIo.Queue.{
  IoQueueDepth, Handler, put, nth, deref, store, del_mapping,
}
use open_cas_telemetry_frame.ParsedIo.Handler.{complete_found, complete, completed, one_less}
use open_cas_telemetry_frame.ParsedIo.Mapping.{nth-set, nth-set_other}
use open_cas_telemetry_frame.ParsedIo.Pointers.{IsSound}
use open_cas_telemetry_frame.ParsedIo.Safety.{deref-Leads}

-- The event after its completion.
abbrev pub after_completion : Header → IoCompletion → ParsedEvent → ParsedEvent
after_completion h c e =
    let e' = record e { header = record e.header { sid = 0 } } in
    if leb e.header.timestamp h.timestamp
    then record e' {
      io = record e.io {
        latency = h.timestamp - e.header.timestamp;
        error = c.error;
        lba = if not (c.lba == 0) && not (c.len == 0) then c.lba else e.io.lba;
        len = if not (c.lba == 0) && not (c.len == 0) then c.len else e.io.len;
      };
    }
    else e'

abbrev pub depth_after : Header → IoCompletion → ParsedEvent → (ℕ → IoQueueDepth) → ℕ → IoQueueDepth
depth_after h c e qd =
    if leb e.header.timestamp h.timestamp
    then (λ (i : ℕ).
        if i == c.device_id
        then record (qd c.device_id) { value = (qd c.device_id).value - 1 }
        else qd i)
    else qd

-- The event that `p` leads to becomes `x`, the queue depths become `qd`, and the id `ref` leads nowhere.
abbrev pub Replaces : ℕ → ℕ → ParsedEvent → (ℕ → IoQueueDepth) → Handler → Handler → Type 0
Replaces ref p x qd s s' =
    (deref s' p ≡ some x)
    × ((q : ℕ) → q ≢ p → deref s' q ≡ deref s q)
    × (length s'.queue ≡ length s.queue)
    × (s'.id_mapping ref ≡ none)
    × ((i : ℕ) → i ≢ ref → s'.id_mapping i ≡ s.id_mapping i)
    × (s'.queue_depth ≡ qd)

-- The completion `c` with the header `h` of the event `e` that `p` leads to.
abbrev pub Completes : Header → IoCompletion → ℕ → ParsedEvent → Handler → Handler → Type 0
Completes h c p e s s' =
    Replaces c.ref_id p (after_completion h c e) (depth_after h c e s.queue_depth) s s'

put_here : (f : ℕ → Option ℕ) (i j : ℕ) → i ≡ j → put f i none j ≡ none
put_here f i j same = elim (Bool-cases (j == i)) [ inl e ↦ rw e refl | inr e ↦ ground arith ]

put_there : (f : ℕ → Option ℕ) (i j k : ℕ) → i ≡ k → j ≢ k → put f i none j ≡ f j
put_there f i j k same other = elim (Bool-cases (j == i)) [
  | inl e ↦ ground arith
  | inr e ↦ rw e refl
]

deref-store_other :
    (p q : ℕ) (x : ParsedEvent) (s s' : Handler)
    → s'.popped ≡ s.popped
    → s'.queue ≡ s.queue
    → s.popped ≤ p
    → q ≢ p
    → deref (store s' p x) q ≡ deref s q
unfolding deref store
deref-store_other p q x s s' popped queue le other = elim (Bool-cases (ltb q s.popped)) [
  | inl gone ↦ rw popped (rw gone refl)
  | inr here ↦
      rw popped
        (rw here (rw queue (nth-set_other s.queue (p - s.popped) (q - s.popped) x (ground arith))))
]

store-Replaces :
    (ref p : ℕ) (e x : ParsedEvent) (s : Handler) (qd : ℕ → IoQueueDepth)
    → s.popped ≤ p
    → nth s.queue (p - s.popped) ≡ some e
    → e.header.sid ≡ ref
    → Replaces ref p x qd s
        (store (record s { id_mapping = put s.id_mapping e.header.sid none; queue_depth = qd }) p x)
unfolding deref store
store-Replaces ref p e x s qd le at sid =
    let still : ltb p s.popped ≡ false = ground arith in
    (
      rw still (nth-set s.queue (p - s.popped) e x at),
      (λ q other.
          deref-store_other p q x s
            (record s { id_mapping = put s.id_mapping e.header.sid none; queue_depth = qd }) refl
            refl le other),
      length-set s.queue (p - s.popped) x,
      put_here s.id_mapping e.header.sid ref sid,
      (λ i other. put_there s.id_mapping e.header.sid i ref sid other),
      refl,
    )

del_mapping-request :
    (e : ParsedEvent) (s : Handler)
    → e.has_io ≡ true
    → del_mapping e s ≡ (
      record s { id_mapping = put s.id_mapping e.header.sid none },
      record e { header = record e.header { sid = 0 } },
    )
unfolding del_mapping
del_mapping-request e s has =
    ap
      (λ (b : Bool).
        if b
        then (
          record s { id_mapping = put s.id_mapping e.header.sid none },
          record e { header = record e.header { sid = 0 } },
        )
        else (s, e))
      has

-- The branches of a completion, over what `delMapping` returned.
abbrev completion_of : Header → IoCompletion → ℕ → ParsedEvent → Handler × ParsedEvent → Handler
completion_of h c p e (s', e') =
    if leb e.header.timestamp h.timestamp
    then store (record s' { queue_depth = one_less s'.queue_depth c.device_id }) p
        (record e' { io = completed h c e'.io e.header.timestamp })
    else store s' p e'

complete_found-Completes :
    (h : Header) (c : IoCompletion) (p : ℕ) (e : ParsedEvent) (s : Handler)
    → s.popped ≤ p
    → nth s.queue (p - s.popped) ≡ some e
    → e.has_io ≡ true
    → e.header.sid ≡ c.ref_id
    → Completes h c p e s (complete_found h c p (some e) s)
complete_found-Completes h c p e s le at has sid =
    let e' : ParsedEvent = record e { header = record e.header { sid = 0 } } in
    subst (λ (d : Handler × ParsedEvent). Completes h c p e s (completion_of h c p e d))
      (sym (del_mapping-request e s has))
      (elim (Bool-cases (leb e.header.timestamp h.timestamp)) [
        | inl after ↦ rw after (
            store-Replaces c.ref_id p e (record e' { io = completed h c e.io e.header.timestamp }) s
              (one_less s.queue_depth c.device_id) le at sid)
        | inr after ↦ rw after (store-Replaces c.ref_id p e e' s s.queue_depth le at sid)
      ])

-- A completion that names a request in the queue, the pointers being right: the request of that id gets
-- the time from its submission to the completion as its latency, the completion's result, and its range
-- where that is not empty, provided that it does not end before it began; the device's queue depth is
-- then one less; the id leads nowhere any more; and every other event and id is as before.
pub complete-Completes :
    (h : Header) (c : IoCompletion) (p : ℕ) (s : Handler)
    → IsSound s
    → s.id_mapping c.ref_id ≡ some p
    → (e : ParsedEvent) × (deref s p ≡ some e)
      × (e.has_io ≡ true)
      × (e.header.sid ≡ c.ref_id)
      × Completes h c p e s (complete h c (s.id_mapping c.ref_id) s)
complete-Completes h c p s sound at =
    let (e, there, le, found, has, sid) = deref-Leads s c.ref_id p sound.0 at in
    (e, there, has, sid, rw at (rw there (complete_found-Completes h c p e s le found has sid)))
