-- ===== src/ParsedIo/Mapping.antt =====
-- The pointers that source/octf/trace/parser/v2/ParsedIoTraceEventHandler.cpp keeps into its queue.
use open_cas_telemetry_frame.Prelude.{
  ℕ, zero, suc, ◌+◌, ◌-◌, ◌≤◌, ◌≡◌, refl, sym, ap, ◌∙◌, ◌≢◌, ◌⊎◌, inl, inr, true, Option, none,
  some, List, [], ◌∷◌, ◌++◌, arith, ℕ_discrete, ◌==◌, Bool-cases, length, set,
}
use open_cas_telemetry_frame.ParsedIo.Event.{ParsedEvent}
use open_cas_telemetry_frame.ParsedIo.Queue.{put, nth}

abbrev pub get_some : ℕ → Option ℕ → ℕ
get_some d none = d
get_some d (some n) = n

abbrev pub event_or : ParsedEvent → Option ParsedEvent → ParsedEvent
event_or d none = d
event_or d (some e) = e

nth-append :
    (es fs : List ParsedEvent) (i : ℕ) (e : ParsedEvent)
    → nth es i ≡ some e
    → nth (es ++ fs) i ≡ some e
nth-append [] fs i e h = ground arith
nth-append (x ∷ es) fs zero e h = h
nth-append (x ∷ es) fs (suc i) e h = nth-append es fs i e h

nth-last : (es : List ParsedEvent) (e : ParsedEvent) → nth (es ++ e ∷ []) (length es) ≡ some e
nth-last [] e = refl
nth-last (x ∷ es) e = nth-last es e

pub nth-set :
    (es : List ParsedEvent) (i : ℕ) (e x : ParsedEvent)
    → nth es i ≡ some e
    → nth (set es i x) i ≡ some x
nth-set [] i e x h = ground arith
nth-set (y ∷ es) zero e x h = refl
nth-set (y ∷ es) (suc i) e x h = nth-set es i e x h

pub nth-set_other :
    (es : List ParsedEvent) (i j : ℕ) (x : ParsedEvent) → i ≢ j → nth (set es i x) j ≡ nth es j
nth-set_other [] i j x h = refl
nth-set_other (y ∷ es) zero zero x h = absurd (h refl)
nth-set_other (y ∷ es) zero (suc j) x h = refl
nth-set_other (y ∷ es) (suc i) zero x h = refl
nth-set_other (y ∷ es) (suc i) (suc j) x h = nth-set_other es i j x (omega arith)

-- The pointer `p` leads to a request in the queue whose sid is `i`.
abbrev pub Leads : List ParsedEvent → ℕ → ℕ → ℕ → Type 0
Leads queue popped i p =
    (e : ParsedEvent) × (popped ≤ p)
    × (nth queue (p - popped) ≡ some e)
    × (e.has_io ≡ true)
    × (e.header.sid ≡ i)

-- Every pointer of the mapping leads to the request of its id.
abbrev pub IsMapped : List ParsedEvent → ℕ → (ℕ → Option ℕ) → Type 0
IsMapped queue popped mapping = (i p : ℕ) → mapping i ≡ some p → Leads queue popped i p

pub append-IsMapped :
    (queue : List ParsedEvent) (popped : ℕ) (mapping : ℕ → Option ℕ) (e : ParsedEvent)
    → IsMapped queue popped mapping
    → IsMapped (queue ++ e ∷ []) popped mapping
append-IsMapped queue popped mapping e h i p m =
    let (x, le, there, has, sid) = h i p m in
    (x, le, nth-append queue (e ∷ []) (p - popped) x there, has, sid)

pub put_same :
    (mapping : ℕ → Option ℕ) (j : ℕ) (v : Option ℕ) (i p : ℕ)
    → put mapping j v i ≡ some p
    → ((i ≡ j) × (v ≡ some p)) ⊎ ((i ≢ j) × (mapping i ≡ some p))
put_same mapping j v i p h = elim (Bool-cases (i == j)) [
  | inl e ↦ inl (ground arith, rw e at h)
  | inr e ↦ inr (ground arith, rw e at h)
]

pub add-IsMapped :
    (queue : List ParsedEvent) (popped : ℕ) (mapping : ℕ → Option ℕ) (e : ParsedEvent)
    → e.has_io ≡ true
    → IsMapped queue popped mapping
    → IsMapped (queue ++ e ∷ []) popped (put mapping e.header.sid (some (popped + length queue)))
add-IsMapped queue popped mapping e has h i p m = elim (put_same mapping e.header.sid _ i p m) [
  | inl (same, at) ↦
      let here : popped + length queue ≡ p = ap (get_some 0) at in
      let last : p - popped ≡ length queue = omega (arith, here) in
      (e, omega (arith, here), ap (nth (queue ++ e ∷ [])) last ∙ nth-last queue e, has, sym same)
  | inr (other, m') ↦ append-IsMapped queue popped mapping e h i p m'
]

-- The event `e` that the pointer `p` leads to is changed to `x`, which is no longer mapped or has the
-- sid of `e`.
pub store-IsMapped :
    (queue : List ParsedEvent) (popped : ℕ) (mapping mapping' : ℕ → Option ℕ) (p : ℕ)
    (e x : ParsedEvent)
    → popped ≤ p
    → nth queue (p - popped) ≡ some e
    → ((i q : ℕ) → mapping' i ≡ some q → mapping i ≡ some q)
    → ((i : ℕ) → mapping' i ≡ some p → e.header.sid ≡ i → (x.has_io ≡ true) × (x.header.sid ≡ i))
    → IsMapped queue popped mapping
    → IsMapped (set queue (p - popped) x) popped mapping'
store-IsMapped queue popped mapping mapping' p e x le at sub keep h i q m =
    let (y, le', there, has, sid) = h i q (sub i q m) in
    elim (ℕ_discrete p q) [
      | yes same ↦
          let here : nth queue (p - popped) ≡ some y = rw same there in
          let event : e ≡ y = ap (event_or e) (sym at ∙ here) in
          let kept =
            keep i (m ∙ ap some (sym same)) (ap (λ (z : ParsedEvent). z.header.sid) event ∙ sid) in
          (x, le', rw (sym same) (nth-set queue (p - popped) e x at), kept.0, kept.1)
      | no other ↦
          (y, le', nth-set_other queue (p - popped) (q - popped) x (omega arith) ∙ there, has, sid)
    ]

-- The front event leaves, and so does the mapping of its sid.
pub pop-IsMapped :
    (e : ParsedEvent) (es : List ParsedEvent) (popped : ℕ) (mapping mapping' : ℕ → Option ℕ)
    → ((i q : ℕ) → mapping' i ≡ some q → mapping i ≡ some q)
    → ((i q : ℕ) → mapping' i ≡ some q → e.has_io ≡ true → e.header.sid ≢ i)
    → IsMapped (e ∷ es) popped mapping
    → IsMapped es (popped + 1) mapping'
pop-IsMapped e es popped mapping mapping' sub gone h i q m =
    let (y, le, there, has, sid) = h i q (sub i q m) in
    elim (ℕ_discrete popped q) [
      | yes same ↦
          let zero_at : q - popped ≡ 0 = omega arith in
          let event : e ≡ y = ap (event_or e) (rw zero_at at there) in
          absurd (
            gone i q m (ap (λ (z : ParsedEvent). z.has_io) event ∙ has)
              (ap (λ (z : ParsedEvent). z.header.sid) event ∙ sid))
      | no other ↦
          let next : q - popped ≡ suc (q - (popped + 1)) = omega arith in
          (y, omega arith, (rw next at there), has, sid)
    ]
