-- ===== src/Serial/Writes.antt =====
-- The transmit ring: bytes leave in the order in which they are written, and the wait for space ends.
use mathlib.Core.List.{append_assoc}
use uno_pen_plotter.Prelude.{
  ℕ, ◌≡◌, ◌⊎◌, inl, inr, refl, Bool, true, false, some, List, [], ◌∷◌, ◌++◌, arith, ◌==◌, length,
  Bool-cases, ap, sym, ◌∙◌,
}
use uno_pen_plotter.Ring.{next_index, items, count, items-pop, items-push, length-items}
use uno_pen_plotter.System.{Machine}
use uno_pen_plotter.Protocol.Realtime.{Interrupt, interrupt}
use uno_pen_plotter.Serial.{
  Port, tx_ring_buffer, serial_udre, Event, data_register_empty, other, event, store, next_in,
  serial_write,
}
use uno_pen_plotter.Serial.Streams.{IsValid}

pub unsent : Port → List ℕ
unsent p = items tx_ring_buffer p.tx_buffer p.tx_tail (count tx_ring_buffer p.tx_head p.tx_tail)

-- Everything written so far: sent, and waiting to be sent.
abbrev pub output : Port → List ℕ
output p = p.sent ++ unsent p

pub length-unsent : (p : Port) → length (unsent p) ≡ count tx_ring_buffer p.tx_head p.tx_tail
unfolding unsent
length-unsent p =
    length-items tx_ring_buffer p.tx_buffer p.tx_tail (count tx_ring_buffer p.tx_head p.tx_tail)

abbrev pub is_full : Port → Bool
is_full p = next_in tx_ring_buffer p.tx_head == p.tx_tail

unsent-store :
    (c : ℕ) (p : Port)
    → IsValid p
    → is_full p ≡ false
    → unsent (store (next_in tx_ring_buffer p.tx_head) c p) ≡ unsent p ++ (c ∷ [])
unfolding unsent store
unsent-store c p v free = rw same_index (
    items-push tx_ring_buffer p.tx_buffer c p.tx_head p.tx_tail v.tx_head_in v.tx_tail_in
      (ground arith))
  where
    same_index : next_in tx_ring_buffer p.tx_head ≡ next_index tx_ring_buffer p.tx_head
    same_index = ground arith

store-IsValid :
    (c : ℕ) (p : Port)
    → IsValid p
    → is_full p ≡ false
    → IsValid (store (next_in tx_ring_buffer p.tx_head) c p)
unfolding store
store-IsValid c p v free = ground arith

store_lem :
    (c : ℕ) (p : Port)
    → IsValid p
    → is_full p ≡ false
    → output (store (next_in tx_ring_buffer p.tx_head) c p) ≡ output p ++ (c ∷ [])
store_lem c p v free =
    rw (unsent-store c p v free) (kept c p ∙ sym (append_assoc p.sent (unsent p) (c ∷ [])))
  where
    kept :
        (c : ℕ) (p : Port)
        → (store (next_in tx_ring_buffer p.tx_head) c p).sent ++ (unsent p ++ (c ∷ []))
          ≡ p.sent ++ (unsent p ++ (c ∷ []))
    kept c p = unfold store in refl

unsent-udre :
    (p : Port)
    → IsValid p
    → p.udrie ≡ true
    → unsent p ≡ p.tx_buffer p.tx_tail ∷ unsent (serial_udre p)
unfolding unsent serial_udre
unsent-udre p v on = rw same_index (
    items-pop tx_ring_buffer p.tx_buffer p.tx_head p.tx_tail v.tx_head_in v.tx_tail_in
      (ground arith))
  where
    same_index : next_in tx_ring_buffer p.tx_tail ≡ next_index tx_ring_buffer p.tx_tail
    same_index = ground arith

sent-udre : (p : Port) → (serial_udre p).sent ≡ p.sent ++ (p.tx_buffer p.tx_tail ∷ [])
unfolding serial_udre
sent-udre p = refl

udre-IsValid : (p : Port) → IsValid p → p.udrie ≡ true → IsValid (serial_udre p)
unfolding serial_udre
udre-IsValid p v on = ground arith

output-udre : (p : Port) → IsValid p → p.udrie ≡ true → output (serial_udre p) ≡ output p
output-udre p v on =
    ap (λ l. l ++ unsent (serial_udre p)) (sent-udre p)
    ∙ append_assoc p.sent (p.tx_buffer p.tx_tail ∷ []) (unsent (serial_udre p))
    ∙ sym (ap (λ l. p.sent ++ l) (unsent-udre p v on))

unsent_other : (p : Port) (m : Machine) → unsent (record p { machine = m }) ≡ unsent p
unfolding unsent
unsent_other p m = refl

event_cases :
    (p : Port)
    → (event data_register_empty p ≡ serial_udre p) × (p.udrie ≡ true)
      ⊎ (event data_register_empty p ≡ p) × (p.udrie ≡ false)
unfolding event
event_cases p = ground arith

pub event_other : (i : Interrupt) (p : Port) → IsValid p → IsValid (event (other i) p)
unfolding event
event_other i p v = ground arith

output-event_other : (i : Interrupt) (p : Port) → output (event (other i) p) ≡ output p
unfolding event
output-event_other i p = ap (λ l. p.sent ++ l) (unsent_other p (interrupt i p.machine))

-- An event keeps the port valid, and what has been written.
event_lem :
    (e : Event) (p : Port) → IsValid p → IsValid (event e p) × (output (event e p) ≡ output p)
event_lem data_register_empty p v = elim (event_cases p) [
  | inl (e, on) ↦ rw e (udre-IsValid p v on, output-udre p v on)
  | inr (e, off) ↦ rw e (v, refl)
]
event_lem (other i) p v = (event_other i p v, output-event_other i p)

-- What a finished write has done.
abbrev pub Written : ℕ → Port → Port → Type 0
Written c p q =
    IsValid q
    × (output q ≡ output p ++ (c ∷ [])
        ⊎ (q.machine.rt_exec_state.reset ≡ true) × (output q ≡ output p))

write_now :
    (c : ℕ) (p q : Port)
    → IsValid p
    → is_full p ≡ false
    → store (next_in tx_ring_buffer p.tx_head) c p ≡ q
    → Written c p q
write_now c p q v free e = rw (← e) (store-IsValid c p v free, inl (store_lem c p v free))

write_full :
    (c : ℕ) (p q : Port) → IsValid p → p.machine.rt_exec_state.reset ≡ true → p ≡ q → Written c p q
write_full c p q v r e =
    (ap_valid e v, inr (ap (λ m. m.machine.rt_exec_state.reset) (sym e) ∙ r, ap output (sym e)))
  where
    ap_valid : {p q : Port} → p ≡ q → IsValid p → IsValid q
    ap_valid e v = rw (← e) v

event_then_write : (c : ℕ) (p p' q : Port) → output p' ≡ output p → Written c p' q → Written c p q
event_then_write c p p' q e w = (
  w.0,
  elim w.1 [
    | inl done ↦ inl (done ∙ ap (λ l. l ++ (c ∷ [])) e)
    | inr (r, same) ↦ inr (r, same ∙ e)
  ],
)

-- On a valid port, whatever events come while it waits, a write that returns has added its byte after
-- everything written before, sent or waiting to be sent, and nothing is lost, repeated or reordered;
-- or a reset is pending and it has added nothing. The port stays valid.
pub serial_write_lem :
    (es : List Event) (c : ℕ) (p q : Port)
    → IsValid p
    → serial_write es c p ≡ some q
    → Written c p q
unfolding serial_write
serial_write_lem [] c p q v e = elim (Bool-cases (is_full p)) [
  | inr free ↦ write_now c p q v free (ground arith)
  | inl full ↦ write_full c p q v (ground arith) (ground arith)
]
serial_write_lem (ev ∷ es) c p q v e = elim (Bool-cases (is_full p)) [
  | inr free ↦ write_now c p q v free (ground arith)
  | inl full ↦ elim (Bool-cases p.machine.rt_exec_state.reset) [
    | inl r ↦ write_full c p q v r (ground arith)
    | inr calm ↦
        let (v', same) = event_lem ev p v in
        event_then_write c p (event ev p) q same
          (serial_write_lem es c (event ev p) q v' (ground arith))
  ]
]
