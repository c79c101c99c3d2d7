-- ===== src/Serial/Streams.antt =====
-- The two rings as streams: what is written is sent in order, and what is received is read in order.
use uno_pen_plotter.Prelude.{
  ℕ, ◌<◌, ◌≡◌, ◌≢◌, ◌⊎◌, inl, inr, refl, not, ◌&&◌, List, [], ◌∷◌, ◌++◌, arith, ltb, ◌==◌,
  if◌then◌else◌, length, Bool-cases,
}
use uno_pen_plotter.Ring.{
  update, next_index, items, count, items-pop, length-items, items-push, items_empty,
}
use uno_pen_plotter.System.{Machine}
use uno_pen_plotter.Protocol.Commands.{is_realtime, realtime_command}
use uno_pen_plotter.Serial.{
  Port, rx_buffer_size, rx_ring_buffer, tx_ring_buffer, serial_no_data, serial_read, receive,
  serial_rx,
}

-- Indices lie in their rings, and the transmit interrupt is on exactly while there is something to
-- send.
pub record IsValid (p : Port) : Type 0 where
  pub rx_head_in : p.rx_head < rx_ring_buffer
  pub rx_tail_in : p.rx_tail < rx_ring_buffer
  pub tx_head_in : p.tx_head < tx_ring_buffer
  pub tx_tail_in : p.tx_tail < tx_ring_buffer
  pub streaming : p.udrie ≡ not (p.tx_head == p.tx_tail)

-- The received characters that are not read yet, oldest first.
unfoldable pub unread : Port → List ℕ
unread p = items rx_ring_buffer p.rx_buffer p.rx_tail (count rx_ring_buffer p.rx_head p.rx_tail)

pub unsent : Port → List ℕ
unsent p = items tx_ring_buffer p.tx_buffer p.tx_tail (count tx_ring_buffer p.tx_head p.tx_tail)

-- Everything written so far: sent, and waiting to be sent.
abbrev pub output : Port → List ℕ
output p = p.sent ++ unsent p

receive_lem :
    (c : ℕ) (p : Port)
    → IsValid p
    → (receive c p ≡ p) × (next_index rx_ring_buffer p.rx_head ≡ p.rx_tail)
      ⊎ (receive c p ≡ record p {
        rx_buffer = update p.rx_buffer p.rx_head c;
        rx_head = next_index rx_ring_buffer p.rx_head;
      })
        × (next_index rx_ring_buffer p.rx_head ≢ p.rx_tail)
unfolding receive
receive_lem c p v = ground arith

pub length-unread : (p : Port) → length (unread p) ≡ count rx_ring_buffer p.rx_head p.rx_tail
unfolding unread
length-unread p =
    length-items rx_ring_buffer p.rx_buffer p.rx_tail (count rx_ring_buffer p.rx_head p.rx_tail)

unread_push :
    (c : ℕ) (p : Port)
    → IsValid p
    → next_index rx_ring_buffer p.rx_head ≢ p.rx_tail
    → unread (record p {
      rx_buffer = update p.rx_buffer p.rx_head c;
      rx_head = next_index rx_ring_buffer p.rx_head;
    })
      ≡ unread p ++ (c ∷ [])
unfolding unread
unread_push c p v ne =
    items-push rx_ring_buffer p.rx_buffer c p.rx_head p.rx_tail v.rx_head_in v.rx_tail_in ne

has_space :
    (p : Port)
    → IsValid p
    → ltb (length (unread p)) rx_buffer_size
      ≡ not (next_index rx_ring_buffer p.rx_head == p.rx_tail)
has_space p v = ground (arith, length-unread p)

unread-receive :
    (c : ℕ) (p : Port)
    → IsValid p
    → unread (receive c p)
      ≡ (if ltb (length (unread p)) rx_buffer_size then unread p ++ (c ∷ []) else unread p)
unread-receive c p v = rw (has_space p v) (elim (receive_lem c p v) [
  | inl (same, full) ↦ rw same (ground arith)
  | inr (moved, free) ↦ rw (moved, unread_push c p v free) (ground arith)
])

unread-read :
    (p : Port)
    → IsValid p
    → unread p
      ≡ (if p.rx_head == p.rx_tail then [] else (serial_read p).0 ∷ unread (serial_read p).1)
unfolding unread serial_read
unread-read p v = ground (
  arith,
  items_empty rx_ring_buffer p.rx_buffer p.rx_head p.rx_tail,
  items-pop rx_ring_buffer p.rx_buffer p.rx_head p.rx_tail,
)

receive-IsValid : (c : ℕ) (p : Port) → IsValid p → IsValid (receive c p)
unfolding receive
receive-IsValid c p v = ground arith

pub serial_rx-IsValid : (c : ℕ) (p : Port) → IsValid p → IsValid (serial_rx c p)
unfolding serial_rx
serial_rx-IsValid c p v = ground (arith, receive-IsValid c p v)

pub serial_read-IsValid : (p : Port) → IsValid p → IsValid (serial_read p).1
unfolding serial_read
serial_read-IsValid p v = ground arith

machine-receive : (c : ℕ) (p : Port) → (receive c p).machine ≡ p.machine
unfolding receive
machine-receive c p = ground arith

unread_other : (p : Port) (m : Machine) → unread (record p { machine = m }) ≡ unread p
unfolding unread
unread_other p m = refl

unread-serial_rx :
    (c : ℕ) (p : Port)
    → IsValid p
    → unread (serial_rx c p) ≡ (
        if not (is_realtime c) && ltb (length (unread p)) rx_buffer_size
        then unread p ++ (c ∷ [])
        else unread p)
unfolding serial_rx
unread-serial_rx c p v = elim (Bool-cases (is_realtime c)) [
  | inl t ↦ rw t (unread_other p (realtime_command c p.machine))
  | inr f ↦ rw f (unread-receive c p v)
]

machine-serial_rx :
    (c : ℕ) (p : Port)
    → (serial_rx c p).machine ≡ (if is_realtime c then realtime_command c p.machine else p.machine)
unfolding serial_rx
machine-serial_rx c p = ground (arith, machine-receive c p)

-- On a valid port, the receive interrupt keeps the order of what is received: a character that is not
-- a real-time one is added after the unread ones if fewer than 128 are waiting, and is lost
-- otherwise; a real-time one is never stored, and only it reaches the rest of the machine.
pub serial_rx_lem :
    (c : ℕ) (p : Port)
    → IsValid p
    → IsValid (serial_rx c p)
      × (unread (serial_rx c p) ≡ (
          if not (is_realtime c) && ltb (length (unread p)) rx_buffer_size
          then unread p ++ (c ∷ [])
          else unread p))
      × ((serial_rx c p).machine
          ≡ (if is_realtime c then realtime_command c p.machine else p.machine))
serial_rx_lem c p v = (serial_rx-IsValid c p v, unread-serial_rx c p v, machine-serial_rx c p)

-- On a valid port, a read takes the oldest of the unread characters, or gives the no-data value and
-- changes nothing when there is none.
pub serial_read_lem :
    (p : Port)
    → IsValid p
    → IsValid (serial_read p).1
      × (unread p ≡ [] × serial_read p ≡ (serial_no_data, p)
          ⊎ unread p ≡ (serial_read p).0 ∷ unread (serial_read p).1)
unfolding serial_read
serial_read_lem p v = (serial_read-IsValid p v, ground (arith, unread-read p v))
