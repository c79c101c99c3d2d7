-- ===== src/Serial.antt =====
-- The serial port's two rings and their interrupts (grbl/serial.c).
pub mod Streams
pub mod Writes
pub mod Ends
pub mod Counts
pub mod Examples
use uno_pen_plotter.Prelude.{
  ℕ, ◌+◌, ◌-◌, ◌%◌, Bool, true, false, Option, none, some, List, [], ◌∷◌, ◌++◌, ltb, leb, ◌==◌,
  if◌then◌else◌,
}
use uno_pen_plotter.Ring.{Array, update}
use uno_pen_plotter.System.{Machine}
use uno_pen_plotter.Protocol.Realtime.{Interrupt, interrupt}
use uno_pen_plotter.Protocol.Commands.{is_realtime, realtime_command}

abbrev pub rx_buffer_size : ℕ
rx_buffer_size = 128

abbrev pub rx_ring_buffer : ℕ
rx_ring_buffer = rx_buffer_size + 1

abbrev pub tx_buffer_size : ℕ
tx_buffer_size = 104

abbrev pub tx_ring_buffer : ℕ
tx_ring_buffer = tx_buffer_size + 1

abbrev pub serial_no_data : ℕ
serial_no_data = 255

-- The globals of serial.c, the UDRIE0 bit, the bytes given to UDR0 so far, and the rest of the
-- machine.
pub record Port : Type 0 where
  pub rx_buffer : Array ℕ
  pub rx_head : ℕ
  pub rx_tail : ℕ
  pub tx_buffer : Array ℕ
  pub tx_head : ℕ
  pub tx_tail : ℕ
  pub udrie : Bool
  pub sent : List ℕ
  pub machine : Machine

-- `i + 1`, as a byte, or 0 at the ring's size.
abbrev pub next_in : ℕ → ℕ → ℕ
next_in size i = if (i + 1) % 256 == size then 0 else (i + 1) % 256

unfoldable pub serial_get_rx_buffer_available : Port → ℕ
serial_get_rx_buffer_available p =
    if leb p.rx_tail p.rx_head
    then rx_buffer_size - (p.rx_head - p.rx_tail)
    else p.rx_tail - p.rx_head - 1

unfoldable pub serial_get_rx_buffer_count : Port → ℕ
serial_get_rx_buffer_count p =
    if leb p.rx_tail p.rx_head
    then p.rx_head - p.rx_tail
    else rx_buffer_size - (p.rx_tail - p.rx_head)

unfoldable pub serial_get_tx_buffer_count : Port → ℕ
serial_get_tx_buffer_count p =
    if leb p.tx_tail p.tx_head
    then p.tx_head - p.tx_tail
    else tx_ring_buffer - (p.tx_tail - p.tx_head)

-- The interrupt when the data register is empty.
unfoldable pub serial_udre : Port → Port
serial_udre p =
    let tail = next_in tx_ring_buffer p.tx_tail in
    record p {
      sent = p.sent ++ (p.tx_buffer p.tx_tail ∷ []);
      tx_tail = tail;
      udrie = if tail == p.tx_head then false else p.udrie;
    }

-- What can happen while the main program waits: the data register becomes empty, which interrupts
-- when UDRIE0 is set, or another interrupt comes.
pub data Event : Type 0 where
  data_register_empty : Event
  other : Interrupt → Event

unfoldable pub event : Event → Port → Port
event data_register_empty p = if p.udrie then serial_udre p else p
event (other i) p = record p { machine = interrupt i p.machine }

-- The store at the end of `serial_write`.
unfoldable pub store : ℕ → ℕ → Port → Port
store next_head data_byte p = record p {
  tx_buffer = update p.tx_buffer p.tx_head data_byte;
  tx_head = next_head;
  udrie = true;
}

-- `serial_write`, with the events that come during its wait; `none`: still waiting after them.
unfoldable pub serial_write : List Event → ℕ → Port → Option Port
serial_write [] data_byte p =
    let next_head = next_in tx_ring_buffer p.tx_head in
    if next_head == p.tx_tail
    then if p.machine.rt_exec_state.reset then some p else none
    else some (store next_head data_byte p)
serial_write (e ∷ es) data_byte p =
    let next_head = next_in tx_ring_buffer p.tx_head in
    let rest = serial_write es data_byte (event e p) in
    if next_head == p.tx_tail
    then if p.machine.rt_exec_state.reset then some p else rest
    else some (store next_head data_byte p)

unfoldable pub serial_read : Port → ℕ × Port
serial_read p =
    if p.rx_head == p.rx_tail
    then (serial_no_data, p)
    else (p.rx_buffer p.rx_tail, record p { rx_tail = next_in rx_ring_buffer p.rx_tail })

-- The branch of the receive interrupt that writes a character to the buffer unless it is full.
unfoldable pub receive : ℕ → Port → Port
receive data_byte p =
    let next_head = next_in rx_ring_buffer p.rx_head in
    if next_head == p.rx_tail
    then p
    else record p { rx_buffer = update p.rx_buffer p.rx_head data_byte; rx_head = next_head }

-- The receive interrupt.
unfoldable pub serial_rx : ℕ → Port → Port
serial_rx data_byte p =
    if is_realtime data_byte
    then record p { machine = realtime_command data_byte p.machine }
    else receive data_byte p

unfoldable pub serial_reset_read_buffer : Port → Port
serial_reset_read_buffer p = record p { rx_tail = p.rx_head }
