-- ===== src/Serial/Counts.antt =====
-- The counts that serial.c reports, against the characters that the rings hold.
use uno_pen_plotter.Prelude.{◌+◌, ◌≡◌, arith, leb, if◌then◌else◌, length}
use uno_pen_plotter.Serial.{
  Port, rx_buffer_size, serial_get_rx_buffer_available, serial_get_rx_buffer_count,
  serial_get_tx_buffer_count, serial_reset_read_buffer,
}
use uno_pen_plotter.Serial.Streams.{IsValid, unread, length-unread}
use uno_pen_plotter.Serial.Writes.{unsent, length-unsent}

-- On a valid port, the free receive space and the unread characters make up 128; the transmit count
-- is the number of unsent bytes; the receive count is the number of unread characters as long as
-- they do not go round the end of the ring, and one too few when they do; and after a reset of the
-- read buffer nothing is unread.
pub counts_lem :
    (p : Port)
    → IsValid p
    → (serial_get_rx_buffer_available p + length (unread p) ≡ rx_buffer_size)
      × (serial_get_tx_buffer_count p ≡ length (unsent p))
      × (serial_get_rx_buffer_count p + (if leb p.rx_tail p.rx_head then 0 else 1)
          ≡ length (unread p))
      × (length (unread (serial_reset_read_buffer p)) ≡ 0)
unfolding serial_get_rx_buffer_available serial_get_rx_buffer_count serial_get_tx_buffer_count
    serial_reset_read_buffer
counts_lem p v = (
  ground (arith, length-unread p),
  ground (arith, length-unsent p),
  ground (arith, length-unread p),
  ground (arith, length-unread (serial_reset_read_buffer p)),
)
