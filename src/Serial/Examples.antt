-- ===== src/Serial/Examples.antt =====
-- The serial theorems at one port, with a full transmit ring.
use uno_pen_plotter.Prelude.{◌+◌, ◌≡◌, ◌≢◌, refl, true, none, some, [], ◌∷◌, ◌++◌, arith, length}
use uno_pen_plotter.Ring.{items}
use uno_pen_plotter.System.Samples.{resting}
use uno_pen_plotter.Serial.{
  Port, data_register_empty, serial_write, serial_rx, event, store, serial_udre,
  serial_get_rx_buffer_available, serial_get_rx_buffer_count, serial_get_tx_buffer_count,
  serial_reset_read_buffer,
}
use uno_pen_plotter.Serial.Streams.{IsValid, unread, serial_rx_lem}
use uno_pen_plotter.Serial.Writes.{Written, unsent, serial_write_lem}
use uno_pen_plotter.Serial.Ends.{serial_write_ends}
use uno_pen_plotter.Serial.Counts.{counts_lem}

-- 104 bytes wait to be sent, and two characters to be read, round the end of the ring.
abbrev busy : Port
busy = record {
  rx_buffer = λ i. i;
  rx_head = 1;
  rx_tail = 128;
  tx_buffer = λ i. 65;
  tx_head = 4;
  tx_tail = 5;
  udrie = true;
  sent = [];
  machine = resting;
}

busy-IsValid : IsValid busy
busy-IsValid = ground arith

abbrev sent_one : Port
sent_one = store 5 66 (serial_udre busy)

writes : serial_write (data_register_empty ∷ []) 66 busy ≡ some sent_one
unfolding serial_write event serial_udre
writes = refl

serial_write_lem_example : Written 66 busy sent_one
serial_write_lem_example =
    serial_write_lem (data_register_empty ∷ []) 66 busy sent_one busy-IsValid writes

serial_write_ends_example : serial_write (data_register_empty ∷ []) 66 busy ≢ none
serial_write_ends_example = serial_write_ends (data_register_empty ∷ []) 66 busy busy-IsValid tt

serial_rx_lem_example :
    IsValid (serial_rx b'G' busy)
    × (unread (serial_rx b'G' busy) ≡ unread busy ++ (b'G' ∷ []))
    × ((serial_rx b'G' busy).machine ≡ resting)
unfolding unread items
serial_rx_lem_example = serial_rx_lem b'G' busy busy-IsValid

counts_lem_example :
    (serial_get_rx_buffer_available busy + length (unread busy) ≡ 128)
    × (serial_get_tx_buffer_count busy ≡ length (unsent busy))
    × (serial_get_rx_buffer_count busy + 1 ≡ length (unread busy))
    × (length (unread (serial_reset_read_buffer busy)) ≡ 0)
counts_lem_example = counts_lem busy busy-IsValid
