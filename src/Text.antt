-- ===== src/Text.antt =====
-- Numbers as text: the integer printers of grbl/print.c, as the characters that they give to
-- `serial_write`, and `read_float` of grbl/nuts_bolts.c.
pub mod Print
pub mod Scan
pub mod Decimal
pub mod RoundTrip
pub mod Examples
