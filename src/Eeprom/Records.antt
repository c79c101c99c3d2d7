-- ===== src/Eeprom/Records.antt =====
-- Records in the EEPROM: what is written is read back, other records are untouched, and how much the
-- checksum detects.
use mathlib.Core.Path.{fun_ext}
use uno_pen_plotter.Prelude.{
  ℕ, zero, suc, ◌+◌, ◌%◌, ◌≤◌, ◌<◌, ◌≡◌, ◌≢◌, ◌⊎◌, inl, refl, ap, sym, ◌∙◌, Bool, true, List, [],
  ◌∷◌, arith, ◌==◌, length,
}
use uno_pen_plotter.Ring.{Array, update}
use uno_pen_plotter.Eeprom.{
  Program, eeprom_get_char, add_to_checksum, write_from, memcpy_to_eeprom_with_checksum, read_from,
  memcpy_from_eeprom_with_checksum,
}
use uno_pen_plotter.Eeprom.Cells.{IsEeprom, put_char_lem, put_char_is_update}

abbrev pub IsBytes : Array ℕ → Type 0
IsBytes mem = (j : ℕ) → mem j < 256

abbrev pub AllBytes : List ℕ → Type 0
AllBytes [] = Unit
AllBytes (b ∷ bs) = (b < 256) × AllBytes bs

-- The memory after the loop, as plain writes.
laid_out : ℕ → List ℕ → ℕ → Array ℕ → Array ℕ
laid_out destination [] checksum mem = update mem destination checksum
laid_out destination (b ∷ source) checksum mem =
    laid_out (destination + 1) source (add_to_checksum checksum b) (update mem destination b)

pub update-IsBytes : (mem : Array ℕ) (i v : ℕ) → IsBytes mem → v < 256 → IsBytes (update mem i v)
update-IsBytes mem i v m h j = ground (arith, m j)

add_to_checksum-lt : (c b : ℕ) → add_to_checksum c b < 256
unfolding add_to_checksum
add_to_checksum-lt c b = omega arith

write_from_lem :
    (program : Program) (destination : ℕ) (source : List ℕ) (c : ℕ) (mem : Array ℕ)
    → IsEeprom program
    → IsBytes mem
    → AllBytes source
    → c < 256
    → write_from program destination source c mem ≡ laid_out destination source c mem
unfolding write_from laid_out
write_from_lem program d [] c mem h m s lt =
    fun_ext (λ j. put_char_lem program d c mem h (m d) lt j)
write_from_lem program d (b ∷ bs) c mem h m s lt =
    ap (write_from program (d + 1) bs (add_to_checksum c b))
      (fun_ext (λ j. put_char_lem program d b mem h (m d) s.0 j))
    ∙ write_from_lem program (d + 1) bs (add_to_checksum c b) (update mem d b) h
        (update-IsBytes mem d b m s.0) s.1 (add_to_checksum-lt c b)

-- Cells outside the record keep their bytes.
laid_out_elsewhere :
    (d : ℕ) (bs : List ℕ) (c : ℕ) (mem : Array ℕ) (j : ℕ)
    → (j < d) ⊎ (d + length bs < j)
    → laid_out d bs c mem j ≡ mem j
unfolding laid_out
laid_out_elsewhere d [] c mem j h = ground arith
laid_out_elsewhere d (b ∷ bs) c mem j h =
    ground (arith, laid_out_elsewhere (d + 1) bs (add_to_checksum c b) (update mem d b) j)

read_laid_out :
    (d : ℕ) (bs : List ℕ) (c : ℕ) (mem : Array ℕ)
    → read_from d (length bs) c (laid_out d bs c mem) ≡ (bs, true)
unfolding read_from laid_out eeprom_get_char
read_laid_out d [] c mem = ground arith
read_laid_out d (b ∷ bs) c mem = rw (first_cell d b bs c mem) (
    ap (λ (r : List ℕ × Bool). (b ∷ r.0, r.1))
      (read_laid_out (d + 1) bs (add_to_checksum c b) (update mem d b)))
  where
    first_cell :
        (d b : ℕ) (bs : List ℕ) (c : ℕ) (mem : Array ℕ)
        → laid_out (d + 1) bs (add_to_checksum c b) (update mem d b) d ≡ b
    first_cell d b bs c mem =
        laid_out_elsewhere (d + 1) bs (add_to_checksum c b) (update mem d b) d (inl (omega arith))
        ∙ ground arith

-- On a memory of bytes, a record of bytes that is written with its checksum is read back unchanged
-- and accepted, and every cell outside the record and its checksum keeps its byte.
pub write-read :
    (program : Program) (d : ℕ) (bs : List ℕ) (mem : Array ℕ) (j : ℕ)
    → IsEeprom program
    → IsBytes mem
    → AllBytes bs
    → (j < d) ⊎ (d + length bs < j)
    → (memcpy_from_eeprom_with_checksum d
          (length bs)
          (memcpy_to_eeprom_with_checksum program d bs mem)
        ≡ (bs, true))
      × (memcpy_to_eeprom_with_checksum program d bs mem j ≡ mem j)
unfolding memcpy_to_eeprom_with_checksum memcpy_from_eeprom_with_checksum
write-read program d bs mem j h m s out =
    rw (write_from_lem program d bs 0 mem h m s (omega arith))
      (read_laid_out d bs 0 mem, laid_out_elsewhere d bs 0 mem j out)

-- A record is read from its own cells.
pub read_from_same :
    (d n c : ℕ) (mem mem' : Array ℕ)
    → ((j : ℕ) → d ≤ j → j ≤ d + n → mem' j ≡ mem j)
    → read_from d n c mem' ≡ read_from d n c mem
unfolding read_from eeprom_get_char
read_from_same d zero c mem mem' h = ap (λ v. ([], c == v)) (h d (omega arith) (omega arith))
read_from_same d (suc n) c mem mem' h = rw (h d (omega arith) (omega arith)) (
    ap (λ (r : List ℕ × Bool). (mem d ∷ r.0, r.1))
      (read_from_same (d + 1) n (add_to_checksum c (mem d)) mem mem'
        (λ j lo hi. h j (omega arith) (omega arith))))

pub write-IsBytes :
    (program : Program) (d : ℕ) (bs : List ℕ) (c : ℕ) (mem : Array ℕ)
    → IsEeprom program
    → IsBytes mem
    → AllBytes bs
    → c < 256
    → IsBytes (write_from program d bs c mem)
unfolding write_from
write-IsBytes program d [] c mem h m s lt =
    rw (put_char_is_update program d c mem h (m d) lt) (update-IsBytes mem d c m lt)
write-IsBytes program d (b ∷ bs) c mem h m s lt =
    write-IsBytes program (d + 1) bs (add_to_checksum c b) _ h
      (rw (put_char_is_update program d b mem h (m d) s.0) (update-IsBytes mem d b m s.0)) s.1
      (add_to_checksum-lt c b)

last_two :
    (c x y : ℕ)
    → x % 256 ≢ 0
    → x % 256 ≢ 255
    → add_to_checksum (add_to_checksum c x) y ≡ (1 + y) % 256
unfolding add_to_checksum
last_two c x y h k = ground arith

agrees_lem :
    (d n c p : ℕ) (mem : Array ℕ)
    → p ≡ d + n
    → mem p % 256 ≢ 0
    → mem p % 256 ≢ 255
    → (read_from d (n + 2) c mem).1 ≡ ((1 + mem (p + 1)) % 256 == mem (p + 2))
unfolding read_from eeprom_get_char
agrees_lem d zero c p mem e h k =
    ap (λ v. v == mem (d + 1 + 1)) (last_two c (mem d) (mem (d + 1)) (at_d h) (at_d k))
    ∙ ap (λ a. (1 + mem (d + 1)) % 256 == mem a) (omega arith)
    ∙ ap (λ a. (1 + mem (a + 1)) % 256 == mem (a + 2)) (sym p_is_d)
  where
    p_is_d : p ≡ d
    p_is_d = omega arith

    at_d : {v : ℕ} → mem p % 256 ≢ v → mem d % 256 ≢ v
    at_d ne = rw (← p_is_d) ne
agrees_lem d (suc n) c p mem e h k =
    ap (λ size. (read_from d size c mem).1) shift
    ∙ agrees_lem (d + 1) n (add_to_checksum c (mem d)) p mem (omega arith) h k
  where
    shift : suc n + 2 ≡ suc (n + 2)
    shift = omega arith

-- A record of at least two bytes whose last byte but one is neither 0 nor 255 is accepted exactly
-- when the stored checksum is the last byte plus one: whatever the other bytes are, no change of
-- them is detected.
pub checksum_ignores :
    (d n : ℕ) (mem : Array ℕ)
    → mem (d + n) % 256 ≢ 0
    → mem (d + n) % 256 ≢ 255
    → (memcpy_from_eeprom_with_checksum d (n + 2) mem).1
      ≡ ((1 + mem (d + n + 1)) % 256 == mem (d + n + 2))
unfolding memcpy_from_eeprom_with_checksum
checksum_ignores d n mem h k = agrees_lem d n 0 (d + n) mem refl h k
