-- ===== src/Ring.antt =====
-- What the firmware's ring buffers share (serial.c, planner.c, stepper.c): an array, a tail, a head
-- that is never allowed to catch up with it, and an index that goes back to 0 at the size.
use uno_pen_plotter.Prelude.{
  ℕ, zero, suc, ◌+◌, ◌-◌, ◌<◌, ◌≡◌, ◌≢◌, ◌⊎◌, refl, ap, List, [], ◌∷◌, ◌++◌, arith, leb, ◌==◌,
  if◌then◌else◌, length,
}
use mathlib.Core.Path.{ap₂}

-- A C array, by index. A component's invariant keeps its indices below the array's size.
abbrev pub Array : Type 0 → Type 0
Array A = ℕ → A

abbrev pub update : {A : Type 0} → Array A → ℕ → A → Array A
update f i v j = if i == j then v else f j

-- `i++; if (i == size) { i = 0; }`
abbrev pub next_index : ℕ → ℕ → ℕ
next_index size i = if i + 1 == size then 0 else i + 1

-- The elements from `tail` on, `n` of them.
unfoldable pub items : {A : Type 0} → ℕ → Array A → ℕ → ℕ → List A
items size buf tail zero = []
items size buf tail (suc n) = buf tail ∷ items size buf (next_index size tail) n

-- How many elements lie between the indices.
abbrev pub count : ℕ → ℕ → ℕ → ℕ
count size head tail = if leb tail head then head - tail else size + head - tail

-- `head` is `n` places after `tail`, going round at `size`.
abbrev pub After : ℕ → ℕ → ℕ → ℕ → Type 0
After size head tail n = (head ≡ tail + n) ⊎ (head + size ≡ tail + n)

pub count-After :
    (size head tail : ℕ) → head < size → tail < size → After size head tail (count size head tail)
count-After size head tail h t = ground arith

pub count-lt : (size head tail : ℕ) → head < size → tail < size → count size head tail < size
count-lt size head tail h t = ground arith

pub next_index-lt : (size i : ℕ) → i < size → next_index size i < size
next_index-lt size i h = ground arith

pub length-items :
    {A : Type 0} (size : ℕ) (buf : Array A) (tail n : ℕ) → length (items size buf tail n) ≡ n
unfolding items
length-items size buf tail zero = refl
length-items size buf tail (suc n) = ap suc (length-items size buf (next_index size tail) n)

-- A write at the head extends the elements by that one, if the ring is not full.
pub items-update :
    {A : Type 0} (size : ℕ) (buf : Array A) (v : A) (head tail n : ℕ)
    → head < size
    → tail < size
    → n < size
    → After size head tail n
    → items size (update buf head v) tail (suc n) ≡ items size buf tail n ++ (v ∷ [])
unfolding items
items-update size buf v head tail zero h t k a = let e : head ≡ tail = omega arith in ground arith
items-update size buf v head tail (suc n) h t k a = ap₂ ◌∷◌ ne (
    items-update size buf v head (next_index size tail) n h (next_index-lt size tail t)
      (omega arith) (ground arith))
  where
    ne : update buf head v tail ≡ buf tail
    ne = ground arith

-- An element at the tail is the first, and without it the rest begins at the next index.
pub items-pop :
    {A : Type 0} (size : ℕ) (buf : Array A) (head tail : ℕ)
    → head < size
    → tail < size
    → head ≢ tail
    → items size buf tail (count size head tail)
      ≡ buf tail ∷ items size buf (next_index size tail) (count size head (next_index size tail))
unfolding items
items-pop size buf head tail h t ne = rw fewer refl
  where
    fewer : count size head tail ≡ suc (count size head (next_index size tail))
    fewer = ground arith

-- Advancing the head of a ring that is not full adds one to the count.
pub count-next :
    (size head tail : ℕ)
    → head < size
    → tail < size
    → next_index size head ≢ tail
    → count size (next_index size head) tail ≡ suc (count size head tail)
count-next size head tail h t ne = ground arith

-- The ring is full when one more would reach the tail: it holds one element less than its size.
pub full-count :
    (size head tail : ℕ)
    → head < size
    → tail < size
    → next_index size head ≡ tail
    → count size head tail + 1 ≡ size
full-count size head tail h t e = ground arith

-- The elements after a write at the head of a ring that is not full.
pub items-push :
    {A : Type 0} (size : ℕ) (buf : Array A) (v : A) (head tail : ℕ)
    → head < size
    → tail < size
    → next_index size head ≢ tail
    → items size (update buf head v) tail (count size (next_index size head) tail)
      ≡ items size buf tail (count size head tail) ++ (v ∷ [])
items-push size buf v head tail h t ne = rw (count-next size head tail h t ne) (
    items-update size buf v head tail (count size head tail) h t (count-lt size head tail h t)
      (count-After size head tail h t))

pub items_empty :
    {A : Type 0} (size : ℕ) (buf : Array A) (head tail : ℕ)
    → head ≡ tail
    → items size buf tail (count size head tail) ≡ []
unfolding items
items_empty size buf head tail e = rw (none_left size head tail e) refl
  where
    none_left : (size head tail : ℕ) → head ≡ tail → count size head tail ≡ 0
    none_left size head tail e = ground arith
