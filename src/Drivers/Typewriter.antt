-- ===== src/Drivers/Typewriter.antt =====
-- What kernel/src/drivers/scrn.c prints, as a typewriter on a page without an end: rows of 80 cells,
-- of which the screen shows 25.
use night.Base.{
  ℕ, ◌+◌, ◌-◌, ◌*◌, ◌/◌, ◌^◌, ◌≤◌, ◌<◌, ◌≡◌, bit_or, false, List, [], ◌∷◌, leb, ◌==◌, update,
  if◌then◌else◌,
}
use night.Drivers.Screen.{Screen, u16}

pub record Page : Type 0 where
  pub cells : ℕ → ℕ
  pub pos : ℕ

-- A character with a colour.
abbrev pub ink : (attrib c : ℕ) → ℕ
ink attrib c = u16 (bit_or (attrib * 2 ^ 8) c)

-- A tab goes to the next column that 8 divides, a carriage return to the start of the row, a newline
-- to the start of the next one; a printable character takes one cell, and any other none.
abbrev pub advance : (c pos : ℕ) → ℕ
advance c pos =
    if c == 0x09
    then pos / 8 * 8 + 8
    else if c == 0x0D
    then pos / 80 * 80
    else if c == 0x0A
    then pos / 80 * 80 + 80
    else if leb 0x20 c
    then pos + 1
    else pos

abbrev pub strike : (attrib c : ℕ) → Page → Page
strike attrib c p = record {
  cells = if leb 0x20 c then update p.cells p.pos (ink attrib c) else p.cells;
  pos = advance c p.pos;
}

abbrev pub type_text : (attrib : ℕ) → List ℕ → Page → Page
type_text attrib [] p = p
type_text attrib (c ∷ text) p = type_text attrib text (strike attrib c p)

-- The first row that is shown: the window moves down just as far as the row of the cursor needs.
abbrev pub top_for : (top pos : ℕ) → ℕ
top_for top pos = if leb (top + 25) (pos / 80) then pos / 80 - 24 else top

-- The screen shows the rows of the page from `top` on, below which the page is blank.
pub record Shows (top : ℕ) (p : Page) (s : Screen) : Type 0 where
  pub unlocked : s.vga_locked ≡ false
  pub column : s.csr_x < 80
  pub row : s.csr_y < 25
  pub pos : p.pos ≡ (top + s.csr_y) * 80 + s.csr_x
  pub window : (i : ℕ) → i < 2000 → s.text i ≡ p.cells (top * 80 + i)
  pub blank : (i : ℕ) → (top + 25) * 80 ≤ i → p.cells i ≡ ink s.attrib 0x20
