-- ===== src/Drivers/Screen.antt =====
-- kernel/src/drivers/scrn.c: the text screen of 80 columns and 25 rows.
use night.Base.{
  ℕ, ◌+◌, ◌-◌, ◌*◌, ◌/◌, ◌%◌, ◌^◌, bit_and, bit_or, Bool, true, false, List, [], ◌∷◌, leb, ◌==◌,
  if◌then◌else◌,
}
use night.Libk.Arith.{u32, sub32}
use night.Libk.Memory.{memcpy, memset}

-- The static variables. `text` maps an index from `textmemptr` to its 16-bit cell, `textmemptr` and
-- `tstop` are byte addresses, and `outs` holds the port writes so far, the last one first.
pub record Screen : Type 0 where
  pub textmemptr : ℕ
  pub text : ℕ → ℕ
  pub attrib : ℕ
  pub csr_x : ℕ
  pub csr_y : ℕ
  pub vga_locked : Bool
  pub tstop : ℕ
  pub outs : List (ℕ × ℕ)

abbrev pub u8 : ℕ → ℕ
u8 n = n % 2 ^ 8

abbrev pub u16 : ℕ → ℕ
u16 n = n % 2 ^ 16

-- `outb` of lib/libk/src/memory.c.
abbrev pub outb : (port value : ℕ) → Screen → Screen
outb port value s = record s { outs = (u16 port, u8 value) ∷ s.outs }

-- The cell of a character in the current colours.
abbrev pub cell : ℕ → Screen → ℕ
cell c s = u16 (bit_or (s.attrib * 2 ^ 8) c)

-- The index of the cell under the cursor.
abbrev pub cursor : Screen → ℕ
cursor s = s.csr_y * 80 + s.csr_x

-- `memcpy` moves `(25 - temp) * 80 * 2` bytes, so `(25 - temp) * 80` cells, towards the start.
unfoldable pub scroll : Screen → Screen
scroll s =
    let temp = s.csr_y - 25 + 1 in
    let rows = sub32 25 temp in
    if leb 25 s.csr_y
    then record s {
      text = memset (rows * 80) (cell 0x20 s) 80 (memcpy 0 (temp * 80) (rows * 80) s.text);
      csr_y = 24;
    }
    else s

-- The two halves of the position go to the registers 14 and 15.
unfoldable pub move_csr : Screen → Screen
move_csr s =
    let temp = u32 (cursor s) in
    outb 0x3D5 temp (outb 0x3D4 15 (outb 0x3D5 (temp / 2 ^ 8) (outb 0x3D4 14 s)))

unfoldable pub lock_vga : Screen → Screen
lock_vga s = record s { vga_locked = true }

unfoldable pub unlock_vga : Screen → Screen
unlock_vga s = record s { vga_locked = false }

-- The address of the cell at an index; a cell has two bytes.
abbrev pub cell_addr : ℕ → Screen → ℕ
cell_addr i s = u32 (s.textmemptr + 2 * i)

unfoldable pub tab_stop : Screen → Screen
tab_stop s = record s { tstop = cell_addr (cursor s) s }

-- The loop of `cls`: row `i` is blanked, for the `n` rows from there on.
unfoldable pub blank_rows : (n i blank : ℕ) → (ℕ → ℕ) → ℕ → ℕ
blank_rows ℕ.zero i blank text = text
blank_rows (ℕ.suc n) i blank text = blank_rows n (i + 1) blank (memset (i * 80) blank 80 text)

unfoldable pub cls : Screen → Screen
unfolding blank_rows
cls s = move_csr (record s { text = blank_rows 25 0 (cell 0x20 s) s.text; csr_x = 0; csr_y = 0 })

abbrev set_cell : ℕ → ℕ → Screen → Screen
set_cell i v s = record s { text = λ j. if i == j then v else s.text j }

-- The characters that only move the cursor, and the printable ones.
unfoldable pub put_plain : ℕ → Screen → Screen
put_plain c s =
    if c == 0x09
    then record s { csr_x = bit_and (s.csr_x + 8) 0xFFFFFFF8 }
    else if c == 0x0D
    then record s { csr_x = 0 }
    else if c == 0x0A
    then record s { csr_x = 0; csr_y = s.csr_y + 1 }
    else if leb 0x20 c
    then record (set_cell (cursor s) (cell c s) s) { csr_x = s.csr_x + 1 }
    else s

-- A backspace right of the tab stop.
unfoldable pub erase : Screen → Screen
erase s =
    let t = if s.csr_x == 0 then s else record s { csr_x = s.csr_x - 1 } in
    set_cell (cursor t) (cell 0x20 t) t

-- The end of `putch`: a full row wraps, the screen scrolls, and the hardware cursor follows.
unfoldable pub finish_char : Screen → Screen
finish_char s =
    let t = if leb 80 s.csr_x then record s { csr_x = 0; csr_y = s.csr_y + 1 } else s in
    move_csr (scroll t)

unfoldable pub putch : ℕ → Screen → Screen
unfolding put_plain erase finish_char
putch c s =
    if s.vga_locked
    then s
    else if c == 0x08
    then if leb (cell_addr (cursor s) s) s.tstop then s else finish_char (erase s)
    else finish_char (put_plain c s)

-- The list is the text up to its NUL.
unfoldable pub puts : List ℕ → Screen → Screen
puts [] s = s
puts (c ∷ text) s = puts text (putch c s)

unfoldable pub set_color : (forecolor backcolor : ℕ) → Screen → Screen
set_color forecolor backcolor s = record s {
  attrib = bit_or (backcolor * 2 ^ 4) (bit_and forecolor 0x0F);
}

unfoldable pub init_video : Screen → Screen
init_video s = cls (record s { textmemptr = 0xB8000 })
