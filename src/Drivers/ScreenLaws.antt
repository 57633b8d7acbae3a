-- ===== src/Drivers/ScreenLaws.antt =====
-- What kernel/src/drivers/scrn.c keeps and shows.
use night.Base.{
  ℕ, zero, suc, ◌+◌, ◌-◌, ◌*◌, ◌/◌, ◌%◌, ◌^◌, ◌≤◌, ◌<◌, ◌≡◌, ◌≢◌, refl, ap, sym, bit_and, false,
  List, [], ◌∷◌, ltb, leb, ◌==◌, if◌then◌else◌, arith, Bool-cases, inl, inr,
}
use mathlib.Core.Path.{subst}
use night.Base.Masks.{bit_and-low, bit_and-high}
use night.Libk.Arith.{sub32}
use night.Libk.Memory.{memcpy, memset, memcpy_down, memset_lem, within}
use night.Drivers.Screen.{
  Screen, cell, cursor, scroll, move_csr, blank_rows, cls, put_plain, erase, finish_char, putch,
  puts, init_video,
}

-- The cursor is on the screen.
pub record OnScreen (s : Screen) : Type 0 where
  pub column : s.csr_x < 80
  pub row : s.csr_y < 25

-- `(x + 8) & ~7` is the next tab stop.
pub tab_column : (x : ℕ) → x < 80 → bit_and (x + 8) 0xFFFFFFF8 ≡ (x + 8) / 8 * 8
tab_column x h =
    omega (arith, bit_and-high 3 (x + 8) (2 ^ 29 - 1), bit_and-low 29 ((x + 8) / 2 ^ 3))

scroll-OnScreen : (s : Screen) → s.csr_x < 80 → s.csr_y ≤ 25 → OnScreen (scroll s)
unfolding scroll
scroll-OnScreen s hx hy = ground arith

move_csr-OnScreen : (s : Screen) → OnScreen s → OnScreen (move_csr s)
unfolding move_csr
move_csr-OnScreen s h = record { column = h.column; row = h.row }

finish_char-OnScreen :
    (s : Screen)
    → s.csr_x ≤ 80
    → s.csr_y ≤ 24 + 1
    → (s.csr_x ≡ 80 → s.csr_y < 25)
    → OnScreen (finish_char s)
unfolding finish_char
finish_char-OnScreen s hx hy edge = elim (Bool-cases (leb 80 s.csr_x)) [
  | inl y ↦ rw y (
      move_csr-OnScreen _ (
        scroll-OnScreen (record s { csr_x = 0; csr_y = s.csr_y + 1 }) (omega arith)
          (omega (arith, edge (ground arith)))))
  | inr y ↦ rw y (move_csr-OnScreen _ (scroll-OnScreen s (ground arith) (omega arith)))
]

pub put_plain_bounds :
    (c : ℕ) (s : Screen)
    → OnScreen s
    → let t = put_plain c s in (t.csr_x ≤ 80) × (t.csr_y ≤ 24 + 1) × (t.csr_x ≡ 80 → t.csr_y < 25)
unfolding put_plain
put_plain_bounds c s h = ground (arith, tab_column s.csr_x)

pub erase_bounds :
    (s : Screen)
    → OnScreen s
    → let t = erase s in (t.csr_x ≤ 80) × (t.csr_y ≤ 24 + 1) × (t.csr_x ≡ 80 → t.csr_y < 25)
unfolding erase
erase_bounds s h = ground arith

-- `putch` keeps the cursor on the screen, whatever the character.
pub putch-OnScreen : (c : ℕ) (s : Screen) → OnScreen s → OnScreen (putch c s)
unfolding putch
putch-OnScreen c s h =
    let plain = put_plain_bounds c s h in
    let back = erase_bounds s h in
    ground (
      arith,
      finish_char-OnScreen (put_plain c s) plain.0 plain.1 plain.2,
      finish_char-OnScreen (erase s) back.0 back.1 back.2,
    )

-- `puts` keeps the cursor on the screen, for any text.
pub puts-OnScreen : (text : List ℕ) (s : Screen) → OnScreen s → OnScreen (puts text s)
unfolding puts
puts-OnScreen [] s h = h
puts-OnScreen (c ∷ text) s h = puts-OnScreen text (putch c s) (putch-OnScreen c s h)

-- `init_video` puts the cursor on the screen from any state.
pub init_video-OnScreen : (s : Screen) → OnScreen (init_video s)
unfolding init_video cls move_csr
init_video-OnScreen s = omega arith

blank_rows_lem :
    (n k blank : ℕ) (text : ℕ → ℕ) (i : ℕ)
    → blank_rows n k blank text i ≡ (if within (k * 80) (n * 80) i then blank else text i)
unfolding blank_rows
blank_rows_lem zero k blank text i = ground arith
blank_rows_lem (suc n) k blank text i = ground (
  arith,
  blank_rows_lem n (k + 1) blank (memset (k * 80) blank 80 text) i,
  memset_lem (k * 80) blank 80 text i,
)

-- `cls` writes a blank in the current colours to each of the 2000 cells of the screen, and to no
-- other, and brings the cursor home.
cls_lem :
    (s : Screen)
    → ((i : ℕ) → (cls s).text i ≡ (if ltb i 2000 then cell 0x20 s else s.text i))
      × ((cls s).csr_x ≡ 0)
      × ((cls s).csr_y ≡ 0)
unfolding cls move_csr
cls_lem s = (λ i. ground (arith, blank_rows_lem 25 0 (cell 0x20 s) s.text i), refl, refl)

-- A scroll from row 25: every row moves up by one, and the last one is blank.
pub scroll_text :
    (s : Screen) (i : ℕ)
    → s.csr_y ≡ 25
    → (scroll s).text i
      ≡ (if ltb i 1920 then s.text (i + 80) else if ltb i 2000 then cell 0x20 s else s.text i)
unfolding scroll
scroll_text s i h =
    let temp = s.csr_y - 25 + 1 in
    let rows = sub32 25 temp in
    ground (
      arith,
      memset_lem (rows * 80) (cell 0x20 s) 80 (memcpy 0 (temp * 80) (rows * 80) s.text) i,
      memcpy_down 0 (temp * 80) (rows * 80) s.text i (omega arith),
      ap s.text (moved temp),
    )
  where
    moved : (temp : ℕ) → temp * 80 + (i - 0) ≡ i + temp * 80
    moved temp = omega arith

pub scroll_cursor :
    (s : Screen) → s.csr_y ≡ 25 → ((scroll s).csr_x ≡ s.csr_x) × ((scroll s).csr_y ≡ 24)
unfolding scroll
scroll_cursor s h = ground arith

-- A newline in the last row moves every row up by one, leaves a blank last row in the current
-- colours, writes outside the screen nowhere, and puts the cursor at the start of the last row.
newline_scrolls :
    (s : Screen)
    → s.vga_locked ≡ false
    → s.csr_y ≡ 24
    → let t = putch 0x0A s in
      ((i : ℕ)
        → t.text i
          ≡ (if ltb i 1920 then s.text (i + 80) else if ltb i 2000 then cell 0x20 s else s.text i))
      × (t.csr_x ≡ 0)
      × (t.csr_y ≡ 24)
unfolding putch move_csr
newline_scrolls s unlocked h =
    let below : Screen = record s { csr_x = 0; csr_y = s.csr_y + 1 } in
    (
      λ i. ground (arith, scroll_text below i),
      ground (arith, scroll_cursor below),
      ground (arith, scroll_cursor below),
    )

-- A printable character left of the last column goes to the cell under the cursor, in the current
-- colours; no other cell changes, and the cursor moves right by one.
printable_shown :
    (c : ℕ) (s : Screen)
    → s.vga_locked ≡ false
    → OnScreen s
    → 0x20 ≤ c
    → s.csr_x < 79
    → let t = putch c s in
      ((i : ℕ) → t.text i ≡ (if cursor s == i then cell c s else s.text i))
      × (t.csr_x ≡ s.csr_x + 1)
      × (t.csr_y ≡ s.csr_y)
unfolding putch scroll move_csr
printable_shown c s unlocked h hc hx = (λ i. ground arith, ground arith, ground arith)

-- What `move_csr` tells the hardware.
abbrev pub Announced : Screen → List (ℕ × ℕ) → Type 0
Announced t before =
    (hi : ℕ) × (lo : ℕ) × (t.outs ≡ (0x3D5, lo) ∷ (0x3D4, 15) ∷ (0x3D5, hi) ∷ (0x3D4, 14) ∷ before)
    × (hi * 256 + lo ≡ cursor t)

move_csr-Announced :
    (s : Screen) (before : List (ℕ × ℕ))
    → s.outs ≡ before
    → OnScreen s
    → Announced (move_csr s) before
unfolding move_csr
move_csr-Announced s before e h = (cursor s / 256, cursor s % 256, ground arith, omega arith)

scroll-outs : (s : Screen) → (scroll s).outs ≡ s.outs
unfolding scroll
scroll-outs s = ground arith

finish_char-Announced :
    (s : Screen)
    → s.csr_x ≤ 80
    → s.csr_y ≤ 24 + 1
    → (s.csr_x ≡ 80 → s.csr_y < 25)
    → Announced (finish_char s) s.outs
unfolding finish_char
finish_char-Announced s hx hy edge = elim (Bool-cases (leb 80 s.csr_x)) [
  | inl y ↦
      let t : Screen = record s { csr_x = 0; csr_y = s.csr_y + 1 } in
      rw y (
        move_csr-Announced (scroll t) s.outs (scroll-outs t)
          (scroll-OnScreen t (omega arith) (omega (arith, edge (ground arith)))))
  | inr y ↦ rw y (
      move_csr-Announced (scroll s) s.outs (scroll-outs s)
        (scroll-OnScreen s (ground arith) (omega arith)))
]

put_plain-outs : (c : ℕ) (s : Screen) → (put_plain c s).outs ≡ s.outs
unfolding put_plain
put_plain-outs c s = ground arith

-- On an unlocked screen with the cursor on it, `putch` of any character but a backspace ends by
-- sending the hardware the position of the cursor that it leaves, in four port writes and no others.
pub putch-Announced :
    (c : ℕ) (s : Screen)
    → s.vga_locked ≡ false
    → OnScreen s
    → c ≢ 0x08
    → Announced (putch c s) s.outs
unfolding putch
putch-Announced c s unlocked h ne =
    let plain = put_plain_bounds c s h in
    let other : (c == 0x08) ≡ false = ground arith in
    let step : putch c s ≡ finish_char (put_plain c s) = ground arith in
    subst (λ t. Announced t s.outs) (sym step)
      (subst (Announced (finish_char (put_plain c s))) (put_plain-outs c s)
        (finish_char-Announced (put_plain c s) plain.0 plain.1 plain.2))
