-- ===== src/Drivers/BoundLaws.antt =====
-- kernel/src/drivers/scrn.c writes inside the text memory of the screen only: 25 rows of 80 cells.
use night.Base.{
  ℕ, ◌+◌, ◌≤◌, ◌<◌, ◌≡◌, refl, ap, ◌∙◌, List, [], ◌∷◌, leb, arith, Bool-cases, inl, inr,
}
use night.Drivers.Screen.{Screen, scroll, move_csr, put_plain, erase, finish_char, putch, puts}
use night.Drivers.ScreenLaws.{OnScreen, scroll_text, putch-OnScreen, put_plain_bounds, erase_bounds}
use night.Drivers.TypeLaws.{scroll_still}

abbrev pub Inside : Screen → Screen → Type 0
Inside s t = (i : ℕ) → 2000 ≤ i → t.text i ≡ s.text i

scroll-Inside : (s : Screen) → s.csr_y ≤ 25 → Inside s (scroll s)
scroll-Inside s h i le = elim (Bool-cases (leb 25 s.csr_y)) [
  | inl y ↦ let at : s.csr_y ≡ 25 = ground (arith, y, h) in scroll_text s i at ∙ ground (arith, le)
  | inr y ↦ ap (λ t. t.text i) (scroll_still s (ground (arith, y)))
]

finish_char-Inside :
    (s : Screen)
    → s.csr_x ≤ 80
    → s.csr_y ≤ 24 + 1
    → (s.csr_x ≡ 80 → s.csr_y < 25)
    → Inside s (finish_char s)
unfolding finish_char move_csr
finish_char-Inside s hx hy edge i le = elim (Bool-cases (leb 80 s.csr_x)) [
  | inl y ↦
      let at : s.csr_x ≡ 80 = ground (arith, y, hx) in
      rw y
        (scroll-Inside (record s { csr_x = 0; csr_y = s.csr_y + 1 }) (omega (arith, edge at)) i le)
  | inr y ↦ rw y (scroll-Inside s (omega (arith, hy)) i le)
]

put_plain-Inside : (c : ℕ) (s : Screen) → OnScreen s → Inside s (put_plain c s)
unfolding put_plain
put_plain-Inside c s h i le = ground (arith, h.column, h.row, le)

erase-Inside : (s : Screen) → OnScreen s → Inside s (erase s)
unfolding erase
erase-Inside s h i le = ground (arith, h.column, h.row, le)

putch-Inside : (c : ℕ) (s : Screen) → OnScreen s → Inside s (putch c s)
unfolding putch
putch-Inside c s h i le =
    let (px, py, pe) = put_plain_bounds c s h in
    let (ex, ey, ee) = erase_bounds s h in
    let plain = finish_char-Inside (put_plain c s) px py pe i le ∙ put_plain-Inside c s h i le in
    let back = finish_char-Inside (erase s) ex ey ee i le ∙ erase-Inside s h i le in
    ground (arith, plain, back)

-- With the cursor on the screen, `puts` of any text, backspaces and tabs included, leaves every cell
-- but the 2000 of the screen as it was.
pub puts-Inside :
    (text : List ℕ) (s : Screen) (i : ℕ) → OnScreen s → 2000 ≤ i → (puts text s).text i ≡ s.text i
unfolding puts
puts-Inside [] s i h le = refl
puts-Inside (c ∷ text) s i h le =
    puts-Inside text (putch c s) i (putch-OnScreen c s h) le ∙ putch-Inside c s h i le
