-- ===== src/Drivers/TypeLaws.antt =====
-- `puts` of kernel/src/drivers/scrn.c against the typewriter.
use night.Base.{
  ℕ, ◌+◌, ◌*◌, ◌/◌, ◌≤◌, ◌<◌, ◌≡◌, ◌≢◌, ap, sym, ◌∙◌, true, false, List, [], ◌∷◌, leb, ◌==◌, arith,
  Bool-cases, inl, inr,
}
use mathlib.Core.Path.{subst}
use night.Drivers.Screen.{Screen, scroll, move_csr, put_plain, erase, finish_char, putch, puts}
use night.Drivers.ScreenLaws.{tab_column, scroll_text, scroll_cursor}
use night.Drivers.Typewriter.{Page, ink, advance, strike, type_text, top_for, Shows}

-- After a character the cursor may stand behind the end of its row, or below the last one.
record Stands (top : ℕ) (p : Page) (s : Screen) : Type 0 where
  unlocked : s.vga_locked ≡ false
  column : s.csr_x ≤ 80
  row : s.csr_y ≤ 25
  edge : s.csr_x ≡ 80 → s.csr_y < 25
  pos : p.pos ≡ (top + s.csr_y) * 80 + s.csr_x
  window : (i : ℕ) → i < 2000 → s.text i ≡ p.cells (top * 80 + i)
  blank : (i : ℕ) → (top + 25) * 80 ≤ i → p.cells i ≡ ink s.attrib 0x20

put_plain-Stands :
    (c top : ℕ) (p : Page) (s : Screen)
    → Shows top p s
    → Stands top (strike s.attrib c p) (put_plain c s)
unfolding put_plain
put_plain-Stands c top p s h = record {
  unlocked = ground (arith, h.unlocked);
  column = ground (arith, h.column, tab_column s.csr_x h.column);
  row = ground (arith, h.row);
  edge = λ e. ground (arith, h.row, h.column, e);
  pos = ground (arith, h.pos, h.column, tab_column s.csr_x h.column);
  window = λ i lt. ground (arith, h.pos, h.window i lt, h.row, h.column, lt);
  blank = λ i le. ground (arith, h.pos, h.blank i le, h.row, h.column, le);
}

scroll_rest : (s : Screen) → ((scroll s).vga_locked ≡ s.vga_locked) × ((scroll s).attrib ≡ s.attrib)
unfolding scroll
scroll_rest s = (ground arith, ground arith)

pub scroll_still : (s : Screen) → s.csr_y < 25 → scroll s ≡ s
unfolding scroll
scroll_still s h = ground (arith, h)

scroll-Shows :
    (top : ℕ) (p : Page) (s : Screen)
    → Stands top p s
    → s.csr_x < 80
    → Shows (top_for top p.pos) p (scroll s)
scroll-Shows top p s h hx = elim (Bool-cases (leb 25 s.csr_y)) [
  | inl y ↦
      let at : s.csr_y ≡ 25 = ground (arith, y, h.row) in
      let next : top_for top p.pos ≡ top + 1 = ground (arith, at, h.pos, hx) in
      rw next (record {
        unlocked = (scroll_rest s).0 ∙ h.unlocked;
        column = omega (arith, hx, (scroll_cursor s at).0);
        row = omega (arith, (scroll_cursor s at).1);
        pos = omega (arith, h.pos, at, scroll_cursor s at);
        window = λ i lt.
            ground (arith, scroll_text s i at, h.window (i + 80), h.blank (top * 80 + 80 + i));
        blank =
            λ i le. h.blank i (omega (arith, le)) ∙ ap (λ a. ink a 0x20) (sym (scroll_rest s).1);
      })
  | inr y ↦
      let low : s.csr_y < 25 = ground (arith, y) in
      let same : top_for top p.pos ≡ top = ground (arith, low, h.pos, hx) in
      rw (same, scroll_still s low)
        (record {
          unlocked = h.unlocked;
          column = hx;
          row = low;
          pos = h.pos;
          window = h.window;
          blank = h.blank;
        })
]

finish_char-Shows :
    (top : ℕ) (p : Page) (s : Screen) → Stands top p s → Shows (top_for top p.pos) p (finish_char s)
unfolding finish_char move_csr
finish_char-Shows top p s h = elim (Bool-cases (leb 80 s.csr_x)) [
  | inl y ↦ rw y (
      shown (record s { csr_x = 0; csr_y = s.csr_y + 1 })
        (record {
          unlocked = h.unlocked;
          column = omega arith;
          row = omega (arith, h.edge (ground (arith, y, h.column)));
          edge = λ e. absurd (omega (arith, e));
          pos = omega (arith, h.pos, edge y);
          window = h.window;
          blank = h.blank;
        })
        (omega arith))
  | inr y ↦ rw y (shown s h (ground (arith, y)))
]
  where
    edge : leb 80 s.csr_x ≡ true → s.csr_x ≡ 80
    edge y = ground (arith, y, h.column)

    shown :
        (t : Screen)
        → Stands top p t
        → t.csr_x < 80
        → Shows (top_for top p.pos) p (move_csr (scroll t))
    shown t st hx =
        let sh = scroll-Shows top p t st hx in
        record {
          unlocked = sh.unlocked;
          column = sh.column;
          row = sh.row;
          pos = sh.pos;
          window = sh.window;
          blank = sh.blank;
        }

putch-attrib : (c : ℕ) (s : Screen) → (putch c s).attrib ≡ s.attrib
unfolding putch finish_char put_plain erase scroll move_csr
putch-attrib c s = ground arith

putch-Shows :
    (c top : ℕ) (p : Page) (s : Screen)
    → c ≢ 0x08
    → Shows top p s
    → let p' = strike s.attrib c p in Shows (top_for top p'.pos) p' (putch c s)
unfolding putch
putch-Shows c top p s ne h =
    let other : (c == 0x08) ≡ false = ground (arith, ne) in
    let step : putch c s ≡ finish_char (put_plain c s) = ground (arith, h.unlocked, other) in
    let p' = strike s.attrib c p in
    subst (Shows (top_for top p'.pos) p') (sym step)
      (finish_char-Shows top p' (put_plain c s) (put_plain-Stands c top p s h))

advance-row : (c pos : ℕ) → pos / 80 ≤ advance c pos / 80
advance-row c pos = ground arith

top_for-top_for : (top m n : ℕ) → m / 80 ≤ n / 80 → top_for (top_for top m) n ≡ top_for top n
top_for-top_for top m n h = ground (arith, h)

abbrev NoBackspace : List ℕ → Type 0
NoBackspace [] = Unit {0}
NoBackspace (c ∷ text) = (c ≢ 0x08) × NoBackspace text

type_text-row :
    (attrib : ℕ) (text : List ℕ) (p : Page) → p.pos / 80 ≤ (type_text attrib text p).pos / 80
type_text-row attrib [] p = omega arith
type_text-row attrib (c ∷ text) p =
    omega (arith, advance-row c p.pos, type_text-row attrib text (strike attrib c p))

-- Where the screen shows a page in its colours through a window of 25 rows, and is not locked,
-- `puts` of a text without backspaces shows the page as the typewriter leaves it: each printable
-- character in the next cell, in the current colours, with a full row going on in the next one. The
-- window moves down just as far as the row of the cursor needs.
pub puts-Shows :
    (text : List ℕ) (top : ℕ) (p : Page) (s : Screen)
    → NoBackspace text
    → Shows top p s
    → let p' = type_text s.attrib text p in Shows (top_for top p'.pos) p' (puts text s)
unfolding puts
puts-Shows [] top p s plain h =
    let still : top_for top p.pos ≡ top = ground (arith, h.pos, h.row, h.column) in rw still h
puts-Shows (c ∷ text) top p s (ne, plain) h =
    let q = strike s.attrib c p in
    let next = top_for top q.pos in
    let rest = type_text s.attrib text q in
    let all =
      subst
        (λ a.
          Shows (top_for next (type_text a text q).pos) (type_text a text q)
            (puts text (putch c s)))
        (putch-attrib c s)
        (puts-Shows text next q (putch c s) plain (putch-Shows c top p s ne h)) in
    subst (λ k. Shows k rest (puts text (putch c s)))
      (top_for-top_for top q.pos rest.pos (type_text-row s.attrib text q)) all
