-- ===== src/Tests/ScreenTests.antt =====
-- kernel/src/drivers/scrn.c at a screen that is full of the letter a.
use night.Base.{◌≡◌, refl, arith, [], ◌∷◌, ltb, if◌then◌else◌, false}
use night.Drivers.Screen.{Screen, putch, puts}
use night.Drivers.Typewriter.{Page, type_text, Shows}
use night.Drivers.TypeLaws.{puts-Shows}
use night.Drivers.BoundLaws.{puts-Inside}
use night.Drivers.ScreenLaws.{OnScreen, Announced, putch-OnScreen, putch-Announced}

abbrev full : Screen
full = record {
  textmemptr = 0xB8000;
  text = λ i. 0x0F61;
  attrib = 0x0F;
  csr_x = 3;
  csr_y = 24;
  vga_locked = false;
  tstop = 0;
  outs = [];
}

full-OnScreen : OnScreen full
full-OnScreen = record { column = omega arith; row = omega arith }

putch-OnScreen_example : OnScreen (putch 0x0A full)
putch-OnScreen_example = putch-OnScreen 0x0A full full-OnScreen

putch-Announced_example : Announced (putch 0x42 full) []
putch-Announced_example = putch-Announced 0x42 full refl full-OnScreen (λ e. omega (arith, e))

-- The page of the letters a, with blanks below.
abbrev letters : Page
letters = record { cells = λ i. if ltb i 2000 then 0x0F61 else 0x0F20; pos = 1923 }

full-Shows : Shows 0 letters full
full-Shows = record {
  unlocked = refl;
  column = omega arith;
  row = omega arith;
  pos = refl;
  window = λ i lt. ground (arith, lt);
  blank = λ i le. ground (arith, le);
}

puts-Shows_example :
    Shows 1 (type_text 0x0F (0x42 ∷ 0x0A ∷ 0x43 ∷ []) letters) (puts (0x42 ∷ 0x0A ∷ 0x43 ∷ []) full)
puts-Shows_example =
    puts-Shows (0x42 ∷ 0x0A ∷ 0x43 ∷ []) 0 letters full
      ((λ e. omega (arith, e)), ((λ e. omega (arith, e)), ((λ e. omega (arith, e)), tt))) full-Shows

puts-Inside_example : (puts (0x42 ∷ 0x08 ∷ 0x0A ∷ []) full).text 2000 ≡ 0x0F61
puts-Inside_example = puts-Inside (0x42 ∷ 0x08 ∷ 0x0A ∷ []) full 2000 full-OnScreen (omega arith)
