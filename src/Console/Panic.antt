-- ===== src/Console/Panic.antt =====
-- lib/libk/src/panic.c: `kpanic` shows a message and returns.
use Prim.Native.String.{String}
use night.Base.{ℕ, zero, suc, List}
use night.Base.Text.{codes}
use night.Drivers.Screen.{Screen, u8, cls, putch, puts, set_color}

abbrev pub vga_color_black : ℕ
vga_color_black = 0

abbrev pub vga_color_blue : ℕ
vga_color_blue = 1

abbrev pub vga_color_red : ℕ
vga_color_red = 4

abbrev pub vga_color_white : ℕ
vga_color_white = 15

abbrev put_line : String → Screen → Screen
put_line t s = puts (codes t) s

-- `print_buf`, which nothing calls, with `n` rounds left: the address of its text "-" is passed
-- where a character is taken.
unfoldable print_buf_from : (n dash : ℕ) → Screen → Screen
print_buf_from zero dash s = s
print_buf_from (suc n) dash s = print_buf_from n dash (putch (u8 dash) s)

unfoldable print_buf : (dash : ℕ) → Screen → Screen
unfolding print_buf_from
print_buf dash s = print_buf_from 80 dash s

unfoldable pub kpanic_reason : (message : List ℕ) → Screen → Screen
kpanic_reason message s =
    let a = put_line "Unfortunately an error has occured. :-(\n" (cls s) in
    let b = set_color vga_color_red vga_color_black (put_line "Reason: " a) in
    set_color vga_color_white vga_color_black (puts message b)

unfoldable pub kpanic : (message : List ℕ) → Screen → Screen
unfolding kpanic_reason
kpanic message s =
    let a =
      put_line "\n\nIf this continues, file an issue on Github.\nUrl:" (kpanic_reason message s) in
    let b = set_color vga_color_blue vga_color_black a in
    set_color vga_color_white vga_color_black
      (put_line " https://github.com/Peeled-Fruit-Studios/Night\n" b)
