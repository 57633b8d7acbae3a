-- ===== src/Kernel/TextLaws.antt =====
-- The first line that kernel/src/kernel/kernel.c prints with `printf` fits its buffer.
use night.Base.{
  ap, false, ℕ, ◌+◌, ◌≤◌, ◌<◌, ◌≡◌, refl, true, Option, some, List, [], ◌∷◌, ◌++◌, length,
  length-append, leb, if◌then◌else◌, arith,
}
use night.Base.Text.{codes}
use night.Libk.VsprintfLaws.{Piece, itself, text, format_of, IsPlain, rendered}
use night.Libk.Vsprintf.{Out}
use night.Drivers.Screen.{puts}
use night.Console.Printf.{no_buffer}
use night.Console.PrintfLaws.{NoNul, NoNul-append, printf-format_of}
use night.Interrupts.FaultLaws.{chars}
use night.Kernel.Main.{Kernel, Platform, on_screen, print}

-- A text with no NUL, short enough for the first line of the kernel.
pub record IsShort (t : List ℕ) : Type 0 where
  pub no_nul : NoNul t
  pub short : length t ≤ 40

-- Only the screen has changed.
abbrev pub Printed : Kernel → Option Kernel → Type 0
Printed k o = (q : Kernel) × (o ≡ some (on_screen (λ s. q.machine.screen) k))

Printed-print :
    (pf : Platform) (ps : List Piece) (args : ℕ → ℕ) (texts : ℕ → List ℕ) (k : Kernel)
    → k.mmu.p_online ≡ false
    → IsPlain ps
    → let o = rendered args texts ps (record { text = []; next = 0; stores = [] }) in
      NoNul o.text → length o.text < 200 → Printed k (print pf (format_of ps) args texts k)
Printed-print pf ps args texts k offline plain clean fits =
    let o : Out = rendered args texts ps (record { text = []; next = 0; stores = [] }) in
    let heap : no_buffer k.mmu.p_online (pf.heap k.liballoc k.mmu.pmm) (format_of ps) ≡ false =
      ap (λ online. no_buffer online (pf.heap k.liballoc k.mmu.pmm) (format_of ps)) offline in
    let room : length o.text < (if k.mmu.p_online then length (format_of ps) + 128 else 200) =
      ground (arith, offline, fits) in
    (
      on_screen (puts o.text) k,
      rw
          (
            printf-format_of k.mmu.p_online (pf.heap k.liballoc k.mmu.pmm) ps args texts
                k.machine.screen plain heap clean room,
            offline,
          )
          refl,
    )

version_pieces : List Piece
version_pieces = chars "Night Kernel " ++ text ∷ itself 10 ∷ []

line_start : NoNul (codes "Night Kernel ")
line_start = omega arith

one_char : (c : ℕ) → leb 1 c ≡ true → NoNul (c ∷ [])
one_char c h = ((λ e. ground (arith, h, e)), tt)

-- Before paging is online, `printf` does not ask the heap.
pub version_line :
    (pf : Platform) (k : Kernel)
    → k.mmu.p_online ≡ false
    → IsShort pf.kernel_ver
    → Printed k (print pf (codes "Night Kernel %s\n") (λ i. i) (λ p. pf.kernel_ver) k)
unfolding format_of version_pieces rendered
version_line pf k offline ver =
    Printed-print pf version_pieces (λ i. i) (λ p. pf.kernel_ver) k offline (omega arith)
      (search (NoNul-append, line_start, one_char, ver.no_nul) depth 20)
      (simp (length-append) (omega (arith, ver.short)))
