-- ===== src/Paging/Access.antt =====
-- Memory as kernel/src/mm/paging.c reaches it: the processor's walk through the page directory and
-- a page table. Tables have no large pages here, and a walk does not ask for the right to write,
-- which a kernel has with CR0.WP clear.
use night.Base.{ℕ, ◌/◌, ◌%◌, Bool, Option, none, some, List, ◌==◌, if◌then◌else◌, update, ◌>>=◌}
use night.Pmm.State.{Pmm}

-- A call that an error path makes, with its arguments. Paging only keeps that it is made: what
-- `printf` and `kpanic` do, to the screen, to the heap or by a fault, is in `carry_out` of
-- Kernel/Main.
pub data Call : Type 0 where
  printf : (fmt : List ℕ) (args : List ℕ) → Call
  kpanic : (message : List ℕ) → Call

-- `mem f i` is word `i` of the physical frame `f`, `cr3` the frame of the current directory, and
-- `enabled` CR0.PG. `invalidated` holds the operands of `invlpg` so far, and `calls` the
-- calls of the error paths, the last one first.
pub record Mmu : Type 0 where
  pub mem : ℕ → ℕ → ℕ
  pub enabled : Bool
  pub cr3 : ℕ
  pub pmm : Pmm
  pub invalidated : List ℕ
  pub calls : List Call
  pub p_online : Bool

-- Whether an entry has PAGE_PRESENT set, and the frame that it points to.
abbrev pub present : ℕ → Bool
present e = e % 2 == 1

abbrev pub entry_frame : ℕ → ℕ
entry_frame e = e / 4096

-- The frame of the virtual page `v`; `none` is a page fault.
unfoldable pub walk : (v : ℕ) → Mmu → Option ℕ
walk v m =
    let d = m.mem m.cr3 (v / 1024) in
    let e = m.mem (entry_frame d) (v % 1024) in
    if m.enabled
    then if present d then if present e then some (entry_frame e) else none else none
    else some v

-- The word at a virtual address.
unfoldable pub read_word : (addr : ℕ) → Mmu → Option ℕ
read_word addr m = walk (addr / 4096) m >>= λ f. some (m.mem f (addr % 4096 / 4))

abbrev pub put_word : (f i w : ℕ) → Mmu → Mmu
put_word f i w m = record m { mem = update m.mem f (update (m.mem f) i w) }

unfoldable pub write_word : (addr w : ℕ) → Mmu → Option Mmu
write_word addr w m = walk (addr / 4096) m >>= λ f. some (put_word f (addr % 4096 / 4) w m)

-- `memset(page, 0, 4096)` at an aligned address.
unfoldable pub clear_page : (addr : ℕ) → Mmu → Option Mmu
clear_page addr m = walk (addr / 4096) m >>= λ f. some (record m { mem = update m.mem f (λ i. 0) })
