-- ===== src/Kernel/StarvedLaws.antt =====
-- `kmain` of kernel/src/kernel/kernel.c on a heap that gets its pages from kernel/src/mm/pmm.c.
use night.Base.{ℕ, ◌^◌, ◌<◌, ◌≡◌, refl, ap, ◌∙◌, true, none, List, ◌==◌, arith}
use night.Interrupts.Sleep.{Event}
use night.Pmm.State.{Pmm}
use night.Pmm.Boot.{Multiboot}
use night.Fs.Nodes.{Ptr, null, Node, Fs, make_file, init_fs}
use night.Kernel.Main.{Kernel, Platform, start, kmain}
use night.Kernel.TextLaws.{IsShort}
use night.Kernel.SetupLaws.{NoMemory, IsFresh, setup_lem}

init_fs-null :
    (node : ℕ → Ptr) (junk : ℕ → Node) (name : Ptr) (s : Fs)
    → node s.calls ≡ null
    → init_fs node junk name s ≡ none
unfolding init_fs make_file
init_fs-null node junk name s h =
    let test : (node s.calls == null) ≡ true = ground (arith, h) in rw test refl

-- From the variables as they are before the start, with stubs at addresses of 32 bits, a kernel end
-- that is not address 0 and a version text of at most 40 characters, `kmain` faults if the first
-- call of `kmalloc`, by a heap that has no page yet, returns NULL in every state of the page
-- allocator in which the hook gives no page: the state after `init_pmm` is one, and `init_fs`
-- writes through the result.
pub kmain_faults :
    (pf : Platform) (rounds fuel : ℕ) (name : List ℕ) (mb : Multiboot) (es : List Event)
    (k : Kernel)
    → ((i : ℕ) → pf.isr i < 2 ^ 32)
    → ((i : ℕ) → pf.irq i < 2 ^ 32)
    → IsShort pf.kernel_ver
    → IsFresh pf mb k
    → ((p : Pmm) → NoMemory p → pf.node k.liballoc p k.fs.calls ≡ null)
    → kmain pf rounds fuel name mb es k ≡ none
unfolding kmain start
kmain_faults pf rounds fuel name mb es k isr irq ver fresh contract =
    let (q, e, up) = setup_lem pf mb k isr irq ver fresh in
    let empty : pf.node q.liballoc q.mmu.pmm q.fs.calls ≡ null =
      ap (λ h. pf.node h q.mmu.pmm q.fs.calls) up.liballoc
      ∙ ap (λ (f : Fs). pf.node k.liballoc q.mmu.pmm f.calls) up.fs
      ∙ contract q.mmu.pmm up.starved in
    rw (e, init_fs-null (pf.node q.liballoc q.mmu.pmm) pf.junk pf.root_name q.fs empty) refl
