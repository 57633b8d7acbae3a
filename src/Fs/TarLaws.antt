-- ===== src/Fs/TarLaws.antt =====
-- What kernel/src/fs/tar/tar.c reads off an archive: the sizes of its headers, and where they stand.
use night.Base.{ℕ, zero, suc, ◌+◌, ◌-◌, ◌*◌, ◌/◌, ◌%◌, ◌^◌, ◌≤◌, ◌<◌, ◌≡◌, ap, sym, ◌∙◌, arith}
use native.Mathlib.Nat.{div-div-eq-div-mul, pow-suc}
use night.Libk.Arith.{u32, divide_up}
use night.Fs.Tar.{oct2bin_from, oct2bin, next_header}

-- `size` octal digits of `v`, the highest first, stand as text at `str`.
abbrev pub ShowsOctal : (mem : ℕ → ℕ) (str size v : ℕ) → Type 0
ShowsOctal mem str zero v = Unit {0}
ShowsOctal mem str (suc size) v =
    (mem str ≡ b'0' + v / 8 ^ size % 8) × ShowsOctal mem (str + 1) size v

octal_step : (v size : ℕ) → v / 8 ^ suc size * 8 + v / 8 ^ size % 8 ≡ v / 8 ^ size
octal_step v size =
    let e : v / 8 ^ suc size ≡ v / 8 ^ size / 8 =
      ap (λ t. v / t) (pow-suc 8 size) ∙ sym (div-div-eq-div-mul v (8 ^ size) 8) in
    omega (arith, e)

oct2bin_from-shown :
    (mem : ℕ → ℕ) (str size v : ℕ)
    → v < 2 ^ 32
    → ShowsOctal mem str size v
    → oct2bin_from (v / 8 ^ size) mem str size ≡ v
unfolding oct2bin_from
oct2bin_from-shown mem str zero v small shown = omega arith
oct2bin_from-shown mem str (suc size) v small shown =
    let le : v / 8 ^ size ≤ v = omega arith in
    let step : u32 (u32 (v / 8 ^ suc size * 8) + 2 ^ 32 + mem str - b'0') ≡ v / 8 ^ size =
      omega (arith, octal_step v size, shown.0, small, le) in
    ap (λ t. oct2bin_from t mem (str + 1) size) step
    ∙ oct2bin_from-shown mem (str + 1) size v small shown.1

-- A size below 2^32 that a header shows in octal, in 11 digits, is read back.
pub oct2bin_lem :
    (mem : ℕ → ℕ) (str v : ℕ) → v < 2 ^ 32 → ShowsOctal mem str 11 v → oct2bin mem str 11 ≡ v
unfolding oct2bin
oct2bin_lem mem str v small shown =
    let e : v / 8 ^ 11 ≡ 0 = omega arith in
    ap (λ t. oct2bin_from t mem str 11) (sym e) ∙ oct2bin_from-shown mem str 11 v small shown

-- The next header stands behind the header's own sector and as many sectors as the file needs.
pub next_header_lem :
    (address size : ℕ)
    → address + size + 1024 < 2 ^ 32
    → next_header address size ≡ address + 512 + divide_up size 512 * 512
unfolding next_header divide_up
next_header_lem address size h = ground arith
