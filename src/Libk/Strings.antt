-- ===== src/Libk/Strings.antt =====
-- `strlen`, `ssplit`, `sprintf` and `strdup` of lib/libk/src/string.c on memory as bytes. The fuel
-- bounds how far a NUL is looked for. `kmalloc` is the heap's answer to the call, by the size that
-- is asked for.
use night.Base.{
  ℕ, zero, suc, ◌+◌, update, List, [], ◌∷◌, ◌++◌, Option, none, some, ◌==◌, if◌then◌else◌, ◌>>=◌,
}
use night.Libk.Vsprintf.{Out, vsprintf}
use night.Libk.Memory.{memcpy}

-- `memcpy` to what `kmalloc` returned: a fault when it writes through NULL.
abbrev copy_to : (dest src n : ℕ) (mem : ℕ → ℕ) → Option (ℕ × (ℕ → ℕ))
copy_to dest src n mem =
    if dest == 0
    then if n == 0 then some (dest, mem) else none
    else some (dest, memcpy dest src n mem)

-- The loop of `strlen` at the address `str`, after `retval` characters.
unfoldable pub strlen_from : (fuel : ℕ) (mem : ℕ → ℕ) (str retval : ℕ) → Option ℕ
strlen_from zero mem str retval = none
strlen_from (suc fuel) mem str retval =
    let rest = strlen_from fuel mem (str + 1) (retval + 1) in
    if mem str == 0 then some retval else rest

unfoldable pub strlen : (fuel : ℕ) (mem : ℕ → ℕ) (str : ℕ) → Option ℕ
unfolding strlen_from
strlen fuel mem str = strlen_from fuel mem str 0

-- The loop of `ssplit` at the index `i`, with `n` characters left.
unfoldable pub split_at : (n i to_split src : ℕ) (mem : ℕ → ℕ) → Option ℕ
split_at zero i to_split src mem = none
split_at (suc n) i to_split src mem =
    let rest = split_at n (i + 1) to_split src mem in
    if mem (src + i) == to_split then some i else rest

-- The characters of a text at successive addresses.
unfoldable pub store_text : (buf : ℕ) → List ℕ → (ℕ → ℕ) → ℕ → ℕ
store_text buf [] mem = mem
store_text buf (c ∷ cs) mem = store_text (buf + 1) cs (update mem buf c)

-- The buffer is apart from what is read, and what %n stores is left in the result of `vsprintf`.
unfoldable pub sprintf :
    (args : ℕ → ℕ) (texts : ℕ → List ℕ) (buf : ℕ) (fmt : List ℕ) (mem : ℕ → ℕ)
    → Option (Out × (ℕ → ℕ))
unfolding store_text
sprintf args texts buf fmt mem = do
  o ← vsprintf args texts fmt
  some (o, store_text buf (o.text ++ 0 ∷ []) mem)

module _ (kmalloc : ℕ → ℕ) where
  -- The result and the memory; 0 is NULL. The source and the destination of `memcpy` are as in the
  -- code, which copies the fresh memory over `src`.
  unfoldable pub ssplit : (fuel to_split src : ℕ) (mem : ℕ → ℕ) → Option (ℕ × (ℕ → ℕ))
  unfolding strlen split_at
  ssplit fuel to_split src mem = do
    n ← strlen fuel mem src
    elim (split_at n 0 to_split src mem) [
      | none ↦ some (0, mem)
      | some i ↦
          if kmalloc i == 0
          then if i == 0 then some (0, mem) else none
          else some (kmalloc i, memcpy src (kmalloc i) i mem)
    ]

  -- The NUL is neither copied nor given room.
  unfoldable pub strdup : (fuel str : ℕ) (mem : ℕ → ℕ) → Option (ℕ × (ℕ → ℕ))
  unfolding strlen
  strdup fuel str mem = do n ← strlen fuel mem str; copy_to (kmalloc n) str n mem
