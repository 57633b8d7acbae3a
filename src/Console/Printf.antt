-- ===== src/Console/Printf.antt =====
-- lib/libk/src/printf.c. `online` is `p_online` of paging.c: with it the buffer comes from the heap,
-- and before that it is an array of 200 bytes. `kmalloc` is the heap's answer by the size asked for.
use night.Base.{
  ℕ, ◌+◌, Bool, false, Option, none, some, List, [], ◌∷◌, length, leb, ◌==◌, if◌then◌else◌, ◌>>=◌,
}
use night.Libk.Vsprintf.{vsprintf}
use night.Drivers.Screen.{Screen, puts}

-- What `puts` reads of a buffer.
unfoldable pub until_nul : List ℕ → List ℕ
until_nul [] = []
until_nul (c ∷ cs) = let rest = c ∷ until_nul cs in if c == 0 then [] else rest

abbrev pub buffer_size : (online : Bool) (fmt : List ℕ) → ℕ
buffer_size online fmt = if online then length fmt + 128 else 200

module _ (online : Bool) (kmalloc : ℕ → ℕ) where
  abbrev pub no_buffer : (fmt : List ℕ) → Bool
  no_buffer fmt = if online then kmalloc (length fmt + 128) == 0 else false

  -- `none` is a write through NULL or past the end of the buffer.
  unfoldable pub printf :
      (fmt : List ℕ) (args : ℕ → ℕ) (texts : ℕ → List ℕ) → Screen → Option Screen
  printf fmt args texts s = do
    o ← vsprintf args texts fmt
    if leb (length o.text + 1) (buffer_size online fmt)
        then if no_buffer fmt then none else some (puts (until_nul o.text) s)
        else none
