-- ===== src/Kernel/Files.antt =====
-- `fs_read` of kernel/src/fs/fs.c and `fs_write`, with the operations of kernel/src/fs/tar/tar.c
-- that they call, on the state of the whole kernel: `tar_read` prints.
use night.Base.{ℕ, Option, none, some, ◌>>=◌}
use night.Base.Text.{codes}
use night.Drivers.Screen.{puts}
use night.Fs.Nodes.{Node, FileOp, tar_read, tar_write, fs_read, fs_write}
use night.Fs.Tar.{tar_read_file, tar_write_file}
use night.Kernel.Main.{Kernel, on_screen}

unfoldable pub call_tar_read : (length buffer : ℕ) → Node → Kernel → Option (ℕ × Kernel)
call_tar_read length buffer nd k =
    let a = on_screen (puts (codes "I was Called!\n")) k in
    tar_read_file length buffer nd a.fs >>= λ r. some (r.0, record a { fs = r.1 })

-- The call of the operation that was chosen; without one the result is 0.
unfoldable pub call_operation :
    (op : Option FileOp) (length buffer : ℕ) → Node → Kernel → Option (ℕ × Kernel)
unfolding call_tar_read
call_operation none length buffer nd k = some (0, k)
call_operation (some tar_read) length buffer nd k = call_tar_read length buffer nd k
call_operation (some tar_write) length buffer nd k =
    let r = tar_write_file length buffer nd k.fs in some (r.0, record k { fs = r.1 })

unfoldable pub call_fs_read : (length buffer : ℕ) → Node → Kernel → Option (ℕ × Kernel)
unfolding call_operation
call_fs_read length buffer nd k = call_operation (fs_read nd) length buffer nd k

unfoldable pub call_fs_write : (length buffer : ℕ) → Node → Kernel → Option (ℕ × Kernel)
unfolding call_operation
call_fs_write length buffer nd k = call_operation (fs_write nd) length buffer nd k
