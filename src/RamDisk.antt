-- ===== src/RamDisk.antt =====
-- kernel/ramdisk.c and include/os/ramdisk.h: the files of the ram disk.
-- The headers of files are records whose name is the address of a string in memory. kmalloc and
-- memcpy are parameters: whether the first gives memory, and what the second leaves. A file that
-- is NULL, of which ramdisk_read reads a field before it tests it, is not modelled.
mod Examples
pub mod Files
use mathlib.Core.Option
use mirros.Base.{ℕ, zero, suc, ◌+◌, Bool, true, false, Option, none, some, ◌==◌, ltb, if◌then◌else◌}
use mirros.Base.Int.{ℤ, pos, is_zero}
use mirros.Base.Words.{u32, sub32}
use mirros.Text.{Memory, strcmp}

-- `struct file_header`
pub record FileHeader : Type 0 where
  pub name : ℕ
  pub base : ℕ
  pub size : ℕ

-- `struct file`
pub record File : Type 0 where
  pub base : ℕ
  pub size : ℕ
  pub curr : ℕ

-- The globals after mount_ramdisk: the start of the image, the number of its files, and the table
-- of their headers.
pub record RamDisk : Type 0 where
  pub start : ℕ
  pub file_count : ℕ
  pub files : ℕ → FileHeader

-- Whether `mount_ramdisk` finds a disk at `start`, where the name of its header stands, given the
-- address of the literal "ramdisk"; `none` when the fuel of strcmp runs out. It returns `start`.
unfoldable pub mount_ramdisk : ℕ → Memory → ℕ → ℕ → Option Bool
mount_ramdisk fuel mem start literal =
    if start == 0 then some false else Option.map is_zero (strcmp fuel mem start literal)

-- The pointer that `ramdisk_close` gives to kfree, if any.
abbrev pub ramdisk_close : ℕ → Option ℕ
ramdisk_close file = if file == 0 then some file else none

-- The number of bytes that `ramdisk_read` copies; the size is not negative. The difference of two
-- addresses is negative as an int from 2^31 on.
unfoldable pub copy_size : File → ℕ → ℕ
copy_size file size =
    let end = u32 (file.base + file.size) in
    let rest = sub32 end file.curr in
    if ltb end (u32 (file.curr + size)) then (if ltb rest 2147483648 then rest else 0) else size

unfoldable pub ramdisk_read :
    (Memory → ℕ → ℕ → ℕ → Memory) → Memory → File → ℕ → ℕ → Memory × File × ℕ
unfolding copy_size
ramdisk_read memcpy mem file buf size =
    let n = copy_size file size in
    (memcpy mem buf file.curr n, record file { curr = u32 (file.curr + n) }, n)

unfoldable pub ramdisk_seek : File → ℕ → File
ramdisk_seek file offset =
    if ltb file.size offset
    then record file { curr = u32 (file.base + file.size) }
    else record file { curr = u32 (file.base + offset) }

abbrev pub opened : RamDisk → FileHeader → File
opened disk header =
    let base = u32 (disk.start + header.base) in
    record { base = base; size = header.size; curr = base }

-- The loop of `ramdisk_open` from file `i` on, with the files left; the inner option is NULL or a
-- file.
unfoldable pub open_from : ℕ → Bool → Memory → RamDisk → ℕ → ℕ → ℕ → Option (Option File)
open_from fuel allocated mem disk name zero i = some none
open_from fuel allocated mem disk name (suc k) i =
    let rest = open_from fuel allocated mem disk name k (i + 1) in
    elim (strcmp fuel mem name (disk.files i).name) [
      | none ↦ none
      | some r ↦
          if is_zero r
          then some (if allocated then some (opened disk (disk.files i)) else none)
          else rest
    ]

unfoldable pub ramdisk_open : ℕ → Bool → Memory → RamDisk → ℕ → Option (Option File)
unfolding open_from
ramdisk_open fuel allocated mem disk name = open_from fuel allocated mem disk name disk.file_count 0
