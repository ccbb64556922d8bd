-- ===== src/Fs.antt =====
-- esp8266/app/fs.c: the pages and sectors of the file system's flash, and the lines of a file. The
-- SDK's `spi_flash_read`, `spi_flash_write` and `spi_flash_erase_sector` and the functions of
-- littlefs are parameters. Addresses stay far below 2 ^ 31.
pub mod Pages
pub mod Erase
pub mod Lines
pub mod Files
mod Tests
use esp8266_xcode.Base.{
  ℕ, zero, suc, ◌+◌, ◌-◌, ◌*◌, ◌/◌, List, [], ◌∷◌, ◌++◌, Option, none, some, Bool, true, false,
  ◌==◌, ◌||◌, ltb, leb, if◌then◌else◌, length, take, drop,
}

-- PHYS_BEGIN - IROM_ADDR, PHYS_SIZE, PHYS_PAGE, PHYS_BLOCK and SPI_FLASH_SEC_SIZE.
abbrev pub phys_addr : ℕ
phys_addr = 0x200000

abbrev pub phys_size : ℕ
phys_size = 0x1fa000

abbrev pub phys_page : ℕ
phys_page = 0x100

abbrev pub phys_block : ℕ
phys_block = 0x2000

abbrev pub sec_size : ℕ
sec_size = 0x1000

abbrev pub block_count : ℕ
block_count = phys_size / phys_block

-- `os_memcpy` to the start of `dst`.
abbrev pub copy_to : List ℕ → List ℕ → List ℕ
copy_to dst bytes = bytes ++ drop (length bytes) dst

abbrev pub page_length : ℕ → ℕ
page_length size = if ltb size phys_page then size else phys_page

abbrev pub aligned : ℕ → ℕ
aligned n = (n + 3) / 4 * 4

-- The result, and what is in `dst` afterwards. `read` gives the bytes at an address, or an error.
-- The fuel is the size: each round takes at least one byte off it.
unfoldable pub read_loop : ℕ → (ℕ → ℕ → Option (List ℕ)) → ℕ → ℕ → List ℕ → Bool × List ℕ
read_loop zero read addr size dst = (true, dst)
read_loop (suc fuel) read addr size dst =
    if size == 0 then (true, dst) else elim (read addr (aligned (page_length size))) [
      | none ↦ (false, dst)
      | some buffer ↦
          read_loop fuel read (addr + page_length size) (size - page_length size)
            (copy_to dst (take (page_length size) buffer))
    ]

unfoldable pub fs_hal_read : (ℕ → ℕ → Option (List ℕ)) → ℕ → ℕ → List ℕ → Bool × List ℕ
fs_hal_read read addr size dst = read_loop size read addr size dst

-- The result, and the writes, each with its address. `write` says whether a write succeeds;
-- `buffer` is the array on the stack, which holds anything at first.
unfoldable pub write_loop :
    ℕ → (ℕ → List ℕ → Bool) → ℕ → ℕ → List ℕ → List ℕ → Bool × List (ℕ × List ℕ)
write_loop zero write addr size src buffer = (true, [])
write_loop (suc fuel) write addr size src buffer =
    let n = page_length size in
    let buffer' = copy_to buffer (take n src) in
    let page = take (aligned n) buffer' in
    let (ok, writes) = write_loop fuel write (addr + n) (size - n) src buffer' in
    if size == 0
    then (true, [])
    else if write addr page
    then (ok, (addr, page) ∷ writes)
    else (false, (addr, page) ∷ [])

unfoldable pub fs_hal_write :
    (ℕ → List ℕ → Bool) → ℕ → ℕ → List ℕ → List ℕ → Bool × List (ℕ × List ℕ)
fs_hal_write write addr size src buffer = write_loop size write addr size src buffer

-- `count` rounds from the sector on: the result, and the sectors that are erased.
unfoldable pub erase_loop : (ℕ → Bool) → ℕ → ℕ → Bool × List ℕ
erase_loop erase sector zero = (true, [])
erase_loop erase sector (suc count) =
    let (ok, sectors) = erase_loop erase (sector + 1) count in
    if erase sector then (ok, sector ∷ sectors) else (false, [])

unfoldable pub fs_hal_erase : (ℕ → Bool) → ℕ → ℕ → Bool × List ℕ
fs_hal_erase erase addr size = erase_loop erase (addr / sec_size) (size / sec_size)

unfoldable pub lfs_flash_read : (ℕ → ℕ → Option (List ℕ)) → ℕ → ℕ → List ℕ → ℕ → Bool × List ℕ
lfs_flash_read read block off dst size =
    fs_hal_read read (phys_addr + block * phys_block + off) size dst

unfoldable pub lfs_flash_prog :
    (ℕ → List ℕ → Bool) → ℕ → ℕ → List ℕ → ℕ → List ℕ → Bool × List (ℕ × List ℕ)
lfs_flash_prog write block off src size buffer =
    fs_hal_write write (phys_addr + block * phys_block + off) size src buffer

unfoldable pub lfs_flash_erase : (ℕ → Bool) → ℕ → Bool × List ℕ
lfs_flash_erase erase block = fs_hal_erase erase (phys_addr + block * phys_block) phys_block

-- The loop of `fs_gets` over the bytes that were read: the text before the first NUL, CR or LF,
-- and how many bytes the line takes with its end; `none`: no end was read.
unfoldable pub scan_line : List ℕ → List ℕ × Option ℕ
scan_line [] = ([], none)
scan_line (c ∷ bytes) =
    let (text, used) = scan_line bytes in
    if (c == 0) || ((c == 13) || (c == 10))
    then (
      [],
      some (if c == 13 then (elim bytes [ [] ↦ 1 | d ∷ rest ↦ if d == 10 then 2 else 1 ]) else 1),
    )
    else (c ∷ text, elim used [ none ↦ none | some n ↦ some (n + 1) ])

-- `fs_gets` at a position: `lfs_file_read` has given these bytes. The text, and the new position.
unfoldable pub fs_gets : ℕ → List ℕ → List ℕ × ℕ
fs_gets pos bytes =
    let (text, used) = scan_line bytes in
    (text, elim used [ none ↦ pos + length bytes | some n ↦ pos + n ])
