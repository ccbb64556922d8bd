-- ===== src/Fs/Erase.antt =====
-- The blocks of the file system of esp8266/app/fs.c and the partitions of esp8266/init.c.
use mathlib.Core.Path.{subst}
use esp8266_xcode.Base.{
  ℕ, zero, suc, ◌+◌, ◌*◌, ◌/◌, ◌≤◌, ◌<◌, List, [], ◌∷◌, Bool, true, ◌≡◌, ◌⊎◌, inl, inr, arith, All,
  Bool-cases,
}
use esp8266_xcode.Fs.{
  sec_size, phys_addr, phys_block, block_count, erase_loop, fs_hal_erase, lfs_flash_erase,
}
use esp8266_xcode.Ota.Request.{
  partition_table, Partition, bootloader, ota_1, ota_2, rf_cal, phy_data, system_parameter,
}

-- The sector lies outside the `size` bytes from `addr` on.
abbrev pub Outside : ℕ → ℕ → ℕ → Type 0
Outside addr size sector = (sector * sec_size + sec_size ≤ addr) ⊎ (addr + size ≤ sector * sec_size)

-- The sector lies in a block of the file system.
abbrev pub InBlock : ℕ → ℕ → Type 0
InBlock block sector =
    (phys_addr + block * phys_block ≤ sector * sec_size)
    × (sector * sec_size + sec_size ≤ phys_addr + (block + 1) * phys_block)

All-map : (P Q : ℕ → Type 0) (l : List ℕ) → ((n : ℕ) → P n → Q n) → All P l → All Q l
All-map P Q [] f h = tt
All-map P Q (x ∷ l) f h = (f x h.0, All-map P Q l f h.1)

abbrev Between : ℕ → ℕ → ℕ → Type 0
Between a b n = (a ≤ n) × (n < b)

erase_loop-Between :
    (erase : ℕ → Bool) (sector count : ℕ)
    → All (Between sector (sector + count)) (erase_loop erase sector count).1
unfolding erase_loop
erase_loop-Between erase sector zero = tt
erase_loop-Between erase sector (suc count) = elim (Bool-cases (erase sector)) [
  | inr e ↦ rw e tt
  | inl e ↦ rw e (
    (omega arith, omega arith),
    All-map (Between (sector + 1) (sector + 1 + count)) (Between sector (sector + suc count)) _
        (λ n h. (omega arith, omega arith)) (erase_loop-Between erase (sector + 1) count),
  )
]

sectors_of :
    (erase : ℕ → Bool) (block : ℕ)
    → All (Between (512 + block * 2) (512 + block * 2 + 2)) (lfs_flash_erase erase block).1
unfolding lfs_flash_erase fs_hal_erase
sectors_of erase block =
    subst (λ k. All (Between (512 + block * 2) (512 + block * 2 + 2)) (erase_loop erase k 2).1)
      {x = 512 + block * 2} {y = (2097152 + block * 8192) / 4096} (omega arith)
      (erase_loop-Between erase (512 + block * 2) 2)

outside :
    (block : ℕ) (p : Partition) (s : ℕ)
    → block < block_count
    → Between (512 + block * 2) (512 + block * 2 + 2) s
    → InBlock block s × Outside (partition_table p).0 (partition_table p).1 s
unfolding partition_table
outside block bootloader s h k = ((omega arith, omega arith), inr (omega arith))
outside block ota_1 s h k = ((omega arith, omega arith), inr (omega arith))
outside block ota_2 s h k = ((omega arith, omega arith), inr (omega arith))
outside block rf_cal s h k = ((omega arith, omega arith), inl (omega arith))
outside block phy_data s h k = ((omega arith, omega arith), inl (omega arith))
outside block system_parameter s h k = ((omega arith, omega arith), inl (omega arith))

-- The erase of a block of the file system, also one that fails on the way, erases no sector
-- outside the block, and none that shares a byte with a partition of the table.
pub lfs_flash_erase-InBlock :
    (erase : ℕ → Bool) (block : ℕ) (p : Partition)
    → block < block_count
    → let (addr, size) = partition_table p in
      All (λ s. InBlock block s × Outside addr size s) (lfs_flash_erase erase block).1
lfs_flash_erase-InBlock erase block p h =
    All-map (Between (512 + block * 2) (512 + block * 2 + 2)) _ _ (λ s k. outside block p s h k)
      (sectors_of erase block)

-- Where every sector can be erased, the whole block is.
pub lfs_flash_erase-sectors :
    (block : ℕ)
    → lfs_flash_erase (λ s. true) block ≡ (true, (512 + block * 2) ∷ (512 + block * 2 + 1) ∷ [])
unfolding lfs_flash_erase fs_hal_erase erase_loop
lfs_flash_erase-sectors block = ground arith
