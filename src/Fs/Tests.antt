-- ===== src/Fs/Tests.antt =====
-- Runs of esp8266/app/fs.c.
use esp8266_xcode.Base.{
  ℕ, List, [], ◌∷◌, ◌≡◌, ◌==◌, not, arith, All, drop, replicate, length, length-replicate, Option,
  some,
}
use esp8266_xcode.Fs.{fs_hal_read, lfs_flash_erase}
use esp8266_xcode.Fs.Pages.{drop-fs_hal_read}
use esp8266_xcode.Fs.Erase.{InBlock, Outside, lfs_flash_erase-InBlock}
use esp8266_xcode.Ota.Request.{partition_table, ota_2}

abbrev memory : List ℕ
memory = 10 ∷ 11 ∷ 12 ∷ 13 ∷ 14 ∷ 15 ∷ 16 ∷ 17 ∷ []

large : List ℕ
large = replicate 600 7

length-large : length large ≡ 600
unfolding large
length-large = length-replicate {A = ℕ} 600 7

-- The flash that has 9 everywhere.
nines : ℕ → ℕ → Option (List ℕ)
nines addr n = some (replicate n 9)

drop-fs_hal_read_example : drop 256 (fs_hal_read nines 0 600 large).1 ≡ drop 256 large
drop-fs_hal_read_example = drop-fs_hal_read nines 0 600 large (omega (arith, length-large))

lfs_flash_erase-InBlock_example :
    All
      (λ s. InBlock 252 s × Outside 0x101000 0xff000 s)
      (lfs_flash_erase (λ s. not (s == 1017)) 252).1
unfolding partition_table
lfs_flash_erase-InBlock_example =
    lfs_flash_erase-InBlock (λ s. not (s == 1017)) 252 ota_2 (omega arith)
