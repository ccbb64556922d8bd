-- ===== src/Phy.antt =====
-- esp8266/phy.c: the functions that stand before the SDK's reads and writes of the flash.
use esp8266_xcode.Base.{ℕ, List, [], ◌∷◌, ◌++◌, Option, some, ◌==◌, ◌&&◌, if◌then◌else◌}

-- A part of the table that is zero.
abbrev zeros8 : List ℕ
zeros8 = 0 ∷ 0 ∷ 0 ∷ 0 ∷ 0 ∷ 0 ∷ 0 ∷ 0 ∷ []

-- `phy_data`, as bytes.
pub phy_data : List ℕ
phy_data =
    5
    ∷ 8
    ∷ 4
    ∷ 2
    ∷ 5
    ∷ 5
    ∷ 5
    ∷ 2
    ∷ 5
    ∷ 0
    ∷ 4
    ∷ 5
    ∷ 5
    ∷ 4
    ∷ 5
    ∷ 5
    ∷ 4
    ∷ 254
    ∷ 253
    ∷ 255
    ∷ 240
    ∷ 240
    ∷ 240
    ∷ 224
    ∷ 224
    ∷ 224
    ∷ 225
    ∷ 10
    ∷ 255
    ∷ 255
    ∷ 248
    ∷ 0
    ∷ 248
    ∷ 248
    ∷ 78
    ∷ 74
    ∷ 70
    ∷ 64
    ∷ 60
    ∷ 56
    ∷ 0
    ∷ 0
    ∷ 1
    ∷ 1
    ∷ 2
    ∷ 3
    ∷ 4
    ∷ 5
    ∷ 1
    ∷ 0
    ∷ 0
    ∷ 0
    ∷ 0
    ∷ 0
    ∷ 2
    ∷ 0
    ∷ 0
    ∷ 0
    ∷ 0
    ∷ 0
    ∷ 0
    ∷ 0
    ∷ 0
    ∷ 0
    ∷ 225
    ∷ 10
    ∷ 0
    ∷ 0
    ∷ 0
    ∷ 0
    ∷ 0
    ∷ 0
    ∷ 0
    ∷ 0
    ∷ 1
    ∷ 147
    ∷ 67
    ∷ 0
    ∷ 0
    ∷ 0
    ∷ (zeros8
        ++ (zeros8
            ++ (zeros8
                ++ (zeros8
                    ++ (0 ∷ 0 ∷ 1 ∷ 0 ∷ 0 ∷ 0 ∷ 0 ∷ 0 ∷ 0 ∷ 0 ∷ 0 ∷ 0 ∷ 0 ∷ 0 ∷ 0 ∷ 0 ∷ [])))))

-- The read of the SDK is `real`: its result, and the bytes that it puts in `dst`, if any.
module _ (real : ℕ → ℕ → ℕ × Option (List ℕ)) where
  pub __wrap_spi_flash_read : ℕ → ℕ → ℕ × Option (List ℕ)
  unfolding phy_data
  __wrap_spi_flash_read addr size =
      if (addr == 0x3fc000) && (size == 128) then (0, some phy_data) else real addr size

-- A write is passed on.
module _ {S : Type 0} (real : ℕ → List ℕ → S → ℕ × S) where
  pub __wrap_spi_flash_write : ℕ → List ℕ → S → ℕ × S
  __wrap_spi_flash_write addr src s = real addr src s
