-- ===== src/Lost/Crc.antt =====
-- `lfs_crc` of esp8266/lost/lfs_util.c. Its two loops differ only in how they read a byte, from
-- flash or from memory, so there is one here. Every value is below 2 ^ 32, and nothing wraps.
pub mod Bitwise
use Prim.Native.Nat.{bit_and, bit_xor}
use esp8266_xcode.Base.{ℕ, ◌/◌, List, [], ◌∷◌, get_or}

abbrev pub rtable : List ℕ
rtable =
    0x00000000 ∷ 0x1db71064 ∷ 0x3b6e20c8 ∷ 0x26d930ac ∷ 0x76dc4190 ∷ 0x6b6b51f4 ∷ 0x4db26158
    ∷ 0x5005713c ∷ 0xedb88320 ∷ 0xf00f9344 ∷ 0xd6d6a3e8 ∷ 0xcb61b38c ∷ 0x9b64c2b0 ∷ 0x86d3d2d4
    ∷ 0xa00ae278 ∷ 0xbdbdf21c ∷ []

-- crc = (crc >> 4) ^ rtable[(crc ^ n) & 0xf]: the index is below 16.
pub crc_nibble : ℕ → ℕ → ℕ
crc_nibble crc n = bit_xor (crc / 16) (get_or rtable (bit_and (bit_xor crc n) 15) 0)

-- The bytes are those of the buffer, `size` of them.
unfoldable pub lfs_crc : ℕ → List ℕ → ℕ
unfolding crc_nibble
lfs_crc crc [] = crc
lfs_crc crc (c ∷ bytes) = lfs_crc (crc_nibble (crc_nibble crc c) (c / 16)) bytes
