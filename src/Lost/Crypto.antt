-- ===== src/Lost/Crypto.antt =====
-- What esp8266/lost/crypto.c gives to the TLS library: the contexts of AES, and output. The key
-- setups, the key wrap and the SDK are arguments. The functions for hex dumps are empty.
use esp8266_xcode.Base.{ℕ, List, [], ◌∷◌, ◌++◌, Option, none, some, ◌==◌, if◌then◌else◌, set}

-- AES_PRIV_SIZE in bytes, and AES_PRIV_NR_POS.
abbrev pub aes_priv_size : ℕ
aes_priv_size = 244

abbrev pub aes_priv_nr_pos : ℕ
aes_priv_nr_pos = 60

-- `setup` is rijndaelKeySetupEnc or rijndaelKeySetupDec, from the words of `rk` and the key to the
-- new words; `memory` is what os_malloc gives, where it is called.
abbrev aes_init : (List ℕ → List ℕ → List ℕ) → Option (List ℕ) → List ℕ → ℕ → Option (List ℕ)
aes_init setup memory key len =
    if len == 16
    then elim memory [ none ↦ none | some rk ↦ some (set (setup rk key) aes_priv_nr_pos 10) ]
    else none

unfoldable pub aes_encrypt_init :
    (List ℕ → List ℕ → List ℕ) → Option (List ℕ) → List ℕ → ℕ → Option (List ℕ)
aes_encrypt_init setup memory key len = aes_init setup memory key len

unfoldable pub aes_decrypt_init :
    (List ℕ → List ℕ → List ℕ) → Option (List ℕ) → List ℕ → ℕ → Option (List ℕ)
aes_decrypt_init setup memory key len = aes_init setup memory key len

-- The memory of a context is cleared, and then freed.
pub data Release : Type 0 where
  memset : ℕ → ℕ → Release
  free : Release

pub aes_encrypt_deinit : List Release
aes_encrypt_deinit = memset 0 aes_priv_size ∷ free ∷ []

pub aes_decrypt_deinit : List Release
aes_decrypt_deinit = memset 0 aes_priv_size ∷ free ∷ []

-- `aes_wrap5` and `aes_unwrap5` of the library, over the key, its length, the count and the data.
module _ {R : Type 0} where
  pub aes_wrap : (List ℕ → ℕ → ℕ → List ℕ → R) → List ℕ → ℕ → List ℕ → R
  aes_wrap aes_wrap5 kek n plain = aes_wrap5 kek 16 n plain

  pub aes_unwrap : (List ℕ → ℕ → ℕ → List ℕ → R) → List ℕ → ℕ → List ℕ → R
  aes_unwrap aes_unwrap5 kek n cipher = aes_unwrap5 kek 16 n cipher

pub randombytes : (ℕ → List ℕ) → ℕ → List ℕ
randombytes os_get_random size = os_get_random size

-- `text` is what `ets_vprintf` prints.
pub wpa_printf : List ℕ → List ℕ
wpa_printf text = text ++ (13 ∷ 10 ∷ [])
