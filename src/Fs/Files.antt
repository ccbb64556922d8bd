-- ===== src/Fs/Files.antt =====
-- The files of esp8266/app/fs.c over littlefs. A descriptor is the file that is open, and `none` is
-- a negative one.
pub mod Gets
pub mod Config
pub mod Memory
use esp8266_xcode.Base.{
  ℕ, zero, suc, ◌+◌, ◌-◌, List, [], ◌∷◌, ◌++◌, Option, none, some, Bool, true, false, ◌==◌, ◌≡◌,
  ◌≢◌, if◌then◌else◌, length, take, drop,
}
use esp8266_xcode.Fs.{scan_line}

-- LFS_O_RDONLY and the other flags; a list of them is their union.
pub data OpenFlag : Type 0 where
  rdonly wronly creat append trunc : OpenFlag

-- The functions of littlefs, and what the code relies on. `none` is an error.
pub record Lfs : Type 1 where
  pub Store : Type 0
  pub File : Type 0
  pub file_open : List ℕ → List OpenFlag → Store → Option (File × Store)
  pub file_close : File → Store → Store
  pub file_read : ℕ → File → Store → Option (List ℕ × File)
  pub file_write : List ℕ → File → Store → Option ℕ × File × Store
  pub file_seek : ℕ → File → File
  pub file_tell : File → ℕ
  pub stat_size : List ℕ → Store → Option ℕ
  -- What a name stands for, the bytes of an open file, and that it was opened for reading.
  pub content : List ℕ → Store → Option (List ℕ)
  pub bytes : File → List ℕ
  pub IsReader : File → Type 0
  pub open_missing :
      (name : List ℕ) (s : Store) → content name s ≡ none → file_open name (rdonly ∷ []) s ≡ none
  pub open_present :
      (name text : List ℕ) (s : Store)
      → content name s ≡ some text
      → (f : File) × (file_open name (rdonly ∷ []) s ≡ some (f, s))
        × (bytes f ≡ text)
        × (file_tell f ≡ 0)
        × IsReader f
  pub read_bytes :
      (n : ℕ) (f : File) (s : Store)
      → IsReader f
      → (f' : File) × (file_read n f s ≡ some (take n (drop (file_tell f) (bytes f)), f'))
        × (bytes f' ≡ bytes f)
        × (file_tell f' ≡ file_tell f + length (take n (drop (file_tell f) (bytes f))))
        × IsReader f'
  pub tell-seek : (n : ℕ) (f : File) → file_tell (file_seek n f) ≡ n
  pub bytes-seek : (n : ℕ) (f : File) → bytes (file_seek n f) ≡ bytes f
  pub seek-IsReader : (n : ℕ) (f : File) → IsReader f → IsReader (file_seek n f)
  pub close_reader : (f : File) (s : Store) → IsReader f → file_close f s ≡ s
  -- A file that is made anew, written once in full and closed holds the text; the others stay.
  pub write_new :
      (name text : List ℕ) (s s' : Store) (f : File)
      → file_open name (wronly ∷ creat ∷ trunc ∷ []) s ≡ some (f, s')
      → let (n, f', s'') = file_write text f s' in
        n ≡ some (length text)
        → (content name (file_close f' s'') ≡ some text)
          × ((other : List ℕ) → other ≢ name → content other (file_close f' s'') ≡ content other s)

-- The flags for the first letter of `mode`.
unfoldable pub mode_flags : ℕ → List OpenFlag
mode_flags mode =
    if mode == b'a'
    then wronly ∷ creat ∷ append ∷ []
    else if mode == b'r'
    then rdonly ∷ []
    else if mode == b'w'
    then wronly ∷ creat ∷ trunc ∷ []
    else []

module _ (lfs : Lfs) where
  open lfs use {
    Store, File, file_open, file_close, file_read, file_write, file_seek, file_tell, stat_size,
  }

  unfoldable pub fs_open : List ℕ → ℕ → Store → Option File × Store
  unfolding mode_flags
  fs_open name mode s = elim (file_open name (mode_flags mode) s) [
    | none ↦ (none, s)
    | some (f, s') ↦ (some f, s')
  ]

  unfoldable pub fs_close : Option File → Store → Store
  fs_close none s = s
  fs_close (some f) s = file_close f s

  -- `none` is -1.
  unfoldable pub fs_getc : Option File → Store → Option ℕ × Option File
  fs_getc none s = (none, none)
  fs_getc (some f) s = elim (file_read 1 f s) [
    | none ↦ (none, some f)
    | some (b, f') ↦ (elim b [ [] ↦ none | c ∷ rest ↦ some c ], some f')
  ]

  -- The file after a line: `lfs_file_seek` goes behind its end, if one was read.
  after_line : ℕ → File → List ℕ × Option ℕ → List ℕ × Option File
  after_line pos f (text, none) = (text, some f)
  after_line pos f (text, some used) = (text, some (file_seek (pos + used) f))

  -- `none`: after an error of the read, the code writes before its buffer.
  unfoldable pub fs_gets_fd : ℕ → Option File → Store → Option (List ℕ × Option File)
  unfolding scan_line after_line
  fs_gets_fd len none s = some ([], none)
  fs_gets_fd len (some f) s = elim (file_read (len - 1) f s) [
    | none ↦ none
    | some (b, f') ↦ some (after_line (file_tell f) f' (scan_line b))
  ]

  pub fs_seek : ℕ → Option File → Option File
  fs_seek pos none = none
  fs_seek pos (some f) = some (file_seek pos f)

  pub fs_tell : Option File → ℕ
  fs_tell none = 0
  fs_tell (some f) = file_tell f

  -- `none` is an error of littlefs.
  pub fs_read : ℕ → Option File → Store → Option (List ℕ × Option File)
  fs_read n none s = some ([], none)
  fs_read n (some f) s = elim (file_read n f s) [ none ↦ none | some (b, f') ↦ some (b, some f') ]

  unfoldable pub fs_write : List ℕ → Option File → Store → Option ℕ × Option File × Store
  fs_write text none s = (some 0, none, s)
  fs_write text (some f) s = let (n, f', s') = file_write text f s in (n, some f', s')

  -- The size of a file that is not there is 0.
  pub fs_stat : List ℕ → Store → ℕ
  fs_stat name s = elim (stat_size name s) [ none ↦ 0 | some n ↦ n ]

-- `fs_init`, over `lfs_mount` and `lfs_format` of a device.
module _ {D : Type 0} (mount : D → Bool × D) (format : D → D) where
  pub fs_init : D → D
  fs_init d = let (ok, d') = mount d in if ok then d' else (mount (format d')).1

-- `fs_mkdir`, over `lfs_mkdir`.
pub fs_mkdir : {D R : Type 0} → (List ℕ → D → R × D) → List ℕ → D → R × D
fs_mkdir mkdir name d = mkdir name d
