-- ===== src/Fs/Files/Config.antt =====
-- Settings that are lines of a file: esp8266/main.cpp and esp8266/web/system.cpp read them by
-- `fs_open`, a few calls of `fs_gets` into `number`, and `fs_close`.
use esp8266_xcode.Base.{
  ℕ, zero, suc, List, [], ◌∷◌, ◌++◌, Option, none, some, ◌≡◌, refl, sym, ap, ap₂, ◌∙◌, length, All,
  map, append_assoc, length-append,
}
use esp8266_xcode.Fs.Lines.{End, bytes_of, IsLine, file_of}
use esp8266_xcode.Fs.Files.{Lfs, rdonly, fs_open, fs_close, fs_gets_fd, mode_flags}
use esp8266_xcode.Fs.Files.Gets.{At, GetsLine, fs_gets_fd-GetsLine}

module _ (lfs : Lfs) where
  open lfs use {
    Store, File, content, bytes, file_tell, IsReader, open_present, open_missing, close_reader,
    file_open,
  }

  -- `fs_gets(number, 128, fd)`, `count` times.
  unfoldable pub gets_many : ℕ → Option File → Store → Option (List (List ℕ) × Option File)
  gets_many zero fd s = some ([], fd)
  gets_many (suc n) fd s = elim (fs_gets_fd lfs 128 fd s) [
    | none ↦ none
    | some (line, fd') ↦ elim (gets_many n fd' s) [
      | none ↦ none
      | some (lines, fd'') ↦ some (line ∷ lines, fd'')
    ]
  ]

  close_with :
      Store → Option (List (List ℕ) × Option File) → Option (Option (List (List ℕ)) × Store)
  close_with s none = none
  close_with s (some (lines, fd)) = some (some lines, fs_close lfs fd s)

  read_opened : ℕ → Option File × Store → Option (Option (List (List ℕ)) × Store)
  unfolding close_with
  read_opened count (none, s) = some (none, s)
  read_opened count (some f, s) = close_with s (gets_many count (some f) s)

  -- The lines, if the file is there.
  unfoldable pub read_config : ℕ → List ℕ → Store → Option (Option (List (List ℕ)) × Store)
  unfolding read_opened
  read_config count name s = read_opened count (fs_open lfs name b'r' s)

  abbrev GetsAll : List (List ℕ) → Option (List (List ℕ) × Option File) → Type 0
  GetsAll lines none = ⊥
  GetsAll lines (some (ls, none)) = ⊥
  GetsAll lines (some (ls, some f)) = (ls ≡ lines) × IsReader f

  GetsAll-cons :
      (line : List ℕ) (lines : List (List ℕ)) (l : List ℕ)
      (o : Option (List (List ℕ) × Option File))
      → l ≡ line
      → GetsAll lines o
      → GetsAll (line ∷ lines) (elim o as (λ o. Option (List (List ℕ) × Option File)) [
        | none ↦ none
        | some (ls, fd) ↦ some (l ∷ ls, fd)
      ])
  GetsAll-cons line lines l none e h = h
  GetsAll-cons line lines l (some (ls, none)) e h = h
  GetsAll-cons line lines l (some (ls, some f)) e h = (ap₂ ◌∷◌ e h.0, h.1)

  after_first :
      (count : ℕ) (line : List ℕ) (lines : List (List ℕ)) (text : List ℕ) (pos : ℕ)
      (o : Option (List ℕ × Option File)) (s : Store)
      → GetsLine lfs line text pos o
      → ((f : File) → At lfs text pos f → GetsAll lines (gets_many count (some f) s))
      → GetsAll (line ∷ lines) (elim o as (λ o. Option (List (List ℕ) × Option File)) [
        | none ↦ none
        | some (l, fd) ↦ elim (gets_many count fd s) [
          | none ↦ none
          | some (ls, fd') ↦ some (l ∷ ls, fd')
        ]
      ])
  after_first count line lines text pos none s g k = absurd g
  after_first count line lines text pos (some (l, none)) s g k = absurd g
  after_first count line lines text pos (some (l, some f)) s g k =
      GetsAll-cons line lines l (gets_many count (some f) s) g.0 (k f g.1)

  gets_many-GetsAll :
      (lines : List (List ℕ × End)) (pre rest : List ℕ) (f : File) (s : Store)
      → All (IsLine 127) lines
      → At lfs (pre ++ (file_of lines ++ rest)) (length pre) f
      → GetsAll (map (λ l. l.0) lines) (gets_many (length lines) (some f) s)
  unfolding gets_many file_of
  gets_many-GetsAll [] pre rest f s h at = (refl, at.2)
  gets_many-GetsAll (line ∷ lines) pre rest f s h at =
      let whole : pre ++ (file_of (line ∷ lines) ++ rest)
          ≡ pre ++ (bytes_of line ++ (file_of lines ++ rest)) =
        ap (λ t. pre ++ t) (append_assoc (bytes_of line) (file_of lines) rest) in
      after_first (length lines) line.0 (map (λ l. l.0) lines) _ _ (fs_gets_fd lfs 128 (some f) s) s
        (fs_gets_fd-GetsLine lfs 127 pre line (file_of lines ++ rest) f s h.0
          (at.0 ∙ whole, at.1, at.2))
        (λ f' at'. gets_many-GetsAll lines (pre ++ bytes_of line) rest f' s h.1 (
          at'.0 ∙ sym (append_assoc pre (bytes_of line) (file_of lines ++ rest)),
          at'.1 ∙ sym (length-append pre (bytes_of line)),
          at'.2,
        ))

  close_with-GetsAll :
      (s : Store) (lines : List (List ℕ)) (o : Option (List (List ℕ) × Option File))
      → GetsAll lines o
      → close_with s o ≡ some (some lines, s)
  unfolding close_with fs_close
  close_with-GetsAll s lines none h = absurd h
  close_with-GetsAll s lines (some (ls, none)) h = absurd h
  close_with-GetsAll s lines (some (ls, some f)) h =
      ap₂ (λ l t. some (some l, t)) h.0 (close_reader f s h.1)

  fs_open_eq :
      (name : List ℕ) (f : File) (s : Store)
      → file_open name (rdonly ∷ []) s ≡ some (f, s)
      → fs_open lfs name b'r' s ≡ (some f, s)
  unfolding fs_open mode_flags
  fs_open_eq name f s e = rw (fs_open, e)

  fs_open-none :
      (name : List ℕ) (s : Store)
      → file_open name (rdonly ∷ []) s ≡ none
      → fs_open lfs name b'r' s ≡ (none, s)
  unfolding fs_open mode_flags
  fs_open-none name s e = rw (fs_open, e)

  -- For a file that begins with lines that hold no NUL, CR or LF and that are at most 127 bytes
  -- with their end, reading as many lines gives them, in order, and the store is as it was.
  pub read_config-content :
      (name : List ℕ) (lines : List (List ℕ × End)) (rest : List ℕ) (s : Store)
      → content name s ≡ some (file_of lines ++ rest)
      → All (IsLine 127) lines
      → read_config (length lines) name s ≡ some (some (map (λ l. l.0) lines), s)
  unfolding read_config
  read_config-content name lines rest s c h =
      let (f, e, b, t, r) = open_present name (file_of lines ++ rest) s c in
      ap (read_opened (length lines)) (fs_open_eq name f s e)
      ∙ (close_with-GetsAll s (map (λ l. l.0) lines) (gets_many (length lines) (some f) s)
          (gets_many-GetsAll lines [] rest f s h (b, t, r)))

  pub read_config_missing :
      (count : ℕ) (name : List ℕ) (s : Store)
      → content name s ≡ none
      → read_config count name s ≡ some (none, s)
  unfolding read_config
  read_config_missing count name s c =
      ap (read_opened count) (fs_open-none name s (open_missing name s c))
