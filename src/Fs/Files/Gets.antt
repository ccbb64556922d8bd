-- ===== src/Fs/Files/Gets.antt =====
-- Lines of a file by `fs_gets` of esp8266/app/fs.c.
use mathlib.Core.Path.{subst}
use esp8266_xcode.Base.{
  ℕ, ◌+◌, ◌-◌, List, ◌++◌, Option, none, some, ◌≡◌, refl, sym, ap, ap₂, ◌∙◌, arith, length, take,
  drop, append_assoc, drop-length-append,
}
use esp8266_xcode.Fs.{scan_line}
use esp8266_xcode.Fs.Lines.{End, bytes_of, end_bytes, IsLine, scan_line-append, take-within}
use esp8266_xcode.Fs.Files.{Lfs, after_line, fs_gets_fd}

module _ (lfs : Lfs) where
  open lfs use {
    Store, File, file_tell, file_seek, bytes, IsReader, read_bytes, tell-seek, bytes-seek,
    seek-IsReader,
  }

  -- The file is open for reading, holds `text`, and stands at `pos`.
  abbrev pub At : List ℕ → ℕ → File → Type 0
  At text pos f = (bytes f ≡ text) × (file_tell f ≡ pos) × IsReader f

  abbrev pub GetsLine : List ℕ → List ℕ → ℕ → Option (List ℕ × Option File) → Type 0
  GetsLine line text pos none = ⊥
  GetsLine line text pos (some (l, none)) = ⊥
  GetsLine line text pos (some (l, some f)) = (l ≡ line) × At text pos f

  line_bytes :
      (n : ℕ) (pre : List ℕ) (line : List ℕ × End) (rest : List ℕ)
      → IsLine n line
      → scan_line (take n (drop (length pre) (pre ++ (bytes_of line ++ rest))))
        ≡ (line.0, some (length (bytes_of line)))
  line_bytes n pre (text, e) rest h =
      ap (λ b. scan_line (take n b)) (drop-length-append pre _)
      ∙ ap scan_line
          (take-within (text ++ end_bytes e) rest n h.1 ∙ append_assoc text (end_bytes e) _)
      ∙ scan_line-append text e _ h.0

  -- `fs_gets` at the start of a line returns it, and stands behind its end.
  pub fs_gets_fd-GetsLine :
      (n : ℕ) (pre : List ℕ) (line : List ℕ × End) (rest : List ℕ) (f : File) (s : Store)
      → IsLine n line
      → At (pre ++ (bytes_of line ++ rest)) (length pre) f
      → GetsLine line.0
          (pre ++ (bytes_of line ++ rest))
          (length pre + length (bytes_of line))
          (fs_gets_fd lfs (n + 1) (some f) s)
  unfolding fs_gets_fd after_line
  fs_gets_fd-GetsLine n pre line rest f s h (b, t, r) =
      let (f', e, b', t', r') = read_bytes (n + 1 - 1) f s r in
      let len = length (bytes_of line) in
      let scanned : scan_line (take (n + 1 - 1) (drop (file_tell f) (bytes f)))
          ≡ (line.0, some len) =
        ap (λ k. scan_line (take k (drop (file_tell f) (bytes f)))) {x = n + 1 - 1} {y = n}
          (omega arith)
        ∙ ap₂ (λ i c. scan_line (take n (drop i c))) t b
        ∙ line_bytes n pre line rest h in
      let result : fs_gets_fd lfs (n + 1) (some f) s
          ≡ some (line.0, some (file_seek (file_tell f + len) f')) =
        rw (fs_gets_fd, e) (ap (λ r. some (after_line lfs (file_tell f) f' r)) scanned) in
      subst (GetsLine line.0 (pre ++ (bytes_of line ++ rest)) (length pre + len)) (sym result) (
        refl,
        (
          bytes-seek (file_tell f + len) f' ∙ b' ∙ b,
          tell-seek (file_tell f + len) f' ∙ ap (λ p. p + len) t,
          seek-IsReader (file_tell f + len) f' r',
        ),
      )
