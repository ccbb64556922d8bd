-- ===== src/Fs/Lines.antt =====
-- `fs_gets` of esp8266/app/fs.c over a text of lines.
use esp8266_xcode.Base.{
  ℕ, zero, suc, ◌+◌, ◌-◌, ◌≤◌, ◌≢◌, List, [], ◌∷◌, ◌++◌, some, ◌≡◌, refl, ap, sym, ◌∙◌, arith,
  length, take, All, map, append_assoc, ap₂, length-append, drop-length-append,
}
use esp8266_xcode.Base.Slices.{slice}
use esp8266_xcode.Fs.{scan_line, fs_gets}

-- The end of a line.
pub data End : Type 0 where
  lf crlf : End

abbrev pub end_bytes : End → List ℕ
end_bytes lf = 10 ∷ []
end_bytes crlf = 13 ∷ 10 ∷ []

-- A byte that ends no line.
abbrev pub IsInner : ℕ → Type 0
IsInner c = (c ≢ 0) × (c ≢ 13) × (c ≢ 10)

abbrev pub bytes_of : List ℕ × End → List ℕ
bytes_of (text, e) = text ++ end_bytes e

pub scan_line-append :
    (text : List ℕ) (e : End) (rest : List ℕ)
    → All IsInner text
    → scan_line (text ++ (end_bytes e ++ rest)) ≡ (text, some (length (bytes_of (text, e))))
unfolding scan_line
scan_line-append [] lf rest h = refl
scan_line-append [] crlf rest h = refl
scan_line-append (c ∷ text) e rest h = ground (arith, scan_line-append text e rest h.1)

pub take-within :
    (xs ys : List ℕ) (n : ℕ) → length xs ≤ n → take n (xs ++ ys) ≡ xs ++ take (n - length xs) ys
take-within [] ys n h = ap (λ k. take k ys) {x = n} {y = n - 0} (omega arith)
take-within (x ∷ xs) ys zero h = absurd (omega arith)
take-within (x ∷ xs) ys (suc n) h =
    ap (λ l. x ∷ l)
      (take-within xs ys n (omega arith)
        ∙ ap (λ k. xs ++ take k ys) {x = n - length xs} {y = suc n - suc (length xs)} (omega arith))

-- `count` calls of `fs_gets`, with a buffer of `n + 1` bytes, on a file from a position on.
pub read_lines : ℕ → ℕ → ℕ → List ℕ → List (List ℕ)
read_lines zero n pos content = []
read_lines (suc count) n pos content =
    let (text, pos') = fs_gets pos (slice pos n content) in text ∷ read_lines count n pos' content

unfoldable pub file_of : List (List ℕ × End) → List ℕ
file_of [] = []
file_of (line ∷ lines) = bytes_of line ++ file_of lines

-- The line has no byte of an end inside, and fits with its end into `n` bytes.
abbrev pub IsLine : ℕ → List ℕ × End → Type 0
IsLine n (text, e) = All IsInner text × (length (text ++ end_bytes e) ≤ n)

fs_gets-line :
    (n : ℕ) (pre : List ℕ) (line : List ℕ × End) (rest : List ℕ)
    → IsLine n line
    → fs_gets (length pre) (slice (length pre) n (pre ++ (bytes_of line ++ rest)))
      ≡ (line.0, length pre + length (bytes_of line))
unfolding fs_gets
fs_gets-line n pre (text, e) rest h =
    ap (λ b. fs_gets (length pre) (take n b)) (drop-length-append pre _)
    ∙ ap (fs_gets (length pre))
        (take-within (text ++ end_bytes e) rest n h.1 ∙ append_assoc text (end_bytes e) _)
    ∙ rw (fs_gets, scan_line-append text e (take (n - length (text ++ end_bytes e)) rest) h.0)

read_lines-append :
    (n : ℕ) (pre : List ℕ) (lines : List (List ℕ × End))
    → All (IsLine n) lines
    → read_lines (length lines) n (length pre) (pre ++ file_of lines) ≡ map (λ line. line.0) lines
unfolding read_lines file_of
read_lines-append n pre [] h = refl
read_lines-append n pre (line ∷ lines) h = rw (fs_gets-line n pre line (file_of lines) h.0) (
    ap (λ l. line.0 ∷ l)
      (ap₂ (λ k c. read_lines (length lines) n k c) (sym (length-append pre (bytes_of line)))
          (sym (append_assoc pre (bytes_of line) (file_of lines)))
        ∙ read_lines-append n (pre ++ bytes_of line) lines h.1))

-- For lines that hold no NUL, CR or LF and that fit into the buffer with their end and a NUL,
-- calls of fs_gets from the start of the file return the lines in order, whether LF or CR LF
-- ends them.
pub read_lines-file_of :
    (n : ℕ) (lines : List (List ℕ × End))
    → All (IsLine n) lines
    → read_lines (length lines) n 0 (file_of lines) ≡ map (λ line. line.0) lines
read_lines-file_of n lines h = read_lines-append n [] lines h
