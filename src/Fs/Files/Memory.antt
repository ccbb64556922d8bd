-- ===== src/Fs/Files/Memory.antt =====
-- A store in memory that meets what esp8266/app/fs.c relies on.
use mathlib.Core.Path.{subst}
use esp8266_xcode.Base.{
  ℕ, ◌+◌, List, [], ◌∷◌, ◌++◌, Option, none, some, Bool, true, false, ◌≡◌, ◌≢◌, refl, ◌∙◌, length,
  take, drop, if◌then◌else◌, Bool-cases, inl, inr,
}
use esp8266_xcode.Httpd.{text_eq}
use esp8266_xcode.Httpd.Dispatch.Registry.{text_eq_refl, text_eq→≡}
use esp8266_xcode.Fs.Files.{Lfs, OpenFlag, rdonly, wronly, creat, trunc}

abbrev pub Names : Type 0
Names = List ℕ → Option (List ℕ)

pub record MemoryFile : Type 0 where
  pub name : List ℕ
  pub text : List ℕ
  pub pos : ℕ
  pub reader : Bool

abbrev pub put : List ℕ → List ℕ → Names → Names
put name text s other = if text_eq other name then some text else s other

abbrev pub memory_open : List ℕ → List OpenFlag → Names → Option (MemoryFile × Names)
memory_open name (rdonly ∷ flags) s = elim (s name) [
  | none ↦ none
  | some text ↦ some (record { name = name; text = text; pos = 0; reader = true }, s)
]
memory_open name flags s =
    some (record { name = name; text = []; pos = 0; reader = false }, put name [] s)

abbrev pub memory_close : MemoryFile → Names → Names
memory_close f s = if f.reader then s else put f.name f.text s

abbrev pub memory_read : ℕ → MemoryFile → Names → Option (List ℕ × MemoryFile)
memory_read n f s =
    let b = take n (drop f.pos f.text) in some (b, record f { pos = f.pos + length b })

put_ne : (name text other : List ℕ) (s : Names) → other ≢ name → put name text s other ≡ s other
put_ne name text other s h = elim (Bool-cases (text_eq other name)) [
  | inl e ↦ absurd (h (text_eq→≡ other name e))
  | inr e ↦ rw e
]

pub missing : (name : List ℕ) (s : Names) → s name ≡ none → memory_open name (rdonly ∷ []) s ≡ none
missing name s h = rw (memory_open, h)

pub present :
    (name text : List ℕ) (s : Names)
    → s name ≡ some text
    → memory_open name (rdonly ∷ []) s
      ≡ some (record { name = name; text = text; pos = 0; reader = true }, s)
present name text s h = rw (memory_open, h)

pub close_of_reader : (f : MemoryFile) (s : Names) → f.reader ≡ true → memory_close f s ≡ s
close_of_reader f s r = rw (memory_close, r)

-- What the file is, when it has been written and closed.
abbrev pub Written : List ℕ → List ℕ → Names → Option (MemoryFile × Names) → Type 0
Written name text s none = ⊥
Written name text s (some (f, s')) =
    let s'' = memory_close (record f { text = f.text ++ text }) s' in
    (s'' name ≡ some text) × ((other : List ℕ) → other ≢ name → s'' other ≡ s other)

pub written :
    (name text : List ℕ) (s : Names)
    → Written name text s (memory_open name (wronly ∷ creat ∷ trunc ∷ []) s)
written name text s = (
  rw (text_eq_refl name),
  λ other h. put_ne name text other (put name [] s) h ∙ put_ne name [] other s h,
)

-- The laws hold of it.
abbrev pub memory : Lfs
memory = record {
  Store = Names;
  File = MemoryFile;
  file_open = memory_open;
  file_close = memory_close;
  file_read = memory_read;
  file_write = λ text f s. (some (length text), record f { text = f.text ++ text }, s);
  file_seek = λ n f. record f { pos = n };
  file_tell = λ f. f.pos;
  stat_size = λ name s. elim (s name) [ none ↦ none | some text ↦ some (length text) ];
  content = λ name s. s name;
  bytes = λ f. f.text;
  IsReader = λ f. f.reader ≡ true;
  open_missing = missing;
  open_present = λ name text s h. (
    record { name = name; text = text; pos = 0; reader = true },
    present name text s h,
    refl,
    refl,
    refl,
  );
  read_bytes = λ n f s r.
      (record f { pos = f.pos + length (take n (drop f.pos f.text)) }, refl, refl, refl, r);
  tell-seek = λ n f. refl;
  bytes-seek = λ n f. refl;
  seek-IsReader = λ n f r. r;
  close_reader = close_of_reader;
  write_new = λ name text s s' f h e. subst (Written name text s) h (written name text s);
}
