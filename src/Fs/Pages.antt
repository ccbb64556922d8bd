-- ===== src/Fs/Pages.antt =====
-- The pages that esp8266/app/fs.c reads and writes.
use esp8266_xcode.Base.{
  ℕ, zero, suc, ◌+◌, ◌-◌, ◌≤◌, ◌<◌, List, [], ◌∷◌, ◌++◌, Option, none, some, Bool, true, false,
  ◌==◌, if◌then◌else◌, ◌≡◌, refl, ap, ◌∙◌, arith, length, take, drop, length-take, length-append,
  ◌%◌, length-drop, Bool-cases, inl, inr, take-length-append,
}
use esp8266_xcode.Base.Slices.{slice, slice-slice, drop-overwrite}
use esp8266_xcode.Fs.{
  page_length, aligned, copy_to, read_loop, fs_hal_read, write_loop, fs_hal_write,
}

abbrev pub flash : List ℕ → ℕ → ℕ → Option (List ℕ)
flash mem addr n = some (slice addr n mem)

page_length_eq : (size : ℕ) → size ≤ 256 → page_length size ≡ size
page_length_eq size h = ground arith

suc_not_zero : (m : ℕ) → (suc m == 0) ≡ false
suc_not_zero m = ground arith

read_loop_done :
    (fuel : ℕ) (read : ℕ → ℕ → Option (List ℕ)) (addr : ℕ) (dst : List ℕ)
    → read_loop fuel read addr 0 dst ≡ (true, dst)
unfolding read_loop
read_loop_done zero read addr dst = refl
read_loop_done (suc fuel) read addr dst = refl

-- A read of up to 256 bytes inside the flash succeeds and gives the bytes at the address.
pub fs_hal_read-slice :
    (mem : List ℕ) (addr size : ℕ) (dst : List ℕ)
    → size ≤ 256
    → addr + size ≤ length mem
    → fs_hal_read (flash mem) addr size dst ≡ (true, slice addr size mem ++ drop size dst)
unfolding fs_hal_read read_loop
fs_hal_read-slice mem addr zero dst h k = refl
fs_hal_read-slice mem addr (suc m) dst h k =
    let part : take (suc m) (slice addr (aligned (suc m)) mem) ≡ slice addr (suc m) mem =
      slice-slice 0 (suc m) addr (aligned (suc m)) mem (omega arith)
      ∙ ap (λ a. slice a (suc m) mem) {x = addr + 0} {y = addr} (omega arith) in
    let len : length (slice addr (suc m) mem) ≡ suc m =
      omega (arith, length-take (suc m) (drop addr mem), length-drop addr mem) in
    rw (fs_hal_read, read_loop, page_length_eq (suc m) h, suc_not_zero m)
      (ap
          (λ k.
            read_loop m (flash mem) (addr + suc m) k
              (copy_to dst (take (suc m) (slice addr (aligned (suc m)) mem))))
          {x = suc m - suc m} {y = 0} (omega arith)
        ∙ read_loop_done m (flash mem) (addr + suc m) _
        ∙ ap (λ b. (true, copy_to dst b)) part
        ∙ ap (λ k. (true, slice addr (suc m) mem ++ drop k dst)) len)

drop-after_read :
    (o : Option (List ℕ)) (n : ℕ) (dst : List ℕ) (rest : List ℕ → Bool × List ℕ)
    → n ≤ 256
    → 256 ≤ length dst
    → ((d : List ℕ) → 256 ≤ length d → drop 256 (rest d).1 ≡ drop 256 d)
    → drop 256
        (elim o as (λ o. Bool × List ℕ) [
          | none ↦ (false, dst)
          | some buffer ↦ rest (copy_to dst (take n buffer))
        ]).1
      ≡ drop 256 dst
drop-after_read none n dst rest k h f = refl
drop-after_read (some buffer) n dst rest k h f =
    let t = take n buffer in
    let short : length t ≤ 256 = omega (arith, length-take n buffer) in
    f (copy_to dst t)
      (omega (arith, length-append t (drop (length t) dst), length-drop (length t) dst))
    ∙ drop-overwrite t dst 256 short (omega arith)

drop-read_loop :
    (fuel : ℕ) (read : ℕ → ℕ → Option (List ℕ)) (addr size : ℕ) (dst : List ℕ)
    → 256 ≤ length dst
    → drop 256 (read_loop fuel read addr size dst).1 ≡ drop 256 dst
unfolding read_loop
drop-read_loop zero read addr size dst h = refl
drop-read_loop (suc fuel) read addr size dst h = elim (Bool-cases (size == 0)) [
  | inl e ↦ rw (read_loop, e)
  | inr e ↦
      rw (read_loop, e)
        (drop-after_read (read addr (aligned (page_length size))) (page_length size) dst
          (read_loop fuel read (addr + page_length size) (size - page_length size)) (ground arith) h
          (λ d k. drop-read_loop fuel read _ _ d k))
]

-- Whatever the flash gives, a read into memory of at least 256 bytes leaves what is behind the
-- first 256 of them as it is, however many bytes it is asked for.
pub drop-fs_hal_read :
    (read : ℕ → ℕ → Option (List ℕ)) (addr size : ℕ) (dst : List ℕ)
    → 256 ≤ length dst
    → drop 256 (fs_hal_read read addr size dst).1 ≡ drop 256 dst
unfolding fs_hal_read
drop-fs_hal_read read addr size dst h = drop-read_loop size read addr size dst h

write_loop_done :
    (fuel : ℕ) (write : ℕ → List ℕ → Bool) (addr size : ℕ) (src buffer : List ℕ)
    → size ≡ 0
    → write_loop fuel write addr size src buffer ≡ (true, [])
unfolding write_loop
write_loop_done zero write addr size src buffer e = refl
write_loop_done (suc fuel) write addr size src buffer e = rw e refl

page_eq :
    (size : ℕ) (src buffer : List ℕ)
    → size % 4 ≡ 0
    → size ≤ length src
    → take (aligned size) (copy_to buffer (take size src)) ≡ take size src
page_eq size src buffer m k =
    ap (λ i. take i (copy_to buffer (take size src))) {x = aligned size}
      {y = length (take size src)} (omega (arith, length-take size src))
    ∙ take-length-append (take size src) _

one_page :
    (ok : Bool) (addr : ℕ) (page : List ℕ)
    → ◌≡◌ {A = Bool × List (ℕ × List ℕ)}
        (if ok then (true, (addr, page) ∷ []) else (false, (addr, page) ∷ []))
        (ok, (addr, page) ∷ [])
one_page true addr page = refl
one_page false addr page = refl

-- A write of up to 256 bytes, a positive multiple of four, is one write of these bytes, and
-- succeeds where that one does.
pub fs_hal_write-page :
    (write : ℕ → List ℕ → Bool) (addr size : ℕ) (src buffer : List ℕ)
    → 0 < size
    → size ≤ 256
    → size % 4 ≡ 0
    → size ≤ length src
    → fs_hal_write write addr size src buffer
      ≡ (write addr (take size src), (addr, take size src) ∷ [])
unfolding fs_hal_write write_loop
fs_hal_write-page write addr zero src buffer p h m k = absurd (omega arith)
fs_hal_write-page write addr (suc n) src buffer p h m k =
    rw
      (
        fs_hal_write,
        write_loop,
        page_length_eq (suc n) h,
        suc_not_zero n,
        write_loop_done n write (addr + suc n) (suc n - suc n) src _ (omega arith),
        page_eq (suc n) src buffer m k,
      )
      (one_page (write addr (take (suc n) src)) addr (take (suc n) src))
