-- ===== src/Uart/Ring.antt =====
-- The ring of received bytes of esp8266/app/uart.c as a queue.
use esp8266_xcode.Base.{
  ℕ, zero, suc, ◌+◌, ◌-◌, ◌≤◌, ◌<◌, List, [], ◌∷◌, ◌++◌, Option, none, some, ◌≡◌, refl, ap, sym,
  ◌∙◌, arith, ltb, leb, if◌then◌else◌, length, get_or, min, Bool-cases, inl, inr,
}
use native.Mathlib.Numerals.{add-one}
use esp8266_xcode.Uart.{Uart, advance, next_byte, available, take_bytes, recv_into}
use esp8266_xcode.Uart.Valid.{IsValid, recv_into-IsValid}

-- The `n` bytes from index `t` on, going round at `size`.
abbrev pub window : List ℕ → ℕ → ℕ → ℕ → List ℕ
window buf size t zero = []
window buf size t (suc n) = get_or buf t 0 ∷ window buf size (advance t size) n

-- The bytes that have not been read, oldest first.
unfoldable pub contents : Uart → List ℕ
contents u = window u.buffer u.buffer_size u.tail (available u)

length-window : (buf : List ℕ) (size t n : ℕ) → length (window buf size t n) ≡ n
length-window buf size t zero = refl
length-window buf size t (suc n) = ap suc (length-window buf size (advance t size) n)

abbrev pub moved : Uart → Uart
moved u = record u { tail = advance u.tail u.buffer_size }

pub available-moved :
    (u : Uart) (n : ℕ)
    → u.head < u.buffer_size
    → u.tail < u.buffer_size
    → available u ≡ suc n
    → available (moved u) ≡ n
unfolding available
available-moved u n h t e = ground arith

available-lt :
    (u : Uart) → u.head < u.buffer_size → u.tail < u.buffer_size → available u < u.buffer_size
unfolding available
available-lt u h t = ground arith

-- Reading takes the oldest bytes off the queue.
take_bytes-contents :
    (n : ℕ) (u : Uart)
    → u.head < u.buffer_size
    → u.tail < u.buffer_size
    → n ≤ available u
    → contents u ≡ (take_bytes n u).0 ++ contents (take_bytes n u).1
unfolding take_bytes contents
take_bytes-contents zero u h t k = refl
take_bytes-contents (suc n) u h t k =
    let e : available u ≡ suc (available u - 1) = omega arith in
    let m = available-moved u (available u - 1) h t e in
    ap (window u.buffer u.buffer_size u.tail) (e ∙ ap suc (sym m))
    ∙ ap (λ l. get_or u.buffer u.tail 0 ∷ l)
        (take_bytes-contents n (moved u) h (ground arith) (omega (arith, m)))

length-take_bytes : (n : ℕ) (u : Uart) → length (take_bytes n u).0 ≡ n
unfolding take_bytes
length-take_bytes zero u = refl
length-take_bytes (suc n) u = ap suc (length-take_bytes n (moved u))

-- What a call of `uart_recv` by interrupts gives: with a buffer the oldest bytes, as many as fit,
-- which leave the queue; with a null pointer their number.
abbrev pub Received : Uart → Option ℕ → ℕ × List ℕ × Uart → Type 0
Received u none (n, bytes, u') = (n ≡ length (contents u)) × (bytes ≡ []) × (u' ≡ u)
Received u (some len) (n, bytes, u') =
    (n ≡ min len (length (contents u)))
    × (length bytes ≡ n)
    × (contents u ≡ bytes ++ contents u')
    × IsValid u'

pub recv_into-Received : (u : Uart) (len : ℕ) → IsValid u → Received u (some len) (recv_into u len)
unfolding recv_into contents
recv_into-Received u len v =
    let n = if ltb len (available u) then len else available u in
    (
      ground (arith, length-window u.buffer u.buffer_size u.tail (available u)),
      length-take_bytes n u,
      take_bytes-contents n u v.head_in v.tail_in (ground arith),
      recv_into-IsValid u len v,
    )

snoc :
    (n : ℕ) (u : Uart)
    → u.head < u.buffer_size
    → u.tail < u.buffer_size
    → available u ≡ n
    → window u.buffer u.buffer_size u.tail (suc n)
      ≡ window u.buffer u.buffer_size u.tail n ++ (get_or u.buffer u.head 0 ∷ [])
snoc zero u h t e = ap (λ i. get_or u.buffer i 0 ∷ []) (unfold available in ground arith)
snoc (suc n) u h t e =
    ap (λ l. get_or u.buffer u.tail 0 ∷ l)
      (snoc n (moved u) h (ground arith) (available-moved u n h t e))

pub available-next_byte :
    (u : Uart)
    → u.head < u.buffer_size
    → u.tail < u.buffer_size
    → available (next_byte u) ≡ (if leb u.buffer_size (available u + 1) then 0 else available u + 1)
unfolding available
available-next_byte u h t = ground arith

-- From a valid receiver, the end of a frame puts the byte at head at the end of the queue of the
-- bytes that wait. The ring has room for one byte less than its size: where it was full, the
-- queue is empty afterwards.
pub contents-next_byte :
    (u : Uart)
    → IsValid u
    → contents (next_byte u) ≡ (
        if leb u.buffer_size (available u + 1)
        then []
        else contents u ++ (get_or u.buffer u.head 0 ∷ []))
unfolding contents
contents-next_byte u v = elim (Bool-cases (leb u.buffer_size (available u + 1))) [
  | inl e ↦ rw (available-next_byte u v.head_in v.tail_in, e)
  | inr e ↦
      rw (available-next_byte u v.head_in v.tail_in, e)
        (ap (window u.buffer u.buffer_size u.tail) (add-one (available u))
          ∙ snoc (available u) u v.head_in v.tail_in refl)
]
