-- ===== src/Uart/Loopback/Queue.antt =====
-- A byte that the receiver of esp8266/app/uart.c has read goes to the end of the queue.
use esp8266_xcode.Base.{
  ℕ, zero, suc, ◌+◌, ◌<◌, List, [], ◌∷◌, ◌++◌, false, leb, ◌≡◌, refl, ap, ap₂, ◌∙◌, arith, set,
  get_or, ◌≢◌, length-set,
}
use esp8266_xcode.Uart.{Uart, advance, available}
use esp8266_xcode.Uart.Valid.{IsValid, next_byte-IsValid}
use esp8266_xcode.Uart.Ring.{
  contents, window, moved, available-moved, available-next_byte, contents-next_byte,
}
use esp8266_xcode.Uart.Loopback.Bytes.{receive, get_or-set}

get_or-set_ne : (xs : List ℕ) (i j v : ℕ) → i ≢ j → get_or (set xs i v) j 0 ≡ get_or xs j 0
get_or-set_ne [] i j v h = refl
get_or-set_ne (x ∷ xs) zero zero v h = absurd (h refl)
get_or-set_ne (x ∷ xs) zero (suc j) v h = refl
get_or-set_ne (x ∷ xs) (suc i) zero v h = refl
get_or-set_ne (x ∷ xs) (suc i) (suc j) v h = get_or-set_ne xs i j v (λ e. h (ap suc e))

available_ne : (u : Uart) (n : ℕ) → available u ≡ suc n → u.head ≢ u.tail
unfolding available
available_ne u n e p = ground arith

-- The place at `head` holds none of the bytes that wait.
window-set :
    (n : ℕ) (u : Uart) (v : ℕ)
    → u.head < u.buffer_size
    → u.tail < u.buffer_size
    → available u ≡ n
    → window (set u.buffer u.head v) u.buffer_size u.tail n ≡ window u.buffer u.buffer_size u.tail n
window-set zero u v h t e = refl
window-set (suc n) u v h t e =
    let ne = available_ne u n e in
    ap (λ x. x ∷ window (set u.buffer u.head v) u.buffer_size (advance u.tail u.buffer_size) n)
      (get_or-set_ne u.buffer u.head u.tail v ne)
    ∙ ap (λ l. get_or u.buffer u.tail 0 ∷ l)
        (window-set n (moved u) v h (ground arith) (available-moved u n h t e))

written : Uart → ℕ → Uart
written u c = record u { buffer = set u.buffer u.head c }

written-IsValid : (u : Uart) (c : ℕ) → IsValid u → IsValid (written u c)
unfolding written
written-IsValid u c v = ground (arith, length-set u.buffer u.head c)

contents-written : (u : Uart) (c : ℕ) → IsValid u → contents (written u c) ≡ contents u
unfolding contents written available
contents-written u c v = window-set (available u) u c v.head_in v.tail_in refl

pub receive-IsValid : (u : Uart) (c : ℕ) → IsValid u → IsValid (receive u c)
unfolding written
receive-IsValid u c v = next_byte-IsValid (written u c) (written-IsValid u c v)

pub available-receive :
    (u : Uart) (c : ℕ)
    → IsValid u
    → available u + 1 < u.buffer_size
    → available (receive u c) ≡ available u + 1
unfolding written available
available-receive u c v h =
    let t : leb u.buffer_size (available u + 1) ≡ false = ground arith in
    available-next_byte (written u c) v.head_in v.tail_in ∙ rw t

pub contents-receive :
    (u : Uart) (c : ℕ)
    → IsValid u
    → available u + 1 < u.buffer_size
    → contents (receive u c) ≡ contents u ++ (c ∷ [])
unfolding written available
contents-receive u c v h =
    let t : leb u.buffer_size (available u + 1) ≡ false = ground arith in
    contents-next_byte (written u c) (written-IsValid u c v)
    ∙ rw t (
        ap₂ (λ l x. l ++ (x ∷ [])) (contents-written u c v)
          (get_or-set u.buffer u.head c 0 (omega (arith, v.head_in, v.size))))
