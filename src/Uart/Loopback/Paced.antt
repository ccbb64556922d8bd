-- ===== src/Uart/Loopback/Paced.antt =====
-- What the sender of esp8266/app/uart.c does in a frame, as levels one bit time apart.
use native.Mathlib.Nat.{zero-mul, suc-mul}
use esp8266_xcode.Base.{
  ℕ, zero, suc, ◌+◌, ◌*◌, ◌/◌, ◌%◌, ◌^◌, ◌<◌, List, [], ◌∷◌, ◌++◌, Bool, true, false, not,
  if◌then◌else◌, ◌≡◌, refl, ap, ap₂, sym, ◌∙◌, arith, length, ◌==◌, replicate, length-replicate,
  append_assoc, Bool-cases, inl, inr,
}
use esp8266_xcode.Uart.{Uart, u32}
use esp8266_xcode.Uart.Frame.{
  Output, wait_until, level, bit_of, popcount, send_bits, send_parity, has_parity, send_stop,
  send_byte,
}
use esp8266_xcode.Uart.Loopback.{times}
use esp8266_xcode.Uart.Loopback.Bytes.{bits8}
use esp8266_xcode.Uart.Loopback.Frames.{paced}

pub parity_bits : ℕ → ℕ → List Bool
parity_bits parity c =
    if parity == b'E'
    then (popcount c % 2 == 1) ∷ []
    else if parity == b'O'
    then not (popcount c % 2 == 1) ∷ []
    else []

paced-append :
    (now baud : ℕ) (xs ys : List Bool)
    → paced now baud (xs ++ ys) ≡ paced now baud xs ++ paced (now + times baud (length xs)) baud ys
paced-append now baud [] ys = ap (λ n. paced n baud ys) {x = now} {y = now + 0} (omega arith)
paced-append now baud (x ∷ xs) ys =
    ap (λ o. wait_until (now + baud) ∷ level x ∷ o)
      (paced-append (now + baud) baud xs ys
        ∙ ap (λ n. paced (now + baud) baud xs ++ paced n baud ys)
            {x = now + baud + times baud (length xs)} {y = now + times baud (suc (length xs))}
            (omega arith))

bits_from : ℕ → ℕ → ℕ → List Bool
bits_from zero i c = []
bits_from (suc left) i c = bit_of c i ∷ bits_from left (i + 1) c

bits_from-paced :
    (left i c now baud : ℕ)
    → now + times baud left < 2 ^ 32
    → send_bits left i c now baud ≡ paced now baud (bits_from left i c)
unfolding send_bits bits_from
bits_from-paced zero i c now baud h = refl
bits_from-paced (suc left) i c now baud h =
    let e : u32 (now + baud) ≡ now + baud = omega arith in
    ap (λ n. wait_until n ∷ level (bit_of c i) ∷ send_bits left (i + 1) c n baud) e
    ∙ ap (λ o. wait_until (now + baud) ∷ level (bit_of c i) ∷ o)
        (bits_from-paced left (i + 1) c (now + baud) baud (omega arith))

send_bits-paced :
    (c now baud : ℕ)
    → now + times baud 8 < 2 ^ 32
    → send_bits 8 0 c now baud ≡ paced now baud (bits8 c)
unfolding bits_from
send_bits-paced c now baud h = bits_from-paced 8 0 c now baud h

send_parity-paced :
    (parity c now baud : ℕ)
    → now + times baud (length (parity_bits parity c)) < 2 ^ 32
    → send_parity parity c now baud ≡ paced now baud (parity_bits parity c)
unfolding send_parity parity_bits
send_parity-paced parity c now baud h = elim (Bool-cases (parity == b'E')) [
  | inl e ↦
      let h' : now + (baud + 0) < 2 ^ 32 = rw e at h in
      let w : u32 (now + baud) ≡ now + baud = omega arith in rw (e, w)
  | inr e ↦ elim (Bool-cases (parity == b'O')) [
    | inl o ↦
        let h' : now + (baud + 0) < 2 ^ 32 = rw (e, o) at h in
        let w : u32 (now + baud) ≡ now + baud = omega arith in rw (e, o, w)
    | inr o ↦ rw (e, o)
  ]
]

pub length-parity_bits :
    (parity c : ℕ) → length (parity_bits parity c) ≡ (if has_parity parity then 1 else 0)
unfolding parity_bits
length-parity_bits parity c = elim (Bool-cases (parity == b'E')) [
  | inl e ↦ rw e
  | inr e ↦ elim (Bool-cases (parity == b'O')) [ inl o ↦ rw (e, o) | inr o ↦ rw (e, o) ]
]

send_stop-paced :
    (n now baud : ℕ)
    → now + times baud n < 2 ^ 32
    → send_stop n now baud ≡ paced now baud (replicate n true)
unfolding send_stop
send_stop-paced zero now baud h = refl
send_stop-paced (suc n) now baud h =
    let e : u32 (now + baud) ≡ now + baud = omega arith in
    ap (λ t. wait_until t ∷ level true ∷ send_stop n t baud) e
    ∙ ap (λ o. wait_until (now + baud) ∷ level true ∷ o)
        (send_stop-paced n (now + baud) baud (omega arith))

pub times-mul : (baud n : ℕ) → times baud n ≡ n * baud
times-mul baud zero = sym (zero-mul baud)
times-mul baud (suc n) = omega (arith, times-mul baud n, suc-mul n baud)

-- The bits of a frame behind the start bit.
abbrev pub frame_bits : Uart → ℕ → List Bool
frame_bits u c = bits8 c ++ (parity_bits u.parity c ++ replicate u.stop true)

abbrev pub end_of : Uart → ℕ → ℕ → ℕ
end_of u c now =
    now + times u.baud_cycle (length (frame_bits u c)) + (u.baud_cycle + u.baud_cycle / 2)

paced-three :
    (now baud : ℕ) (xs ys zs : List Bool) (r : List Output)
    → paced now baud (xs ++ (ys ++ zs)) ++ r
      ≡ paced now baud xs
        ++ (paced (now + times baud (length xs)) baud ys
            ++ (paced (now + times baud (length xs) + times baud (length ys)) baud zs ++ r))
paced-three now baud xs ys zs r = simp (paced-append, append_assoc)

frame-paced :
    (parity stop c now baud t1 t2 : ℕ) (r : List Output)
    → t1 ≡ now + times baud 8
    → t2 ≡ t1 + times baud (length (parity_bits parity c))
    → t2 + times baud stop < 2 ^ 32
    → send_bits 8 0 c now baud ++ (send_parity parity c t1 baud ++ (send_stop stop t2 baud ++ r))
      ≡ paced now baud (bits8 c ++ (parity_bits parity c ++ replicate stop true)) ++ r
frame-paced parity stop c now baud t1 t2 r e1 e2 h =
    ap₂
      (λ a b.
        send_bits 8 0 c now baud ++ (send_parity parity c a baud ++ (send_stop stop b baud ++ r)))
      e1 (e2 ∙ ap (λ a. a + times baud (length (parity_bits parity c))) e1)
    ∙ ap₂ (λ a b. send_bits 8 0 c now baud ++ (a ++ (b ++ r)))
        (send_parity-paced parity c (now + times baud 8) baud (omega arith))
        (send_stop-paced stop (now + times baud 8 + times baud (length (parity_bits parity c))) baud
          (omega arith))
    ∙ ap
        (λ a.
          a
          ++ (paced (now + times baud 8) baud (parity_bits parity c)
              ++ (paced (now + times baud 8 + times baud (length (parity_bits parity c))) baud
                    (replicate stop true)
                  ++ r)))
        (send_bits-paced c now baud (omega arith))
    ∙ sym (paced-three now baud (bits8 c) (parity_bits parity c) (replicate stop true) r)

times-append :
    (baud : ℕ) (xs ys : List Bool)
    → times baud (length (xs ++ ys)) ≡ times baud (length xs) + times baud (length ys)
times-append baud [] ys = omega arith
times-append baud (x ∷ xs) ys = omega (arith, times-append baud xs ys)

after_parity_lem :
    (u : Uart) (c t : ℕ)
    → t + u.baud_cycle < 2 ^ 32
    → (if has_parity u.parity then u32 (t + u.baud_cycle) else t)
      ≡ t + times u.baud_cycle (length (parity_bits u.parity c))
after_parity_lem u c t h = elim (Bool-cases (has_parity u.parity)) [
  | inl e ↦ rw (length-parity_bits u.parity c, e) (omega arith)
  | inr e ↦ rw (length-parity_bits u.parity c, e) (omega arith)
]

pub send_byte-paced :
    (u : Uart) (c now : ℕ)
    → end_of u c now < 2 ^ 32
    → send_byte u c now ≡ (
      level false ∷ (paced now u.baud_cycle (frame_bits u c) ++ (wait_until (end_of u c now) ∷ [])),
      end_of u c now,
    )
unfolding send_byte
send_byte-paced u c now h =
    let baud = u.baud_cycle in
    let t1 = u32 (now + 8 * baud) in
    let t2 = (if has_parity u.parity then u32 (t1 + baud) else t1) in
    let k = times-append baud (parity_bits u.parity c) (replicate u.stop true) in
    let n = ap (times baud) (length-replicate u.stop true) ∙ times-mul baud u.stop in
    let m = times-mul baud u.stop in
    let e1 : t1 ≡ now + times baud 8 = omega arith in
    let e2 : t2 ≡ t1 + times baud (length (parity_bits u.parity c)) =
      after_parity_lem u c t1 (omega arith) in
    let e3 : u32 (t2 + u.stop * baud + (baud + baud / 2)) ≡ end_of u c now = omega arith in
    ap
      (λ e. (
        level false
            ∷ (send_bits 8 0 c now baud
                ++ (send_parity u.parity c t1 baud
                    ++ (send_stop u.stop t2 baud ++ (wait_until e ∷ [])))),
        e,
      ))
      e3
    ∙ ap (λ l. (level false ∷ l, end_of u c now))
        (frame-paced u.parity u.stop c now baud t1 t2 (wait_until (end_of u c now) ∷ []) e1 e2
          (omega arith))
