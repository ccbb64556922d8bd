-- ===== src/Ota/Flash.antt =====
-- What reaches the flash when esp8266/app/ota.c receives an image in packets.
use esp8266_xcode.Base.{
  ℕ, ◌+◌, ◌-◌, ◌/◌, ◌≤◌, List, [], ◌∷◌, ◌++◌, Option, none, some, ◌==◌, ltb, leb, if◌then◌else◌,
  length, length-append, length-drop, drop, drop_of_length_le, drop-append, All, ◌≡◌, refl, sym, ap,
  ap₂, ◌∙◌, arith, append_assoc, append-nil,
}
use esp8266_xcode.Base.Int.{ℤ}
use esp8266_xcode.Ota.{
  finish, Event, upgrade_init, flag_set, erase_sector, upgrade, sent, disconnect, upgrade_deinit,
  reboot, sec_size, Context, init_context, upgrade_packet, ota_tcp_recv, ota_tcp_send, is_int,
  ok_text,
}

-- The bytes that `system_upgrade` is given, in order: it writes them one behind the other.
unfoldable pub written : List Event → List ℕ
written [] = []
written (upgrade d ∷ es) = d ++ written es
written (_ ∷ es) = written es

-- A flash that is written from `address` on, with the sectors below `frontier` erased. A write
-- must end below the frontier, and only the sector at the frontier may be erased: so no byte goes
-- to a sector that is not erased, and no written sector is erased again. `none` is a violation.
unfoldable pub flash : ℕ → ℕ → List Event → Option (ℕ × ℕ)
flash address frontier [] = some (address, frontier)
flash address frontier (erase_sector s ∷ es) =
    let next = flash address (frontier + 1) es in if s == frontier then next else none
flash address frontier (upgrade d ∷ es) =
    let next = flash (address + length d) frontier es in
    if ltb ((address + length d) / sec_size) frontier then next else none
flash address frontier (_ ∷ es) = flash address frontier es

-- All packets of a connection, in order.
unfoldable pub receive : Context → List (List ℕ) → Context × List Event
receive c [] = (c, [])
receive c (p ∷ ps) =
    let (c', events) = ota_tcp_recv c p in
    let (c'', later) = receive c' ps in (c'', events ++ later)

unfoldable pub image : List (List ℕ) → List ℕ
image [] = []
image (p ∷ ps) = p ++ image ps

pub written-append : (xs ys : List Event) → written (xs ++ ys) ≡ written xs ++ written ys
unfolding written
written-append [] ys = refl
written-append (upgrade d ∷ xs) ys = rw (written-append xs ys, append_assoc)
written-append (upgrade_init ∷ xs) ys = written-append xs ys
written-append (flag_set f ∷ xs) ys = written-append xs ys
written-append (erase_sector s ∷ xs) ys = written-append xs ys
written-append (sent d ∷ xs) ys = written-append xs ys
written-append (disconnect ∷ xs) ys = written-append xs ys
written-append (upgrade_deinit ∷ xs) ys = written-append xs ys
written-append (reboot ∷ xs) ys = written-append xs ys

abbrev pub continue : List Event → Option (ℕ × ℕ) → Option (ℕ × ℕ)
continue ys none = none
continue ys (some (a, f)) = flash a f ys

pub flash-append :
    (a f : ℕ) (xs ys : List Event) → flash a f (xs ++ ys) ≡ continue ys (flash a f xs)
unfolding flash
flash-append a f [] ys = refl
flash-append a f (upgrade d ∷ xs) ys = ground (arith, flash-append (a + length d) f xs ys)
flash-append a f (upgrade_init ∷ xs) ys = flash-append a f xs ys
flash-append a f (flag_set g ∷ xs) ys = flash-append a f xs ys
flash-append a f (erase_sector s ∷ xs) ys = ground (arith, flash-append a (f + 1) xs ys)
flash-append a f (sent d ∷ xs) ys = flash-append a f xs ys
flash-append a f (disconnect ∷ xs) ys = flash-append a f xs ys
flash-append a f (upgrade_deinit ∷ xs) ys = flash-append a f xs ys
flash-append a f (reboot ∷ xs) ys = flash-append a f xs ys

-- The context agrees with the `n` bytes that have come.
abbrev pub Follows : ℕ → ℕ → Context → Type 0
Follows base n c = (c.offset ≡ n) × (c.address + 0x1000 ≡ base + n)

pub ota_tcp_recv-Follows :
    (base n : ℕ) (c : Context) (p : List ℕ)
    → Follows base n c
    → Follows base (n + length p) (ota_tcp_recv c p).0 × ((ota_tcp_recv c p).0.size ≡ c.size)
unfolding ota_tcp_recv upgrade_packet
ota_tcp_recv-Follows base n c p h = ground (arith, length-drop (0x1000 - c.offset) p)

written-ota_tcp_recv :
    (c : Context) (p : List ℕ)
    → written (ota_tcp_recv c p).1 ≡ (
        if leb 0x1000 c.offset
        then p
        else if leb 0x1000 (c.offset + length p)
        then drop (0x1000 - c.offset) p
        else [])
unfolding ota_tcp_recv upgrade_packet written
written-ota_tcp_recv c p = ground (arith, append-nil p, append-nil (drop (0x1000 - c.offset) p))

-- The flash before a packet: untouched as long as the image's first sector is skipped.
abbrev at_address : ℕ → Context → ℕ
at_address base c = if ltb c.offset 0x1000 then base else c.address

abbrev frontier_of : ℕ → Context → ℕ
frontier_of base c = if ltb c.offset 0x1000 then base / sec_size else c.address / sec_size + 1

flash-ota_tcp_recv :
    (base n : ℕ) (c : Context) (p : List ℕ)
    → Follows base n c
    → length p ≤ sec_size
    → let c' = (ota_tcp_recv c p).0 in
      flash (at_address base c) (frontier_of base c) (ota_tcp_recv c p).1
      ≡ some (at_address base c', frontier_of base c')
unfolding ota_tcp_recv upgrade_packet flash
flash-ota_tcp_recv base n c p h k = ground (arith, length-drop (0x1000 - c.offset) p)

written-packet :
    (c : Context) (p : List ℕ) → written (ota_tcp_recv c p).1 ≡ drop (0x1000 - c.offset) p
written-packet c p = ground (
  arith,
  written-ota_tcp_recv c p,
  drop_of_length_le (0x1000 - c.offset) p,
  ap (λ k. drop k p) (gone c.offset),
)
  where
    gone : (n : ℕ) → 0x1000 - (n + 0x1000) ≡ 0
    gone n = omega arith

pub receive-Follows :
    (ps : List (List ℕ)) (base n : ℕ) (c : Context)
    → Follows base n c
    → Follows base (n + length (image ps)) (receive c ps).0 × ((receive c ps).0.size ≡ c.size)
unfolding receive image
receive-Follows [] base n c h = (omega arith, refl)
receive-Follows (p ∷ ps) base n c h =
    let (h', size) = ota_tcp_recv-Follows base n c p h in
    let (later, size') = receive-Follows ps base (n + length p) (ota_tcp_recv c p).0 h' in
    (
      (omega (arith, length-append p (image ps)), omega (arith, length-append p (image ps))),
      size' ∙ size,
    )

written-receive :
    (ps : List (List ℕ)) (base : ℕ) (c : Context)
    → Follows base c.offset c
    → written (receive c ps).1 ≡ drop (0x1000 - c.offset) (image ps)
unfolding receive image written
written-receive [] base c h = sym (drop_of_length_le (0x1000 - c.offset) [] (omega arith))
written-receive (p ∷ ps) base c h =
    let (h', _) = ota_tcp_recv-Follows base c.offset c p h in
    let c' = (ota_tcp_recv c p).0 in
    written-append (ota_tcp_recv c p).1 (receive c' ps).1
    ∙ ap₂ ◌++◌ (written-packet c p) (written-receive ps base c' (omega arith))
    ∙ ap (λ k. drop (0x1000 - c.offset) p ++ drop k (image ps)) {y = 0x1000 - c.offset - length p}
        (omega arith)
    ∙ sym (drop-append (0x1000 - c.offset) p (image ps))

flash-receive :
    (ps : List (List ℕ)) (base n : ℕ) (c : Context)
    → Follows base n c
    → All (λ p. length p ≤ sec_size) ps
    → let c' = (receive c ps).0 in
      flash (at_address base c) (frontier_of base c) (receive c ps).1
      ≡ some (at_address base c', frontier_of base c')
unfolding receive flash
flash-receive [] base n c h k = refl
flash-receive (p ∷ ps) base n c h k =
    let (h', _) = ota_tcp_recv-Follows base n c p h in
    flash-append _ _ (ota_tcp_recv c p).1 (receive (ota_tcp_recv c p).0 ps).1
    ∙ ap (continue (receive (ota_tcp_recv c p).0 ps).1) (flash-ota_tcp_recv base n c p h k.0)
    ∙ flash-receive ps base (n + length p) (ota_tcp_recv c p).0 h' k.1

pub init-Follows : (addr : ℕ) (size : ℤ) → 0x1000 ≤ addr → Follows addr 0 (init_context addr size)
unfolding init_context
init-Follows addr size h = omega arith

-- For a partition from 0x1000 on, however the image is cut into packets, system_upgrade is given
-- its bytes from 0x1000 on, in order, and the context counts all of them.
pub written-image :
    (addr : ℕ) (size : ℤ) (ps : List (List ℕ))
    → 0x1000 ≤ addr
    → let (c, events) = receive (init_context addr size) ps in
      (written events ≡ drop 0x1000 (image ps)) × (c.offset ≡ length (image ps))
unfolding init_context
written-image addr size ps h =
    let c = init_context addr size in
    (
      written-receive ps addr c (init-Follows addr size h),
      omega (arith, receive-Follows ps addr 0 c (init-Follows addr size h)),
    )

-- For a partition from 0x1000 on, if no packet is longer than a sector, every byte is written,
-- in order, to a sector that was erased before, and no sector is erased again. An image below
-- 0x1000 bytes erases and writes nothing; of a longer one, the last sector erased is the one
-- that the next byte goes to.
pub flash-image :
    (addr : ℕ) (size : ℤ) (ps : List (List ℕ))
    → 0x1000 ≤ addr
    → All (λ p. length p ≤ sec_size) ps
    → let n = length (image ps) in
      flash addr (addr / sec_size) (receive (init_context addr size) ps).1
      ≡ some (
          if ltb n 0x1000
          then (addr, addr / sec_size)
          else (addr + n - 0x1000, (addr + n - 0x1000) / sec_size + 1))
unfolding init_context
flash-image addr size ps h k = ground (
  arith,
  flash-receive ps addr 0 (init_context addr size) (init-Follows addr size h) k,
  receive-Follows ps addr 0 (init_context addr size) (init-Follows addr size h),
)

-- For a partition from 0x1000 on, the upgrade is finished, and the connection closed, when a
-- packet has been sent after as many bytes as were announced, and at no other length.
pub ota_tcp_send-receive :
    (addr : ℕ) (size : ℤ) (ps : List (List ℕ))
    → 0x1000 ≤ addr
    → ota_tcp_send (receive (init_context addr size) ps).0 ≡ (
        if is_int size (length (image ps))
        then flag_set finish ∷ sent ok_text ∷ disconnect ∷ []
        else [])
unfolding ota_tcp_send init_context
ota_tcp_send-receive addr size ps h =
    let (f, s) = receive-Follows ps addr 0 (init_context addr size) (init-Follows addr size h) in
    rw (s, f.0) (rw all refl)
  where
    all : 0 + length (image ps) ≡ length (image ps)
    all = omega arith
