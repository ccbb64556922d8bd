-- ===== src/Fota/Body.antt =====
-- The packets behind the header, in esp8266/app/fota.cpp: they write what esp8266/app/ota.c writes.
use esp8266_xcode.Base.{
  ℕ, ◌+◌, List, [], ◌∷◌, ◌++◌, Option, none, some, Bool, true, false, ◌||◌, ◌==◌, ◌≡◌, refl, sym,
  ap, ap₂, ◌∙◌, arith, length, if◌then◌else◌, ◌≤◌, ◌<◌, length-append, Bool-cases, inl, inr,
}
use esp8266_xcode.Base.Int.{pos}
use esp8266_xcode.Ota
use esp8266_xcode.Ota.{
  Event, Flag, upgrade_init, flag_set, erase_sector, upgrade, sent, disconnect, upgrade_deinit,
  reboot, idle, start, finish, is_int, ok_text, upgrade_packet, ota_tcp_recv, is_finish,
}
use esp8266_xcode.Ota.Flash.{
  written, flash, receive, image, written-append, flash-append, continue, ota_tcp_recv-Follows,
  Follows,
}
use esp8266_xcode.Fota.{Context, recv_body, finish_of}

-- The two lists of events do the same to the flash.
abbrev pub SameFlash : List Event → List Event → Type 0
SameFlash xs ys = (written xs ≡ written ys) × ((a f : ℕ) → flash a f xs ≡ flash a f ys)

SameFlash-append :
    (xs ys xs' ys' : List Event)
    → SameFlash xs ys
    → SameFlash xs' ys'
    → SameFlash (xs ++ xs') (ys ++ ys')
SameFlash-append xs ys xs' ys' h k = (
  written-append xs xs' ∙ ap₂ ◌++◌ (h.0) (k.0) ∙ sym (written-append ys ys'),
  λ a f.
      flash-append a f xs xs'
      ∙ ap (continue xs') (h.1 a f)
      ∙ same (flash a f ys)
      ∙ sym (flash-append a f ys ys'),
)
  where
    same : (o : Option (ℕ × ℕ)) → continue xs' o ≡ continue ys' o
    same none = refl
    same (some (a, f)) = k.1 a f

finish-SameFlash : (i : Ota.Context) → SameFlash (finish_of i) (sent ok_text ∷ [])
unfolding written flash
finish-SameFlash i =
    elim (is_int i.size i.offset)
      as (λ b.
        SameFlash (if b then flag_set finish ∷ disconnect ∷ [] else []) (sent ok_text ∷ [])) [
          | true ↦ (refl, λ a f. refl)
          | false ↦ (refl, λ a f. refl)
        ]

recv_body-ota_tcp_recv :
    (c : Context) (p : List ℕ)
    → ((recv_body c p).0 ≡ record c { image = (ota_tcp_recv c.image p).0 })
      × SameFlash (recv_body c p).1 (ota_tcp_recv c.image p).1
unfolding recv_body ota_tcp_recv
recv_body-ota_tcp_recv c p =
    let (i, events) = upgrade_packet c.image p in
    (
      refl,
      SameFlash-append events events (finish_of i) (sent ok_text ∷ []) (refl, λ a f. refl)
          (finish-SameFlash i),
    )

-- All packets behind the header.
unfoldable pub body : Context → List (List ℕ) → Context × List Event
body c [] = (c, [])
body c (p ∷ ps) =
    let (c', events) = recv_body c p in let (c'', later) = body c' ps in (c'', events ++ later)

pub body-receive :
    (c : Context) (ps : List (List ℕ))
    → ((body c ps).0 ≡ record c { image = (receive c.image ps).0 })
      × SameFlash (body c ps).1 (receive c.image ps).1
unfolding body receive recv_body ota_tcp_recv
body-receive c [] = (refl, (refl, λ a f. refl))
body-receive c (p ∷ ps) =
    let (next, same) = recv_body-ota_tcp_recv c p in
    let (last, later) = body-receive (recv_body c p).0 ps in
    (last, SameFlash-append _ _ _ _ same later)

-- Is the upgrade finished?
unfoldable pub finishes : List Event → Bool
finishes [] = false
finishes (flag_set f ∷ es) = is_finish f || finishes es
finishes (_ ∷ es) = finishes es

finishes-append : (xs ys : List Event) → finishes (xs ++ ys) ≡ finishes xs || finishes ys
unfolding finishes
finishes-append [] ys = refl
finishes-append (flag_set idle ∷ xs) ys = finishes-append xs ys
finishes-append (flag_set start ∷ xs) ys = finishes-append xs ys
finishes-append (flag_set finish ∷ xs) ys = refl
finishes-append (upgrade_init ∷ xs) ys = finishes-append xs ys
finishes-append (erase_sector e ∷ xs) ys = finishes-append xs ys
finishes-append (upgrade d ∷ xs) ys = finishes-append xs ys
finishes-append (sent d ∷ xs) ys = finishes-append xs ys
finishes-append (disconnect ∷ xs) ys = finishes-append xs ys
finishes-append (upgrade_deinit ∷ xs) ys = finishes-append xs ys
finishes-append (reboot ∷ xs) ys = finishes-append xs ys

finishes-upgrade_packet : (i : Ota.Context) (p : List ℕ) → finishes (upgrade_packet i p).1 ≡ false
unfolding finishes upgrade_packet
finishes-upgrade_packet i p = ground arith

finishes-finish_of :
    (i : Ota.Context) (n : ℕ) → i.size ≡ pos n → finishes (finish_of i) ≡ (n == i.offset)
unfolding finishes
finishes-finish_of i n h = ground (arith, h)

recv_body-Follows :
    (base n : ℕ) (c : Context) (p : List ℕ)
    → Follows base n c.image
    → Follows base (n + length p) (recv_body c p).0.image
      × ((recv_body c p).0.image.size ≡ c.image.size)
unfolding recv_body ota_tcp_recv
recv_body-Follows base n c p f = ota_tcp_recv-Follows base n c.image p f

-- The size stays as it was announced.
pub recv_body-size : (c : Context) (p : List ℕ) → (recv_body c p).0.image.size ≡ c.image.size
unfolding recv_body upgrade_packet
recv_body-size c p = ground arith

-- After this packet the upgrade is finished if all bytes have come.
finishes-recv_body :
    (base n : ℕ) (c : Context) (p : List ℕ)
    → Follows base c.image.offset c.image
    → c.image.size ≡ pos n
    → finishes (recv_body c p).1 ≡ (n == c.image.offset + length p)
unfolding recv_body
finishes-recv_body base n c p f h =
    let (next, size) = recv_body-Follows base c.image.offset c p f in
    finishes-append (upgrade_packet c.image p).1 (finish_of (upgrade_packet c.image p).0)
    ∙ rw (finishes-upgrade_packet c.image p)
        (finishes-finish_of (upgrade_packet c.image p).0 n (size ∙ h) ∙ ap (λ m. n == m) (next.0))

-- The upgrade is finished if as many bytes have come as are announced.
pub finishes-body :
    (base n : ℕ) (c : Context) (ps : List (List ℕ))
    → Follows base c.image.offset c.image
    → c.image.size ≡ pos n
    → c.image.offset < n
    → c.image.offset + length (image ps) ≤ n
    → finishes (body c ps).1 ≡ (n == c.image.offset + length (image ps))
unfolding body image finishes
finishes-body base n c [] f h lt le = ground arith
finishes-body base n c (p ∷ ps) f h lt le =
    let (next, size) = recv_body-Follows base c.image.offset c p f in
    finishes-append (recv_body c p).1 (body (recv_body c p).0 ps).1
    ∙ elim (Bool-cases (n == c.image.offset + length p)) [
      | inl all ↦
          rw (finishes-recv_body base n c p f h, all)
            (ground (arith, all, length-append p (image ps)))
      | inr more ↦
          rw (finishes-recv_body base n c p f h, more)
            (finishes-body base n (recv_body c p).0 ps (ground (arith, next)) (size ∙ h)
                (ground (arith, next, more, length-append p (image ps)))
                (omega (arith, next, length-append p (image ps)))
              ∙ ap (λ m. n == m) (omega (arith, next, length-append p (image ps))))
    ]
