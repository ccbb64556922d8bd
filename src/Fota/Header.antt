-- ===== src/Fota/Header.antt =====
-- The header of an answer, however the packets cut it, in esp8266/app/fota.cpp.
use mathlib.Core.Path.{subst}
use esp8266_xcode.Base.{
  ℕ, suc, ◌≤◌, ◌<◌, ◌^◌, List, [], ◌∷◌, ◌++◌, Option, none, some, ltb, ◌≡◌, refl, sym, ap, ap₂, ◌∙◌,
  arith, length, take, drop, All, Bool-cases, inl, inr, length-append, length-drop, append_assoc,
  take-length-append,
}
use esp8266_xcode.Base.Int.{pos}
use esp8266_xcode.Ota.{Event}
use esp8266_xcode.Ota.Flash.{image}
use esp8266_xcode.Fota.{Context, Bin, find, header_end, recv_body, recv_rest, fota_recv}
use esp8266_xcode.Fota.Find.{find-take}
use esp8266_xcode.Fota.Body.{body, recv_body-size}
use esp8266_xcode.Fota.Packet.{
  IsHead, cut, recv_known-body, recv_known_inside, recv_known_end, recv_rest-size, recv_rest-body,
}

-- All packets of a connection, in order.
unfoldable pub recv_all :
    Bin → ℕ → ℕ → Option Context → List (List ℕ) → Option (Option Context × List Event)
recv_all bin ota1 ota2 c [] = some (c, [])
recv_all bin ota1 ota2 c (p ∷ ps) = elim (fota_recv bin ota1 ota2 c p) [
  | none ↦ none
  | some (c', events) ↦ elim (recv_all bin ota1 ota2 (some c') ps) [
    | none ↦ none
    | some (c'', later) ↦ some (c'', events ++ later)
  ]
]

-- Behind the header, every packet is one of the body.
recv_all-body :
    (bin : Bin) (ota1 ota2 n : ℕ) (c : Context) (ps : List (List ℕ))
    → c.image.size ≡ pos (suc n)
    → recv_all bin ota1 ota2 (some c) ps ≡ some (some (body c ps).0, (body c ps).1)
unfolding recv_all fota_recv body
recv_all-body bin ota1 ota2 n c [] h = refl
recv_all-body bin ota1 ota2 n c (p ∷ ps) h = rw (
  recv_all,
  recv_known-body n c p h,
  recv_all-body bin ota1 ota2 n (recv_body c p).0 ps (recv_body-size c p ∙ h),
)

-- Whatever the packets are, the body is received as packets of a body.
abbrev pub AsBody :
    ℕ → Context → List ℕ → List (List ℕ) → Option (Option Context × List Event) → Type 0
AsBody n c bytes ps o =
    (qs : List (List ℕ)) × (image qs ≡ bytes)
    × ((m : ℕ) → All (λ p. length p ≤ m) ps → All (λ p. length p ≤ m) qs)
    × (o
        ≡ some (
          some (body (record { image = record c.image { size = pos (suc n) }; header = [] }) qs).0,
          (body (record { image = record c.image { size = pos (suc n) }; header = [] }) qs).1,
        ))

-- The packet in which the header ends, and those behind it.
header_ends :
    (bin : Bin) (ota1 ota2 n : ℕ) (c : Context) (more r head : List ℕ) (ps : List (List ℕ))
    → IsHead (suc n) head
    → head ≡ c.header ++ more
    → c.image.size ≡ pos 0
    → suc n < 2 ^ 31
    → AsBody n c
        (r ++ image ps)
        ((more ++ r) ∷ ps)
        (recv_all bin ota1 ota2 (some c) ((more ++ r) ∷ ps))
unfolding recv_all fota_recv
header_ends bin ota1 ota2 n c more r head ps is whole h b =
    let (qs, bytes, small, last, events) = recv_rest-body c (pos (suc n)) r ps in
    (
      qs,
      bytes,
      (λ m k. small m (omega (arith, k.0, length-append more r)) k.1),
      rw
          (
            recv_all,
            recv_known_end n c more r head is whole h b,
            recv_all-body bin ota1 ota2 n (recv_rest c (pos (suc n)) r).0 ps
                (recv_rest-size c (pos (suc n)) r),
          )
          (ap₂ (λ d es. some (some d, es)) last events),
    )

-- A packet before has sent nothing.
inside-AsBody :
    (n : ℕ) (c : Context) (bytes p : List ℕ) (ps : List (List ℕ))
    (o : Option (Option Context × List Event))
    → AsBody n c bytes ps o
    → AsBody n c bytes (p ∷ ps) (elim o as (λ o. Option (Option Context × List Event)) [
      | none ↦ none
      | some (d, later) ↦ some (d, [] ++ later)
    ])
inside-AsBody n c bytes p ps o (qs, text, small, e) = (qs, text, (λ m k. small m k.1), rw e)

find_inside :
    (n : ℕ) (front back head : List ℕ)
    → IsHead (suc n) head
    → head ≡ front ++ back
    → 0 < length back
    → find header_end front ≡ none
find_inside n front back head is whole lt =
    ap (λ t. find header_end t)
      (sym (ap (λ t. take (length front) t) whole ∙ take-length-append front back))
    ∙ find-take header_end head is.end_at (length front) is.first_end
        (omega (arith, is.ends, ap length whole, length-append front back))

-- The packets from one inside the header on.
pub recv_all-AsBody :
    (bin : Bin) (ota1 ota2 n : ℕ) (c : Context) (more bytes head : List ℕ) (ps : List (List ℕ))
    → IsHead (suc n) head
    → head ≡ c.header ++ more
    → 0 < length more
    → c.image.size ≡ pos 0
    → image ps ≡ more ++ bytes
    → suc n < 2 ^ 31
    → AsBody n c bytes ps (recv_all bin ota1 ota2 (some c) ps)
unfolding recv_all fota_recv image
recv_all-AsBody bin ota1 ota2 n c more bytes head [] is whole lt h e b =
    absurd (omega (arith, ap length e, length-append more bytes))
recv_all-AsBody bin ota1 ota2 n c more bytes head (p ∷ ps) is whole lt h e b =
    elim (Bool-cases (ltb (length p) (length more))) [
      | inl inside ↦
          let shorter : length p < length more = ground (arith, inside) in
          let (front, later) = cut p (image ps) more bytes e (omega (arith, shorter)) in
          let more' = drop (length p) more in
          let whole' : head ≡ (c.header ++ p) ++ more' =
            whole ∙ ap (λ t. c.header ++ t) front ∙ sym (append_assoc c.header p more') in
          let lt' : 0 < length more' = omega (arith, length-drop (length p) more, shorter) in
          let c' : Context = record c { header = c.header ++ p } in
          rw
            (
              recv_all,
              recv_known_inside c p h (find_inside n (c.header ++ p) more' head is whole' lt'),
            )
            (inside-AsBody n c bytes p ps (recv_all bin ota1 ota2 (some c') ps)
              (recv_all-AsBody bin ota1 ota2 n c' more' bytes head ps is whole' lt' h later b))
      | inr ends ↦
          let (front, rest) = cut more bytes p (image ps) (sym e) (ground (arith, ends)) in
          subst (λ q. AsBody n c bytes (q ∷ ps) (recv_all bin ota1 ota2 (some c) (q ∷ ps)))
            (sym front)
            (subst
              (λ t.
                AsBody n c t ((more ++ drop (length more) p) ∷ ps)
                  (recv_all bin ota1 ota2 (some c) ((more ++ drop (length more) p) ∷ ps)))
              (sym rest)
              (header_ends bin ota1 ota2 n c more (drop (length more) p) head ps is whole h b))
    ]
