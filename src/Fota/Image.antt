-- ===== src/Fota/Image.antt =====
-- What esp8266/app/fota.cpp makes of an answer, however the packets cut it.
use mathlib.Core.Path.{subst}
use esp8266_xcode.Base.{
  ℕ, suc, ◌+◌, ◌-◌, ◌/◌, ◌≤◌, ◌<◌, ◌^◌, List, [], ◌∷◌, ◌++◌, Option, none, some, ◌==◌, ltb, ◌≡◌,
  refl, sym, ap, ◌∙◌, arith, length, drop, All, if◌then◌else◌, length-append,
}
use esp8266_xcode.Base.Int.{pos}
use esp8266_xcode.Ota.{sec_size, Event, init_context}
use esp8266_xcode.Ota.Flash.{written, flash, image, written-image, flash-image, init-Follows}
use esp8266_xcode.Fota.{Context, Bin, bin1, bin2, new_context, fota_recv}
use esp8266_xcode.Fota.Body.{body, body-receive, finishes, finishes-body}
use esp8266_xcode.Fota.Packet.{IsHead}
use esp8266_xcode.Fota.Header.{recv_all, AsBody, recv_all-AsBody}

-- The partition that is not running.
abbrev pub other_address : Bin → ℕ → ℕ → ℕ
other_address bin1 ota1 ota2 = ota2
other_address bin2 ota1 ota2 = ota1

-- What a connection leaves, for a body of `bytes`: what is written, in sectors that are erased, and
-- whether the upgrade is finished.
abbrev pub Stored : ℕ → ℕ → List ℕ → List (List ℕ) → Option (Option Context × List Event) → Type 0
Stored addr size bytes ps o =
    (c : Context) × (events : List Event) × (o ≡ some (some c, events))
    × (written events ≡ drop 0x1000 bytes)
    × (All (λ p. length p ≤ sec_size) ps
        → flash addr (addr / sec_size) events
          ≡ some (
              if ltb (length bytes) 0x1000
              then (addr, addr / sec_size)
              else (addr + length bytes - 0x1000, (addr + length bytes - 0x1000) / sec_size + 1)))
    × (length bytes ≤ size → finishes events ≡ (size == length bytes))

body-Stored :
    (addr n : ℕ) (bytes : List ℕ) (ps : List (List ℕ)) (o : Option (Option Context × List Event))
    → 0x1000 ≤ addr
    → AsBody n (record { image = init_context addr (pos 0); header = [] }) bytes ps o
    → Stored addr (suc n) bytes ps o
unfolding init_context
body-Stored addr n bytes ps o h (qs, text, small, e) =
    let c : Context = record { image = init_context addr (pos (suc n)); header = [] } in
    let (_, same) = body-receive c qs in
    let count : length (image qs) ≡ length bytes = ap length text in
    (
      (body c qs).0,
      (body c qs).1,
      e,
      same.0 ∙ (written-image addr (pos (suc n)) qs h).0 ∙ ap (λ t. drop 0x1000 t) text,
      (λ k.
          same.1 addr (addr / sec_size)
          ∙ flash-image addr (pos (suc n)) qs h (small sec_size k)
          ∙ ap
              (λ m. some (
                if ltb m 0x1000
                then (addr, addr / sec_size)
                else (addr + m - 0x1000, (addr + m - 0x1000) / sec_size + 1)))
              count),
      (λ le.
          finishes-body addr (suc n) c qs (init-Follows addr (pos (suc n)) h) refl (omega arith)
            (omega (arith, count))
          ∙ ap (λ m. suc n == m) {x = 0 + length (image qs)} {y = length bytes}
              (omega (arith, count))),
    )

IsHead-length : (n : ℕ) (head : List ℕ) → IsHead n head → 0 < length head
IsHead-length n head is = omega (arith, is.ends)

new_context-init :
    (bin : Bin) (ota1 ota2 : ℕ)
    → new_context bin ota1 ota2
      ≡ record { image = init_context (other_address bin ota1 ota2) (pos 0); header = [] }
unfolding new_context
new_context-init bin1 ota1 ota2 = refl
new_context-init bin2 ota1 ota2 = refl

-- For a partition from 0x1000 on, and a header that announces a positive size below 2 ^ 31, and
-- whose first Content-Length and first empty line are the ones that say so and end it: however
-- the packets cut the answer, fota_recv gives system_upgrade the bytes of the body from 0x1000
-- on, in order. If no packet is longer than a sector, each goes to a sector that was erased
-- before, and no sector is erased again. If no more bytes come than were announced, the upgrade
-- is finished just when all of them have come.
pub fota_recv-Stored :
    (bin : Bin) (ota1 ota2 n : ℕ) (head bytes : List ℕ) (ps : List (List ℕ))
    → 0x1000 ≤ other_address bin ota1 ota2
    → suc n < 2 ^ 31
    → IsHead (suc n) head
    → image ps ≡ head ++ bytes
    → Stored (other_address bin ota1 ota2) (suc n) bytes ps (recv_all bin ota1 ota2 none ps)
unfolding recv_all fota_recv image init_context
fota_recv-Stored bin ota1 ota2 n head bytes [] h b is e =
    absurd (omega (arith, ap length e, length-append head bytes, IsHead-length (suc n) head is))
fota_recv-Stored bin ota1 ota2 n head bytes (p ∷ ps) h b is e =
    let c : Context = record {
      image = init_context (other_address bin ota1 ota2) (pos 0);
      header = [];
    } in
    body-Stored (other_address bin ota1 ota2) n bytes (p ∷ ps) _ h (
      subst (λ d. AsBody n c bytes (p ∷ ps) (recv_all bin ota1 ota2 (some d) (p ∷ ps)))
        (sym (new_context-init bin ota1 ota2))
        (recv_all-AsBody bin ota1 ota2 n c head bytes head (p ∷ ps) is refl
          (IsHead-length (suc n) head is) refl e b))
