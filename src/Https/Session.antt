-- ===== src/Https/Session.antt =====
-- What may happen on a connection of esp8266/app/https.c.
pub mod Safety
use mathlib.Core.Path.{subst}
use esp8266_xcode.Base.{
  ℕ, ◌<◌, List, [], ◌∷◌, ◌++◌, Option, none, some, Bool, true, false, ltb, ltb→lt, ◌≡◌, refl, sym,
  ap, ◌∙◌, length, All, All-append, append_assoc, if◌then◌else◌,
}
use esp8266_xcode.Https.{
  Event, sent, recv, disconnect, Target, Tls, Receiver, https_tls_recv, https_recv, Context,
  request, https_send, send_encrypted, then_https_recv, send_request, handshake_result, tls_packet,
  decrypt_result, plain_packet, packet_in, https_tls_connect,
}

-- No plain data, and nothing but plain data.
abbrev pub NoData : Event → Type 0
NoData (recv bytes) = ⊥
NoData event = Unit

abbrev pub IsData : Event → Type 0
IsData (recv bytes) = Unit
IsData event = ⊥

module _ (tls : Tls) where
  open tls use {Conn, init, handshake2, get_failed, established, decrypt2, encrypt}

  -- The request has been sent: over a connection that was established and had not failed.
  pub record Requested (t : Target) (events : List Event) : Type 0 where
    pub before : List Event
    pub after : List Event
    pub conn : Conn
    pub next : Conn
    pub out : List ℕ
    pub split : events ≡ before ++ (sent out ∷ after)
    pub before_NoData : All NoData before
    pub after_IsData : All IsData after
    pub is_established : established conn ≡ true
    pub not_failed : get_failed conn ≡ false
    pub encrypted : encrypt (request t) conn ≡ (some out, next)
    pub fits : length (request t) < 256

  -- What holds at every time, by the function that is registered.
  abbrev pub Phase : Target → Receiver → List Event → Type 0
  Phase t https_tls_recv events = All NoData events
  Phase t https_recv events = Requested t events

  abbrev pub IsSession : Target → Context tls → List Event → Type 0
  IsSession t c events = (c.target ≡ t) × Phase t c.receiver events

  -- A connection after some packets.
  pub data Reaches (t : Target) : Context tls → List Event → Type 0 where
    connected :
        {c : Context tls} {events : List Event}
        → https_tls_connect tls t ≡ some (c, events)
        → Reaches t c events
    packet :
        {c c' : Context tls} {events new : List Event} (bytes : List ℕ)
        → Reaches t c events
        → packet_in tls c bytes ≡ some (c', new)
        → Reaches t c' (events ++ new)
