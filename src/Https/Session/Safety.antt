-- ===== src/Https/Session/Safety.antt =====
-- What every packet keeps on a connection of esp8266/app/https.c.
use esp8266_xcode.Base.{List, ◌++◌, Option, none, some}
use esp8266_xcode.Https.{Event, Target, Tls, Context}
use esp8266_xcode.Https.Session.{IsSession}

module _ (tls : Tls) where
  open tls use {Conn, init, handshake2, get_failed, established, decrypt2, encrypt}

  -- The result of a call, if it has one, keeps the session.
  abbrev Keeps : Target → List Event → Option (Context tls × List Event) → Type 0
  Keeps t events none = Unit
  Keeps t events (some (c, new)) = IsSession tls t c (events ++ new)
