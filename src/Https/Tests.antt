-- ===== src/Https/Tests.antt =====
-- Runs of esp8266/app/https.c.
use esp8266_xcode.Base.{
  ℕ, ◌+◌, List, [], ◌∷◌, ◌++◌, some, true, false, ◌==◌, ◌≡◌, refl, arith, map, inl,
}
use esp8266_xcode.Base.Strings.{codes}
use esp8266_xcode.Lost.Text.{c_str}
use esp8266_xcode.Https.{
  Event, gethostbyname, sent, recv, Target, Tls, Context, https_recv, https_connect, request,
}
use esp8266_xcode.Https.Url.{https_connect_lem}

-- The port of a URL becomes part of the path.
https_connect_lem_example :
    https_connect (codes "https://host:8443/file")
    ≡ some (
      some (record { host = codes "host"; path = codes "8443/file" }),
      gethostbyname (codes "host") ∷ [],
    )
unfolding c_str
https_connect_lem_example =
    https_connect_lem (codes "host") (codes "8443/file") b':' (ground arith) (inl refl)
      (ground arith)

-- A connection that is established after two packets, and adds 1 to a byte.
abbrev toy : Tls
toy = record {
  Conn = ℕ;
  init = some (some 0);
  handshake2 = λ bytes n. (some (n ∷ []), false, n + 1);
  get_failed = λ n. false;
  established = λ n. n == 3;
  decrypt2 = λ bytes n. (some (map (λ b. b + 1) bytes), false, n);
  encrypt = λ bytes n. (some (map (λ b. b + 1) bytes), n);
}

abbrev target : Target
target = record { host = codes "host"; path = codes "file" }

abbrev open_context : Context toy
open_context = record { target = target; has_tls = true; conn = some 3; receiver = https_recv }

abbrev all_events : List Event
all_events =
    (((sent (0 ∷ []) ∷ []) ++ (sent (1 ∷ []) ∷ []))
      ++ (sent (map (λ b. b + 1) (request target)) ∷ []))
    ++ (recv (8 ∷ 9 ∷ []) ∷ [])
