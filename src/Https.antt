-- ===== src/Https.antt =====
-- esp8266/app/https.c: a client that asks for one URL. The functions of src/crypto are the argument
-- `tls`, and the calls of the SDK are events, in order.
pub mod Url
pub mod Session
mod Tests
use esp8266_xcode.Base.{
  ℕ, ◌+◌, List, [], ◌∷◌, ◌++◌, Option, none, some, Bool, true, false, ltb, if◌then◌else◌, length,
}
use esp8266_xcode.Base.Strings.{codes}
use esp8266_xcode.Lost.Text.{c_str, strsep, strdup}
use esp8266_xcode.Httpd.{starts_with}

pub data Event : Type 0 where
  gethostbyname : List ℕ → Event
  -- The port is 443.
  connect : List ℕ → Event
  sent : List ℕ → Event
  -- `context->recv` and `context->disconn`
  recv : List ℕ → Event
  disconn : Event
  disconnect : Event
  connection_deinit tls_deinit : Event
  free_context free_connection : Event

-- The TLS functions, on the state of a connection: `tls_init` with `tls_connection_init` (`none`
-- twice over is a failure of one or the other), `tls_connection_handshake2` and
-- `tls_connection_decrypt2` with the flag that more data is needed, `tls_connection_get_failed`,
-- `tls_connection_established` and `tls_connection_encrypt`.
pub record Tls : Type 1 where
  pub Conn : Type 0
  pub init : Option (Option Conn)
  pub handshake2 : List ℕ → Conn → Option (List ℕ) × Bool × Conn
  pub get_failed : Conn → Bool
  pub established : Conn → Bool
  pub decrypt2 : List ℕ → Conn → Option (List ℕ) × Bool × Conn
  pub encrypt : List ℕ → Conn → Option (List ℕ) × Conn

-- `struct https_context` before a connection: the host and the path.
pub record Target : Type 0 where
  pub host : List ℕ
  pub path : List ℕ

-- ":/"
abbrev pub separators : List ℕ
separators = b':' ∷ b'/' ∷ []

-- The scheme, the host and the path, which is the rest of the text. `none`: no such token.
unfoldable pub url_parts : List ℕ → Option (List ℕ) × Option (List ℕ) × Option (List ℕ)
url_parts url =
    let (https, token) = strsep (some (strdup url)) separators in
    let (_, token') = strsep token separators in
    let (_, token'') = strsep token' separators in
    let (host, path) = strsep token'' separators in (https, host, path)

-- The copies of the host and the path; a null pointer is read where one of them is missing.
connect_to : Option (List ℕ) → Option (List ℕ) → Option (Option Target × List Event)
connect_to none path = none
connect_to (some host) none = none
connect_to (some host) (some path) =
    some
      (some (record { host = strdup host; path = strdup path }), gethostbyname (strdup host) ∷ [])

-- Nothing is done for another scheme. `none`: a null pointer is read.
checked : Option (List ℕ) × Option (List ℕ) × Option (List ℕ) → Option (Option Target × List Event)
unfolding connect_to
checked (none, host, path) = none
checked (some https, host, path) =
    if starts_with (codes "https") (c_str https) then connect_to host path else some (none, [])

unfoldable pub https_connect : List ℕ → Option (Option Target × List Event)
unfolding checked
https_connect url = checked (url_parts url)

unfoldable pub request : Target → List ℕ
request t =
    codes "GET /"
    ++ (t.path
        ++ (codes " HTTP/1.1"
            ++ (13 ∷ 10 ∷ (codes "Host: " ++ (t.host ++ (13 ∷ 10 ∷ 13 ∷ 10 ∷ []))))))

-- The function that is registered for a packet: `https_tls_recv` or `https_recv`.
pub data Receiver : Type 0 where
  https_tls_recv https_recv : Receiver

module _ (tls : Tls) where
  open tls use {Conn, init, handshake2, get_failed, established, decrypt2, encrypt}

  -- `struct https_context` of a connection: `has_tls` says that `tls` is set.
  pub record Context : Type 0 where
    pub target : Target
    pub has_tls : Bool
    pub conn : Option Conn
    pub receiver : Receiver

  -- What has been given to `encrypt` goes out; a null pointer is read where it fails.
  send_encrypted : Context → Option (List ℕ) × Conn → Option (Context × List Event)
  send_encrypted c (none, n) = none
  send_encrypted c (some out, n) = some (record c { conn = some n }, sent out ∷ [])

  unfoldable pub https_send : Context → Conn → List ℕ → Option (Context × List Event)
  unfolding send_encrypted
  https_send c n data_bytes = send_encrypted c (encrypt data_bytes n)

  then_https_recv : Option (Context × List Event) → Option (Context × List Event)
  then_https_recv none = none
  then_https_recv (some (c, events)) = some (record c { receiver = https_recv }, events)

  -- `char buffer[256]`: `none` if the request does not fit.
  unfoldable pub send_request : Context → Conn → Option (Context × List Event)
  unfolding then_https_recv
  send_request c n =
      if ltb (length (request c.target)) 256
      then then_https_recv (https_send c n (request c.target))
      else none

  -- What follows `tls_connection_handshake2`.
  unfoldable pub handshake_result :
      Context → Option (List ℕ) × Bool × Conn → Option (Context × List Event)
  handshake_result c (none, more, n) =
      some (record c { conn = some n }, if more then [] else disconnect ∷ [])
  handshake_result c (some out, more, n) =
      let c' : Context = record c { conn = some n } in
      if get_failed n
      then some (c', disconnect ∷ [])
      else if established n
      then send_request c' n
      else some (record c' { receiver = https_tls_recv }, sent out ∷ [])

  -- `none`: the functions are given no connection.
  unfoldable pub tls_packet : Context → List ℕ → Option (Context × List Event)
  tls_packet c packet = elim c.conn [
    | none ↦ none
    | some n ↦ handshake_result c (handshake2 packet n)
  ]

  -- What follows `tls_connection_decrypt2`.
  unfoldable pub decrypt_result : Context → Option (List ℕ) × Bool × Conn → Context × List Event
  decrypt_result c (none, more, n) = (record c { conn = some n }, [])
  decrypt_result c (some [], more, n) = (record c { conn = some n }, [])
  decrypt_result c (some (b ∷ out), more, n) = (record c { conn = some n }, recv (b ∷ out) ∷ [])

  unfoldable pub plain_packet : Context → List ℕ → Option (Context × List Event)
  plain_packet c packet = elim c.conn [
    | none ↦ none
    | some n ↦ some (decrypt_result c (decrypt2 packet n))
  ]

  -- The function that is registered is called.
  unfoldable pub packet_in : Context → List ℕ → Option (Context × List Event)
  packet_in c packet = elim c.receiver [
    | https_tls_recv ↦ tls_packet c packet
    | https_recv ↦ plain_packet c packet
  ]

  unfoldable pub https_tls_connect : Target → Option (Context × List Event)
  https_tls_connect t = elim init [
    | none ↦ some (
      record { target = t; has_tls = false; conn = none; receiver = https_tls_recv },
      disconnect ∷ [],
    )
    | some none ↦ some (
      record { target = t; has_tls = true; conn = none; receiver = https_tls_recv },
      disconnect ∷ [],
    )
    | some (some n) ↦
        tls_packet (record { target = t; has_tls = true; conn = some n; receiver = https_tls_recv })
          []
  ]

  unfoldable pub https_discon : Context → List Event
  https_discon c =
      disconn
      ∷ ((if c.has_tls
            then elim c.conn [ none ↦ [] | some n ↦ connection_deinit ∷ [] ] ++ (tls_deinit ∷ [])
            else [])
          ++ (free_context ∷ free_connection ∷ []))

-- The address, if one is found; else the client gives up.
unfoldable pub https_dns_found : Option (List ℕ) → List Event
https_dns_found (some ip) = connect ip ∷ []
https_dns_found none = disconn ∷ free_context ∷ free_connection ∷ []
