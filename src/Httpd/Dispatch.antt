-- ===== src/Httpd/Dispatch.antt =====
-- The requests of esp8266/app/httpd.c: `httpd_server_recv`, `httpd_server_sent`,
-- `httpd_server_discon`, and what a handler calls, `httpd_chunk_send` and `httpd_redirect`.
pub mod Registry
pub mod Exchange
use esp8266_xcode.Base.{
  ℕ, zero, suc, ◌+◌, ◌-◌, List, [], ◌∷◌, ◌++◌, Option, none, some, Bool, true, false, ltb,
  if◌then◌else◌, length,
}
use esp8266_xcode.Lost.Text.{c_str, strsep, strdup}
use esp8266_xcode.Httpd.{Handler, find_handler, text_eq}

pub data Event : Type 0 where
  sent : List ℕ → Event
  disconnect : Event

-- What a call of a handler does: the events, the new `context->line`, if `httpd_chunk_send` has
-- set it, and its result.
pub record Answer : Type 0 where
  pub events : List Event
  pub line : Option ℕ
  pub more : Bool

-- A handler, over the URL and the line.
abbrev pub Callback : Type 0
Callback = List ℕ → ℕ → Answer

-- `struct httpd_context`
pub record Context : Type 0 where
  pub handler : Callback
  pub url : List ℕ
  pub line : ℕ

-- "GET" and " "
abbrev pub get : List ℕ
get = b'G' ∷ b'E' ∷ b'T' ∷ []

abbrev pub space : List ℕ
space = b' ' ∷ []

abbrev pub crlf : List ℕ
crlf = 13 ∷ 10 ∷ []

abbrev header_start : List ℕ
header_start =
    b'H' ∷ b'T' ∷ b'T' ∷ b'P' ∷ b'/' ∷ b'1' ∷ b'.' ∷ b'1' ∷ b' ' ∷ b'2' ∷ b'0' ∷ b'0' ∷ b' ' ∷ b'O'
    ∷ b'K' ∷ 13 ∷ 10 ∷ b'C' ∷ b'o' ∷ b'n' ∷ b't' ∷ b'e' ∷ b'n' ∷ b't' ∷ b'-' ∷ b'T' ∷ b'y' ∷ b'p'
    ∷ b'e' ∷ b':' ∷ b' ' ∷ []

abbrev header_end : List ℕ
header_end =
    13 ∷ 10 ∷ b'T' ∷ b'r' ∷ b'a' ∷ b'n' ∷ b's' ∷ b'f' ∷ b'e' ∷ b'r' ∷ b'-' ∷ b'E' ∷ b'n' ∷ b'c'
    ∷ b'o' ∷ b'd' ∷ b'i' ∷ b'n' ∷ b'g' ∷ b':' ∷ b' ' ∷ b'c' ∷ b'h' ∷ b'u' ∷ b'n' ∷ b'k' ∷ b'e'
    ∷ b'd' ∷ 13 ∷ 10 ∷ 13 ∷ 10 ∷ []

unfoldable pub header : List ℕ → List ℕ
header type = header_start ++ (type ++ header_end)

abbrev redirect_start : List ℕ
redirect_start =
    b'H' ∷ b'T' ∷ b'T' ∷ b'P' ∷ b'/' ∷ b'1' ∷ b'.' ∷ b'1' ∷ b' ' ∷ b'3' ∷ b'0' ∷ b'2' ∷ b' ' ∷ b'F'
    ∷ b'o' ∷ b'u' ∷ b'n' ∷ b'd' ∷ 13 ∷ 10 ∷ b'L' ∷ b'o' ∷ b'c' ∷ b'a' ∷ b't' ∷ b'i' ∷ b'o' ∷ b'n'
    ∷ b':' ∷ b' ' ∷ []

-- `char header[128]`: `os_sprintf` writes a NUL behind the text. `none`: it writes behind the
-- array, which C leaves undefined.
abbrev in_header : {A : Type 0} → List ℕ → A → Option A
in_header text a = if ltb (length text) 128 then some a else none

-- The end of `httpd_server_sent` and of the last branch of `httpd_server_recv`.
unfoldable pub call_handler : Context → Context × List Event
call_handler c =
    let a = c.handler c.url c.line in
    let line : ℕ = elim a.line [ none ↦ c.line | some n ↦ n ] in
    (record c { line = line }, if a.more then a.events else a.events ++ (disconnect ∷ []))

-- The branch for a handler that is found. The context of the connection is new or written over.
unfoldable pub accept : Handler Callback → List ℕ → Option (Context × List Event)
accept node url =
    let c : Context = record { handler = node.handler; url = strdup url; line = 0 } in
    elim node.type [
      | none ↦ some (call_handler c)
      | some type ↦ in_header (header type) (c, sent (header type) ∷ [])
    ]

-- `reverse` is `pespconn->reverse`.
unfoldable pub dispatch :
    List (Handler Callback) → Option Context → List ℕ → Option (Option Context × List Event)
dispatch nodes reverse url = elim (find_handler url nodes) [
  | none ↦ some (reverse, disconnect ∷ [])
  | some node ↦ elim (accept node url) [ none ↦ none | some (c, events) ↦ some (some c, events) ]
]

unfoldable pub serve :
    List (Handler Callback)
    → Option Context
    → Option (List ℕ)
    → Option (List ℕ)
    → Option (Option Context × List Event)
serve nodes reverse none url = some (reverse, disconnect ∷ [])
serve nodes reverse (some method) none = some (reverse, disconnect ∷ [])
serve nodes reverse (some method) (some url) =
    if text_eq (c_str method) get
    then dispatch nodes reverse (c_str url)
    else some (reverse, disconnect ∷ [])

unfoldable pub httpd_server_recv :
    List (Handler Callback) → Option Context → List ℕ → Option (Option Context × List Event)
httpd_server_recv nodes reverse bytes =
    let (method, ptr) = strsep (some bytes) space in
    let (url, ptr') = strsep ptr space in serve nodes reverse method url

-- `none`: a null pointer is read.
unfoldable pub httpd_server_sent : Option Context → Option (Context × List Event)
httpd_server_sent none = none
httpd_server_sent (some c) = some (call_handler c)

-- What is left in `pespconn->reverse`, and what is freed.
pub httpd_server_discon : Option Context → Option Context × Option Context
httpd_server_discon none = (none, none)
httpd_server_discon (some c) = (none, some c)

-- A chunk; `hex` is what `os_sprintf` prints for `%x`.
abbrev pub chunk : (ℕ → List ℕ) → List ℕ → List ℕ
chunk hex bytes = hex (length bytes) ++ (crlf ++ (bytes ++ crlf))

-- `accepted` says that `espconn_sent` returns `ESPCONN_OK`. `none`: the bytes do not fit into
-- `char buffer[1024]`.
unfoldable pub httpd_chunk_send : (ℕ → List ℕ) → Bool → ℕ → List ℕ → Option Answer
httpd_chunk_send hex accepted line bytes =
    if ltb 1024 (length (chunk hex bytes))
    then none
    else if accepted
    then some (record { events = sent (chunk hex bytes) ∷ []; line = some line; more = true })
    else some (record { events = []; line = none; more = false })

unfoldable pub httpd_redirect : List ℕ → Option (List Event)
httpd_redirect url =
    let text = redirect_start ++ (url ++ (crlf ++ crlf)) in in_header text (sent text ∷ [])
