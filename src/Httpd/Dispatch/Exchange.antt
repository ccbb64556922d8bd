-- ===== src/Httpd/Dispatch/Exchange.antt =====
-- A whole answer of esp8266/app/httpd.c: the request, and a callback for each packet that is sent.
use esp8266_xcode.Base.{
  ℕ, zero, suc, ◌+◌, ◌<◌, List, [], ◌∷◌, ◌++◌, Option, none, some, Bool, true, false, if◌then◌else◌,
  length, ◌≡◌, refl, arith, All, map, lt→ltb,
}
use esp8266_xcode.Lost.Text.{c_str, strsep, strdup}
use esp8266_xcode.Lost.Text.Laws.{IsFree, strsep-append, c_str-token}
use esp8266_xcode.Httpd.{Handler, find_handler}
use esp8266_xcode.Httpd.Dispatch.{
  Event, sent, disconnect, Answer, Callback, Context, get, space, header, call_handler, accept,
  dispatch, serve, httpd_server_recv, httpd_server_sent, chunk, httpd_chunk_send,
}

-- The SDK calls `httpd_server_sent` once for a packet that was sent, where the connection is
-- still open.
abbrev calls_back : List Event → Bool
calls_back (sent text ∷ []) = true
calls_back _ = false

-- The events of such callbacks, for at most `fuel` packets, after the events `events`. `none`:
-- the fuel has run out, or the code has no defined result.
pub callbacks : ℕ → Option Context → List Event → Option (List Event)
callbacks zero reverse events = none
callbacks (suc fuel) reverse events =
    if calls_back events
    then elim (httpd_server_sent reverse) [
      | none ↦ none
      | some (c, next) ↦ elim (callbacks fuel (some c) next) [
        | none ↦ none
        | some rest ↦ some (events ++ rest)
      ]
    ]
    else some events

-- The events of a connection that sends `bytes`.
pub exchange : ℕ → List (Handler Callback) → List ℕ → Option (List Event)
unfolding callbacks
exchange fuel nodes bytes = elim (httpd_server_recv nodes none bytes) [
  | none ↦ none
  | some (reverse, events) ↦ callbacks fuel reverse events
]

-- At the end a handler does nothing, and returns false.
abbrev pub done : Answer
done = record { events = []; line = none; more = false }

-- From the line on, the handler sends these texts with `httpd_chunk_send`, one for each line.
abbrev pub Serves : (ℕ → List ℕ) → Callback → List ℕ → ℕ → List (List ℕ) → Type 0
Serves hex handler url line [] = handler url line ≡ done
Serves hex handler url line (text ∷ texts) =
    (httpd_chunk_send hex true (line + 1) text ≡ some (handler url line))
    × Serves hex handler url (line + 1) texts

abbrev answer : (ℕ → List ℕ) → ℕ → List ℕ → Answer
answer hex line text = record { events = sent (chunk hex text) ∷ []; line = some line; more = true }

chunk_answer :
    (hex : ℕ → List ℕ) (line : ℕ) (text : List ℕ) (a : Answer)
    → httpd_chunk_send hex true line text ≡ some a
    → a ≡ answer hex line text
unfolding httpd_chunk_send
chunk_answer hex line text a h = ground (arith, h)

abbrev context : Callback → List ℕ → ℕ → Context
context handler url line = record { handler = handler; url = url; line = line }

sent-answer :
    (handler : Callback) (url : List ℕ) (line next : ℕ) (text : List ℕ)
    → handler url line ≡ record { events = sent text ∷ []; line = some next; more = true }
    → httpd_server_sent (some (context handler url line))
      ≡ some (context handler url next, sent text ∷ [])
unfolding httpd_server_sent call_handler
sent-answer handler url line next text h = rw (httpd_server_sent, call_handler, h)

sent-done :
    (handler : Callback) (url : List ℕ) (line : ℕ)
    → handler url line ≡ done
    → httpd_server_sent (some (context handler url line))
      ≡ some (context handler url line, disconnect ∷ [])
unfolding httpd_server_sent call_handler
sent-done handler url line h = rw (httpd_server_sent, call_handler, h)

callbacks-disconnect :
    (fuel : ℕ) (reverse : Option Context)
    → callbacks (suc fuel) reverse (disconnect ∷ []) ≡ some (disconnect ∷ [])
unfolding callbacks
callbacks-disconnect fuel reverse = refl

callbacks-texts :
    (hex : ℕ → List ℕ) (handler : Callback) (url : List ℕ) (line : ℕ) (texts : List (List ℕ))
    (text : List ℕ)
    → Serves hex handler url line texts
    → callbacks (suc (suc (length texts))) (some (context handler url line)) (sent text ∷ [])
      ≡ some (sent text ∷ (map (λ t. sent (chunk hex t)) texts ++ (disconnect ∷ [])))
unfolding callbacks
callbacks-texts hex handler url line [] text h = rw (sent-done handler url line h)
callbacks-texts hex handler url line (t ∷ texts) text h = rw (
  sent-answer handler url line (line + 1) (chunk hex t) (chunk_answer hex (line + 1) t _ h.0),
  callbacks-texts hex handler url (line + 1) texts (chunk hex t) h.1,
)

-- A request "GET url …", where the URL holds no space and no NUL.
pub request : List ℕ → List ℕ → List ℕ
request url rest = get ++ (b' ' ∷ (url ++ (b' ' ∷ rest)))

get-IsFree : All (IsFree space) get
unfolding c_str
get-IsFree = ground arith

strsep-space :
    (t r : List ℕ)
    → All (IsFree space) t
    → strsep (some (t ++ (b' ' ∷ r))) space ≡ (some (t ++ (0 ∷ r)), some r)
unfolding c_str
strsep-space t r free = strsep-append t b' ' r space free (omega arith) (λ h. h.0 refl)

strdup_free : (url : List ℕ) → All (IsFree space) url → strdup url ≡ url
unfolding strdup c_str
strdup_free [] free = refl
strdup_free (b ∷ url) free = ground (arith, strdup_free url free.1)

pub recv-request :
    (nodes : List (Handler Callback)) (reverse : Option Context) (url rest : List ℕ)
    → All (IsFree space) url
    → httpd_server_recv nodes reverse (request url rest) ≡ dispatch nodes reverse url
unfolding httpd_server_recv serve request
recv-request nodes reverse url rest free = rw (
  httpd_server_recv,
  strsep-space get (url ++ (b' ' ∷ rest)) get-IsFree,
  strsep-space url rest free,
  serve,
  c_str-token url rest space free,
  c_str-token get (url ++ (b' ' ∷ rest)) space get-IsFree,
)

-- A GET request, with no space and no NUL in its URL, for which the first matching handler is
-- registered with a type whose header fits into 128 bytes and sends some texts, one for each
-- line: the connection gets the header, each text as a chunk, in order, and then its end.
pub exchange-request :
    (hex : ℕ → List ℕ) (nodes : List (Handler Callback)) (url rest : List ℕ)
    (node : Handler Callback) (type : List ℕ) (texts : List (List ℕ))
    → All (IsFree space) url
    → find_handler url nodes ≡ some node
    → node.type ≡ some type
    → length (header type) < 128
    → Serves hex node.handler url 0 texts
    → exchange (suc (suc (length texts))) nodes (request url rest)
      ≡ some (sent (header type) ∷ (map (λ t. sent (chunk hex t)) texts ++ (disconnect ∷ [])))
unfolding exchange dispatch accept strdup
exchange-request hex nodes url rest node type texts free found typed fits serves = rw (
  exchange,
  recv-request nodes none url rest free,
  dispatch,
  found,
  accept,
  typed,
  strdup_free url free,
  lt→ltb _ 128 fits,
  callbacks-texts hex node.handler url 0 texts (header type) serves,
)
