-- ===== src/Httpd/Tests.antt =====
-- Runs of esp8266/app/httpd.c.
use esp8266_xcode.Base.{
  ℕ, List, [], ◌∷◌, ◌++◌, ◌≡◌, refl, Bool, true, false, ◌||◌, ◌==◌, arith, if◌then◌else◌,
}
use esp8266_xcode.Lost.Text.{strsep, strcspn, strdup, c_str}
use esp8266_xcode.Lost.Number.{strtol}
use esp8266_xcode.Httpd.Params.{calls, overrun, unescape, from_hex, httpd_parameter_parse}
use esp8266_xcode.Httpd.Params.Escapes.{Quotes}
use esp8266_xcode.Httpd.Params.RoundTrip.{query, httpd_parameter_parse-query}
use esp8266_xcode.Base.{zero, suc, ◌+◌, ◌-◌, ltb, map, none, some}
use esp8266_xcode.Httpd.{Handler, httpd_regist, find_handler, starts_with}
use esp8266_xcode.Httpd.Dispatch.{sent, disconnect, Callback, header, chunk, httpd_chunk_send}
use esp8266_xcode.Httpd.Dispatch.Registry.{has, updated, find_handler-httpd_regist}
use esp8266_xcode.Httpd.Dispatch.Exchange.{exchange, request, exchange-request}

abbrev quote : ℕ → Bool
quote c = (c == b'%') || (c == b'?') || (c == b'=') || (c == b'&') || (c == b' ')

quote-Quotes : Quotes quote
quote-Quotes c h = ground arith

abbrev form : List (List ℕ × List ℕ)
form = (b'k' ∷ [], b'a' ∷ b' ' ∷ b'&' ∷ []) ∷ (b'p' ∷ [], []) ∷ []

httpd_parameter_parse-query_example :
    httpd_parameter_parse ((b'/' ∷ []) ++ (b'?' ∷ query quote quote-Quotes form)) ≡ calls form
unfolding c_str
httpd_parameter_parse-query_example =
    httpd_parameter_parse-query quote quote-Quotes (b'/' ∷ []) form (omega arith) (omega arith)

-- An escape that the end of the URL cuts short makes the loop read behind its last NUL.
cut_short : httpd_parameter_parse (b'/' ∷ b'?' ∷ b'k' ∷ b'=' ∷ b'%' ∷ b'4' ∷ []) ≡ overrun
unfolding httpd_parameter_parse strsep strcspn strdup c_str unescape from_hex strtol
cut_short = refl

abbrev hex_digits : ℕ → List ℕ
hex_digits n = (if ltb n 10 then b'0' + n else b'a' + n - 10) ∷ []

abbrev hello : List ℕ
hello = b'h' ∷ b'i' ∷ []

-- A page of one text.
abbrev hello_page : Callback
hello_page url zero = record {
  events = sent (chunk hex_digits hello) ∷ [];
  line = some 1;
  more = true;
}
hello_page url (suc n) = record { events = []; line = none; more = false }

abbrev root : List ℕ
root = b'/' ∷ []

abbrev plain : List ℕ
plain = b't' ∷ []

abbrev handlers : List (Handler Callback)
handlers = (record { url = root; type = some plain; handler = hello_page }) ∷ []

exchange-request_example :
    exchange 3 handlers (request (b'/' ∷ b'a' ∷ []) [])
    ≡ some (
        sent (header plain)
        ∷ (map (λ t. sent (chunk hex_digits t)) (hello ∷ []) ++ (disconnect ∷ [])))
unfolding c_str find_handler httpd_chunk_send header
exchange-request_example =
    exchange-request hex_digits handlers (b'/' ∷ b'a' ∷ []) []
      (record { url = root; type = some plain; handler = hello_page }) plain (hello ∷ [])
      (omega arith) refl refl (omega arith) (refl, refl)

-- A second path below the first, which keeps its handler when the first gets a new one.
abbrev below : List ℕ
below = b'/' ∷ b'a' ∷ []

abbrev two_handlers : List (Handler Callback)
two_handlers = httpd_regist below (some plain) hello_page handlers

find_handler-httpd_regist_example :
    let new : Handler Callback = record { url = root; type = none; handler = hello_page } in
    find_handler below (httpd_regist root none hello_page two_handlers) ≡ (
      if has root two_handlers
      then updated new (find_handler below two_handlers)
      else if starts_with root below
      then some new
      else find_handler below two_handlers)
find_handler-httpd_regist_example =
    find_handler-httpd_regist root none hello_page two_handlers below
