-- ===== src/Web/Pages/Order.antt =====
-- The order in which `web_system` of esp8266/web/system.cpp sends its parts, over several calls.
use esp8266_xcode.Base.{
  ℕ, zero, suc, ◌+◌, ◌-◌, ◌≤◌, ◌<◌, All, List, [], ◌∷◌, ◌++◌, Option, none, some, Bool, true, false,
  ◌≡◌, refl, sym, ap, ap₂, ◌∙◌, Bool-cases, inl, inr, arith, length, length-append, ltb,
  if◌then◌else◌,
}
use esp8266_xcode.Httpd.Dispatch.{Event, sent, Answer, chunk, httpd_chunk_send, crlf}
use esp8266_xcode.Fs.Files.{Lfs}
use esp8266_xcode.Fs.Files.Config.{read_config}
use esp8266_xcode.Web.{Form, ssid, ota, mqtt, ntp, file_name}
use esp8266_xcode.Web.Pages.{Status, with_lines, part, parts_loop, web_system}
use esp8266_xcode.Web.Pages.Parts.{Settings, line_count, html_of, Bounded, length-html_of}

-- How many of the first `left` packets are taken before one is not.
unfoldable pub taken : ℕ → List Bool → ℕ
taken zero accepted = 0
taken (suc left) [] = 0
taken (suc left) (false ∷ accepted) = 0
taken (suc left) (true ∷ accepted) = suc (taken left accepted)

-- The chunks of `count` parts from `line` on.
unfoldable pub chunks : (ℕ → List ℕ) → (ℕ → List ℕ) → ℕ → ℕ → List Event
chunks hex html line zero = []
chunks hex html line (suc count) = sent (chunk hex (html line)) ∷ chunks hex html (line + 1) count

-- What a call sends that takes `count` parts of `left`.
abbrev pub answer_of : (ℕ → List ℕ) → (ℕ → List ℕ) → ℕ → ℕ → ℕ → Answer
answer_of hex html line left count = record {
  events = chunks hex html line count;
  line = if ltb 0 count then some (line + count) else none;
  more = ltb count left;
}

chunks-add :
    (hex html : ℕ → List ℕ) (line a b : ℕ)
    → chunks hex html line (a + b) ≡ chunks hex html line a ++ chunks hex html (line + a) b
unfolding chunks
chunks-add hex html line zero b =
    let start : line ≡ line + 0 = omega arith in
    let all : 0 + b ≡ b = omega arith in
    ap (λ n. chunks hex html line n) all ∙ ap (λ l. chunks hex html l b) start
chunks-add hex html line (suc a) b =
    let count : suc a + b ≡ suc (a + b) = omega arith in
    rw count (
      ap (λ es. sent (chunk hex (html line)) ∷ es)
        (chunks-add hex html (line + 1) a b
          ∙ ap (λ l. chunks hex html (line + 1) a ++ chunks hex html l b) {x = line + 1 + a}
              {y = line + suc a} (omega arith)))

-- What has gone of the page.
abbrev pub Sent : (ℕ → List ℕ) → (ℕ → List ℕ) → ℕ → Option (List Event × ℕ × Bool) → Type 0
Sent hex html line o =
    (count : ℕ) × (line + count ≤ 6)
    × (o ≡ some (chunks hex html line count, line + count, ltb (line + count) 6))

next_line :
    (line c : ℕ)
    → elim (if ltb 0 c then some (line + c) else none) as (λ o. ℕ) [ none ↦ line | some n ↦ n ]
      ≡ line + c
next_line line c = ground arith

-- The calls after the first one.
later_Sent :
    (hex html : ℕ → List ℕ) (line c : ℕ) (o : Option (List Event × ℕ × Bool))
    → Sent hex html (line + c) o
    → Sent hex html line (elim o as (λ o. Option (List Event × ℕ × Bool)) [
      | none ↦ none
      | some (events, line'', more) ↦ some (chunks hex html line c ++ events, line'', more)
    ])
later_Sent hex html line c o (count, le, e) =
    let last : line + c + count ≡ line + (c + count) = omega arith in
    (
      c + count,
      omega arith,
      rw e (ap₂ (λ es l. some (es, l, ltb l 6)) (sym (chunks-add hex html line c count)) last),
    )

module _ (lfs : Lfs) where
  open lfs use {Store}

  -- The files hold the settings, and reading leaves them.
  abbrev pub Reads : Settings → Store → Type 0
  Reads set s =
      (form : Form) → read_config lfs (line_count form) (file_name form) s ≡ some (set form, s)

  part-html_of :
      (status : Status) (set : Settings) (n : ℕ) (s : Store)
      → Reads set s
      → part lfs status n s ≡ some (html_of status set n, s)
  unfolding part with_lines html_of
  part-html_of status set zero s r = refl
  part-html_of status set (suc zero) s r = rw (part, with_lines, r ssid)
  part-html_of status set (suc (suc zero)) s r = rw (part, with_lines, r ota)
  part-html_of status set (suc (suc (suc zero))) s r = rw (part, with_lines, r mqtt)
  part-html_of status set (suc (suc (suc (suc zero)))) s r = rw (part, with_lines, r ntp)
  part-html_of status set (suc (suc (suc (suc (suc n))))) s r = refl

  httpd_chunk_send_fits :
      (hex : ℕ → List ℕ) (ok : Bool) (line : ℕ) (html : List ℕ)
      → length (hex (length html)) ≤ 8
      → length html ≤ 500
      → httpd_chunk_send hex ok line html
        ≡ some (
            if ok
            then record { events = sent (chunk hex html) ∷ []; line = some line; more = true }
            else record { events = []; line = none; more = false })
  unfolding httpd_chunk_send
  httpd_chunk_send_fits hex ok line html h k =
      ground
        (arith, length-append (hex (length html)) (crlf ++ (html ++ crlf)), length-append html crlf)

  parts_loop_lem :
      (hex : ℕ → List ℕ) (accepted : List Bool) (status : Status) (set : Settings) (left line : ℕ)
      (s : Store)
      → ((n : ℕ) → length (hex n) ≤ 8)
      → Bounded status set
      → Reads set s
      → left ≤ length accepted
      → parts_loop lfs hex accepted status left line s
        ≡ some (answer_of hex (html_of status set) line left (taken left accepted), s)
  unfolding parts_loop taken chunks
  parts_loop_lem hex accepted status set zero line s h b r k = refl
  parts_loop_lem hex [] status set (suc left) line s h b r k = absurd (omega arith)
  parts_loop_lem hex (false ∷ accepted) status set (suc left) line s h b r k =
      rw
        (
          parts_loop,
          part-html_of status set line s r,
          httpd_chunk_send_fits hex false (line + 1) (html_of status set line) (h _)
              (length-html_of status set line b),
        )
        (ground arith)
  parts_loop_lem hex (true ∷ accepted) status set (suc left) line s h b r k =
      rw
        (
          parts_loop,
          part-html_of status set line s r,
          httpd_chunk_send_fits hex true (line + 1) (html_of status set line) (h _)
              (length-html_of status set line b),
          parts_loop_lem hex accepted status set left (line + 1) s h b r (omega arith),
        )
        (ground arith)

  -- The calls of the page on one connection, one for each packet that has gone, up to the one that
  -- returns false: `httpd_server_sent` keeps the line in between.
  unfoldable pub calls :
      (ℕ → List ℕ) → List (List Bool) → Status → ℕ → Store → Option (List Event × ℕ × Bool)
  calls hex [] status line s = some ([], line, true)
  calls hex (accepted ∷ later) status line s = elim (web_system lfs hex accepted status line s) [
    | none ↦ none
    | some (a, s') ↦
        let line' : ℕ = elim a.line [ none ↦ line | some n ↦ n ] in
        elim a.more [
          | false ↦ some (a.events, line', false)
          | true ↦ elim (calls hex later status line' s') [
            | none ↦ none
            | some (events, line'', more) ↦ some (a.events ++ events, line'', more)
          ]
        ]
  ]

  -- For a host name and a time of at most 256 bytes, settings of at most 127 bytes a line, sizes
  -- that print in at most 8 digits and an answer for each part that is left: one call of
  -- web_system sends the chunks up to the first packet that is not accepted, sets the line
  -- behind them, and no part overruns the buffer of 1024 bytes.
  pub web_system_lem :
      (hex : ℕ → List ℕ) (accepted : List Bool) (status : Status) (set : Settings) (line : ℕ)
      (s : Store)
      → ((n : ℕ) → length (hex n) ≤ 8)
      → Bounded status set
      → Reads set s
      → 6 - line ≤ length accepted
      → web_system lfs hex accepted status line s
        ≡ some (answer_of hex (html_of status set) line (6 - line) (taken (6 - line) accepted), s)
  unfolding web_system
  web_system_lem hex accepted status set line s h b r k =
      parts_loop_lem hex accepted status set (6 - line) line s h b r k

  taken_le : (left : ℕ) (accepted : List Bool) → taken left accepted ≤ left
  unfolding taken
  taken_le zero accepted = omega arith
  taken_le (suc left) [] = omega arith
  taken_le (suc left) (false ∷ accepted) = omega arith
  taken_le (suc left) (true ∷ accepted) = omega (arith, taken_le left accepted)

  -- For a host name and a time of at most 256 bytes, settings of at most 127 bytes a line, sizes
  -- that print in at most 8 digits and at least 6 answers for each call: however the packets are
  -- accepted or not, the calls of web_system from a line below 6 on send the chunks of the parts
  -- from it on, each once and in order, none of them overruns its buffer, and the page asks for
  -- another call just when a part is left.
  pub calls-Sent :
      (hex : ℕ → List ℕ) (schedules : List (List Bool)) (status : Status) (set : Settings)
      (line : ℕ) (s : Store)
      → ((n : ℕ) → length (hex n) ≤ 8)
      → Bounded status set
      → Reads set s
      → line < 6
      → All (λ a. 6 ≤ length a) schedules
      → Sent hex (html_of status set) line (calls hex schedules status line s)
  unfolding calls chunks
  calls-Sent hex [] status set line s h b r lt k = (0, omega arith, ground arith)
  calls-Sent hex (accepted ∷ later) status set line s h b r lt k =
      let c = taken (6 - line) accepted in
      let e = web_system_lem hex accepted status set line s h b r (omega (arith, k.0)) in
      let le = taken_le (6 - line) accepted in
      elim (Bool-cases (ltb c (6 - line))) [
        | inl more ↦
            rw (calls, e, more, next_line line c)
              (later_Sent hex (html_of status set) line c _
                (calls-Sent hex later status set (line + c) s h b r (ground (arith, more)) k.1))
        | inr done ↦ (
          c,
          omega (arith, le, lt),
          rw (calls, e, done, next_line line c) (ground (arith, done, le, lt)),
        )
      ]
