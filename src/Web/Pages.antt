-- ===== src/Web/Pages.antt =====
-- `web_system` of esp8266/web/system.cpp: the page of the system in six parts, each one chunk.
pub mod Size
pub mod Parts
pub mod Order
use esp8266_xcode.Base.{
  ℕ, zero, suc, ◌+◌, ◌-◌, List, [], ◌∷◌, ◌++◌, Option, none, some, Bool, true, false, ◌==◌, ltb,
  if◌then◌else◌, length,
}
use esp8266_xcode.Base.Strings.{codes}
use esp8266_xcode.Httpd.Dispatch.{Event, Answer, httpd_chunk_send}
use esp8266_xcode.Fs.Files.{Lfs}
use esp8266_xcode.Fs.Files.Config.{read_config}
use esp8266_xcode.Web.{Form, ssid, ota, mqtt, ntp, file_name}

-- What the SDK says of the system; `has_ip` is `STATION_GOT_IP`. The text `web_css` is empty.
pub record Status : Type 0 where
  pub has_ip : Bool
  pub hostname : List ℕ
  pub time : List ℕ

abbrev web_css : List ℕ
web_css = []

-- The two cells of a field with its label, and the button.
abbrev pub label : List ℕ → List ℕ
label text = codes "<tr><td><label>" ++ (text ++ codes "</label></td><td>")

unfoldable pub input : List ℕ → List ℕ → List ℕ
input name value =
    codes "<input name='" ++ (name ++ (codes "' length=32 value='" ++ (value ++ codes "'></td>")))

abbrev pub submit : List ℕ
submit = codes "<td><input type='submit'></td></tr></form>"

abbrev pub form_start : List ℕ → List ℕ
form_start action = codes "<form method='get' action='" ++ (action ++ codes "'>")

unfoldable pub head_html : Status → List ℕ
head_html status =
    codes "<html><head>"
    ++ ((if status.has_ip then web_css else [])
        ++ (codes "<title>" ++ (status.hostname ++ codes "</title></head><body><table>")))

unfoldable pub ssid_html : List ℕ → List ℕ
ssid_html name =
    form_start (codes "ssid")
    ++ (label (codes "SSID")
        ++ (input (codes "ssid") name
            ++ (codes "</tr>"
                ++ (label (codes "PASS")
                    ++ (codes "<input type='password' name='pass' length=32></td>" ++ submit)))))

unfoldable pub ota_html : List ℕ → List ℕ
ota_html answer =
    form_start (codes "ota") ++ (label (codes "OTA") ++ (input (codes "ota") answer ++ submit))

-- A form of two fields.
unfoldable pub two_fields : List ℕ → List ℕ → List ℕ → List ℕ → List ℕ → List ℕ → List ℕ → List ℕ
two_fields action label1 name1 value1 label2 name2 value2 =
    form_start action
    ++ (label label1
        ++ (input name1 value1
            ++ (codes "</tr>" ++ (label label2 ++ (input name2 value2 ++ submit)))))

unfoldable pub mqtt_html : List ℕ → List ℕ → List ℕ
mqtt_html server port =
    two_fields (codes "mqtt") (codes "MQTT") (codes "mqtt") server (codes "PORT") (codes "port")
      port

unfoldable pub ntp_html : List ℕ → List ℕ → List ℕ
ntp_html server zone =
    two_fields (codes "ntp") (codes "NTP") (codes "name") server (codes "ZONE") (codes "zone") zone

unfoldable pub tail_html : Status → List ℕ
tail_html status =
    codes "</table>"
    ++ (status.time
        ++ codes
            "<form method='get' action='reset'><button type='submit'>Reset</button></form></body></html>")

-- A value that was not read, or is empty, has a default.
abbrev pub or_default : List ℕ → List ℕ → List ℕ
or_default d [] = d
or_default d (c ∷ text) = c ∷ text

abbrev pub first_of : Option (List (List ℕ)) → List ℕ
first_of (some (a ∷ rest)) = a
first_of lines = []

abbrev pub second_of : Option (List (List ℕ)) → List ℕ
second_of (some (a ∷ b ∷ rest)) = b
second_of lines = []

module _ (lfs : Lfs) where
  open lfs use {Store}

  -- The lines of a settings file, as a function of them; `none`: memory outside an array is used.
  unfoldable pub with_lines :
      ℕ → Form → Store → (Option (List (List ℕ)) → List ℕ) → Option (List ℕ × Store)
  with_lines count form s html = elim (read_config lfs count (file_name form) s) [
    | none ↦ none
    | some (lines, s') ↦ some (html lines, s')
  ]

  -- The text of the part `line`.
  unfoldable pub part : Status → ℕ → Store → Option (List ℕ × Store)
  part status zero s = some (head_html status, s)
  part status (suc zero) s = with_lines 1 ssid s (λ l. ssid_html (first_of l))
  part status (suc (suc zero)) s = with_lines 1 ota s (λ l. ota_html (first_of l))
  part status (suc (suc (suc zero))) s =
      with_lines 2 mqtt s (λ l. mqtt_html (first_of l) (or_default (codes "1883") (second_of l)))
  part status (suc (suc (suc (suc zero)))) s = with_lines 2 ntp s (λ l.
      ntp_html (or_default (codes "pool.ntp.org") (first_of l))
        (or_default (codes "8") (second_of l)))
  part status (suc (suc (suc (suc (suc n))))) s = some (tail_html status, s)

  -- The chunks from `line` on: `left` are the parts that are left, and `accepted` says of each
  -- packet whether `espconn_sent` takes it. Where one is not taken, the call ends with true, and
  -- `line` stays at it.
  unfoldable pub parts_loop :
      (ℕ → List ℕ) → List Bool → Status → ℕ → ℕ → Store → Option (Answer × Store)
  parts_loop hex accepted status zero line s =
      some (record { events = []; line = none; more = false }, s)
  parts_loop hex [] status (suc left) line s = none
  parts_loop hex (ok ∷ accepted) status (suc left) line s = elim (part status line s) [
    | none ↦ none
    | some (html, s') ↦ elim (httpd_chunk_send hex ok (line + 1) html) [
      | none ↦ none
      | some a ↦ elim a.more [
        | false ↦ some (record a { more = true }, s')
        | true ↦ elim (parts_loop hex accepted status left (line + 1) s') [
          | none ↦ none
          | some (rest, s'') ↦ some (
            record {
              events = a.events ++ rest.events;
              line = elim rest.line [ none ↦ a.line | some n ↦ some n ];
              more = rest.more;
            },
            s'',
          )
        ]
      ]
    ]
  ]

  unfoldable pub web_system :
      (ℕ → List ℕ) → List Bool → Status → ℕ → Store → Option (Answer × Store)
  web_system hex accepted status line s = parts_loop hex accepted status (6 - line) line s
