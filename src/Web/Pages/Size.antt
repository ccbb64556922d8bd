-- ===== src/Web/Pages/Size.antt =====
-- The lengths of the parts of the page that `web_system` of esp8266/web/system.cpp makes.
use esp8266_xcode.Base.{
  ℕ, ◌+◌, ◌≤◌, List, [], ◌∷◌, ◌++◌, ◌≡◌, refl, ap, ◌∙◌, arith, length, length-append, if◌then◌else◌,
  Bool, true, false,
}
use esp8266_xcode.Base.Strings.{codes}
use esp8266_xcode.Web.Pages.{
  Status, label, input, submit, form_start, head_html, ssid_html, ota_html, two_fields, mqtt_html,
  ntp_html, tail_html, or_default,
}

length-input : (name value : List ℕ) → length (input name value) ≡ 39 + length name + length value
unfolding input
length-input name value = omega (
  arith,
  length-append name (codes "' length=32 value='" ++ (value ++ codes "'></td>")),
  length-append value (codes "'></td>"),
)

pub length-ssid_html : (name : List ℕ) → length (ssid_html name) ≡ 245 + length name
unfolding ssid_html
length-ssid_html name = omega (
  arith,
  length-input (codes "ssid") name,
  length-append (input (codes "ssid") name) (
      (codes "</tr>"
        ++ (label (codes "PASS")
            ++ (codes "<input type='password' name='pass' length=32></td>" ++ submit)))),
)

pub length-ota_html : (name : List ℕ) → length (ota_html name) ≡ 151 + length name
unfolding ota_html
length-ota_html name =
    omega (arith, length-input (codes "ota") name, length-append (input (codes "ota") name) submit)

length-two_fields :
    (action label1 name1 value1 label2 name2 value2 : List ℕ)
    → length (two_fields action label1 name1 value1 label2 name2 value2)
      ≡ 218
        + length action
        + length label1
        + length name1
        + length value1
        + length label2
        + length name2
        + length value2
unfolding two_fields
length-two_fields action label1 name1 value1 label2 name2 value2 =
    let end2 = input name2 value2 ++ submit in
    let end1 = input name1 value1 ++ (codes "</tr>" ++ (label label2 ++ end2)) in
    omega (
      arith,
      length-input name1 value1,
      length-input name2 value2,
      length-append (input name2 value2) submit,
      length-append (input name1 value1) (codes "</tr>" ++ (label label2 ++ end2)),
      length-append (label label2) end2,
      length-append label2 (codes "</label></td><td>"),
      length-append (label label1) end1,
      length-append label1 (codes "</label></td><td>"),
      length-append (form_start action) (label label1 ++ end1),
      length-append action (codes "'>"),
    )

abbrev empty : List ℕ
empty = []

pub length-head_html : (s : Status) → length (head_html s) ≡ 47 + length s.hostname
unfolding head_html
length-head_html s =
    ap
      (λ t. length (
        codes "<html><head>"
        ++ (t ++ (codes "<title>" ++ (s.hostname ++ codes "</title></head><body><table>")))))
      (no_css s.has_ip)
    ∙ omega (arith, length-append s.hostname (codes "</title></head><body><table>"))
  where
    no_css : (b : Bool) → (if b then [] else []) ≡ empty
    no_css true = refl
    no_css false = refl

pub length-tail_html : (s : Status) → length (tail_html s) ≡ 99 + length s.time
unfolding tail_html
length-tail_html s = omega (
  arith,
  length-append s.time (
      codes
        "<form method='get' action='reset'><button type='submit'>Reset</button></form></body></html>"),
)

-- The lengths of the two pages with defaults.
pub length-or_default :
    (d text : List ℕ) (n : ℕ) → length d ≤ n → length text ≤ n → length (or_default d text) ≤ n
length-or_default d [] n h k = h
length-or_default d (c ∷ text) n h k = k

pub length-mqtt_html :
    (server port : List ℕ) → length (mqtt_html server port) ≡ 238 + length server + length port
unfolding mqtt_html
length-mqtt_html server port = omega (
  arith,
  length-two_fields (codes "mqtt") (codes "MQTT") (codes "mqtt") server (codes "PORT")
      (codes "port") port,
)

pub length-ntp_html :
    (server zone : List ℕ) → length (ntp_html server zone) ≡ 236 + length server + length zone
unfolding ntp_html
length-ntp_html server zone = omega (
  arith,
  length-two_fields (codes "ntp") (codes "NTP") (codes "name") server (codes "ZONE") (codes "zone")
      zone,
)
