-- ===== src/Web/Tests.antt =====
-- Runs of esp8266/web/system.cpp on a store in memory.
use esp8266_xcode.Base.{
  ℕ, ◌+◌, ◌/◌, ◌%◌, ◌≤◌, ◌≢◌, List, [], ◌∷◌, ◌++◌, none, some, Bool, true, false, ◌||◌, ◌==◌, ltb,
  if◌then◌else◌, ◌≡◌, refl, arith, length,
}
use esp8266_xcode.Base.Strings.{codes}
use esp8266_xcode.Lost.Text.{c_str}
use esp8266_xcode.Httpd.Dispatch.{Event, httpd_redirect}
use esp8266_xcode.Httpd.Params.Escapes.{Quotes}
use esp8266_xcode.Httpd.Params.RoundTrip.{query}
use esp8266_xcode.Fs.Lines.{lf, file_of}
use esp8266_xcode.Fs.Files.{fs_open, fs_gets_fd, fs_close}
use esp8266_xcode.Fs.Files.Config.{read_config, gets_many}
use esp8266_xcode.Fs.Files.Memory.{memory, Names, put}
use esp8266_xcode.Web.{Form, ssid, ip, ota, mqtt, ntp, web_form, file_name, takes}
use esp8266_xcode.Web.Forms.{Accepts, values, web_form-query}
use esp8266_xcode.Web.Pages.{Status, first_of, second_of}
use esp8266_xcode.Web.Pages.Parts.{Settings, Bounded, html_of}
use esp8266_xcode.Web.Pages.Order.{Reads, Sent, calls, calls-Sent}

quote : ℕ → Bool
quote c = (c == b'%') || ((c == b'?') || ((c == b'=') || (c == b'&')))

quote-Quotes : Quotes quote
unfolding quote
quote-Quotes c h = ground arith

abbrev empty : Names
empty name = none

abbrev zone_form : List (List ℕ × List ℕ)
zone_form = (codes "name", codes "time.org") ∷ (codes "zone", codes "GMT-8") ∷ []

abbrev ntp_accepts : (text : List ℕ) → Accepts memory ntp text empty
ntp_accepts text = record {
  file = record { name = file_name ntp; text = []; pos = 0; reader = false };
  store = put (file_name ntp) [] empty;
  opened = refl;
  complete = refl;
}

web_form-query_example :
    (s' : Names) × (events : List Event) × (web_form memory ntp
        (codes "/ntp" ++ (b'?' ∷ query quote quote-Quotes zone_form))
        empty
      ≡ some (events, s'))
    × (httpd_redirect (codes "/") ≡ some events)
    × (s' (file_name ntp) ≡ some (file_of (values zone_form)))
    × ((other : List ℕ) → other ≢ file_name ntp → s' other ≡ none)
unfolding c_str takes
web_form-query_example =
    web_form-query memory quote quote-Quotes ntp (codes "/ntp") zone_form empty (omega arith)
      (omega arith) (refl, (refl, tt)) (ntp_accepts _)

-- The name of the network is set.
abbrev home : Names
home = put (codes "ssid") (file_of ((codes "home", lf) ∷ [])) empty

abbrev home_settings : Settings
home_settings ssid = some (codes "home" ∷ [])
home_settings ip = none
home_settings ota = none
home_settings mqtt = none
home_settings ntp = none

home-Reads : Reads memory home_settings home
unfolding file_name read_config fs_open gets_many fs_gets_fd file_of fs_close
home-Reads ssid = refl
home-Reads ip = refl
home-Reads ota = refl
home-Reads mqtt = refl
home-Reads ntp = refl

abbrev online : Status
online = record { has_ip = true; hostname = codes "ESP"; time = codes "12:00" }

home-Bounded : Bounded online home_settings
home-Bounded = record {
  hostname_le = omega arith;
  time_le = omega arith;
  first_le = first;
  second_le = second;
}
  where
    first : (form : Form) → length (first_of (home_settings form)) ≤ 127
    first ssid = omega arith
    first ip = omega arith
    first ota = omega arith
    first mqtt = omega arith
    first ntp = omega arith

    second : (form : Form) → length (second_of (home_settings form)) ≤ 127
    second ssid = omega arith
    second ip = omega arith
    second ota = omega arith
    second mqtt = omega arith
    second ntp = omega arith

abbrev hex_digit : ℕ → ℕ
hex_digit n = if ltb n 10 then 48 + n else 87 + n

abbrev hex : ℕ → List ℕ
hex n = hex_digit (n / 256 % 16) ∷ hex_digit (n / 16 % 16) ∷ hex_digit (n % 16) ∷ []

abbrev six : List Bool
six = true ∷ true ∷ true ∷ false ∷ true ∷ true ∷ []

abbrev three : List Bool
three = true ∷ true ∷ true ∷ []

calls-Sent_example :
    Sent hex (html_of online home_settings) 0 (calls memory hex (six ∷ six ∷ []) online 0 home)
calls-Sent_example =
    calls-Sent memory hex (six ∷ six ∷ []) online home_settings 0 home (λ n. omega arith)
      home-Bounded home-Reads (omega arith) (omega arith, (omega arith, tt))
