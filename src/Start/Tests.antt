-- ===== src/Start/Tests.antt =====
-- Runs of esp8266/main.cpp on a store in memory.
use esp8266_xcode.Web.{ota}
use esp8266_xcode.Start.{ota_init}
use esp8266_xcode.Start.Upgrade.{ota_form, wifi-web_ota}
use esp8266_xcode.Start.{Page}
use esp8266_xcode.Fs.Files.{fs_open}
use esp8266_xcode.Base.{map}
use esp8266_xcode.Httpd.Dispatch.{httpd_server_recv}
use esp8266_xcode.Httpd.Dispatch.Exchange.{request, done}
use esp8266_xcode.Start.{Call}
use esp8266_xcode.Start.Registered.{Online, network, started, registered, path_of}
use esp8266_xcode.Start.Routes.{below, callback, answered, recv-Addresses}
use esp8266_xcode.Base.{
  ℕ, List, [], ◌∷◌, ◌++◌, none, some, Bool, false, ◌||◌, ◌==◌, ◌≡◌, refl, arith,
}
use esp8266_xcode.Base.Int.{pos}
use esp8266_xcode.Base.Strings.{codes}
use esp8266_xcode.Lost.Text.{c_str}
use esp8266_xcode.Lost.Number.Laws.{print_int, decimal}
use esp8266_xcode.Httpd.Dispatch.{Event}
use esp8266_xcode.Httpd.Params.Escapes.{Quotes}
use esp8266_xcode.Httpd.Params.RoundTrip.{query}
use esp8266_xcode.Fs.Lines.{file_of, End, lf, crlf}
use esp8266_xcode.Fs.Files.Config.{read_config, read_config-content}
use esp8266_xcode.Fs.Files.Memory.{memory, Names, put}
use esp8266_xcode.Web.{Form, ssid, mqtt, web_form, file_name}
use esp8266_xcode.Web.Forms.{Accepts}
use esp8266_xcode.Start.{
  components, on_access_point, setup, wifi, ntp_calls, got_ip, station, html, web_system,
  set_opmode, set_hostname, httpd_regist, mqtt_setup, softap_set_config, station_set_config,
  set_event_handler, app_setup, app_wifi,
}
use esp8266_xcode.Start.Settings.{ssid_form, mqtt_form, setup-web_ssid, wifi-web_mqtt}

quote : ℕ → Bool
quote c = (c == b'%') || ((c == b'?') || ((c == b'=') || (c == b'&')))

quote-Quotes : Quotes quote
unfolding quote
quote-Quotes c h = ground arith

abbrev empty : Names
empty name = none

memory-Accepts : (form : Form) (text : List ℕ) → Accepts memory form text empty
memory-Accepts form text = record {
  file = record { name = file_name form; text = []; pos = 0; reader = false };
  store = put (file_name form) [] empty;
  opened = refl;
  complete = refl;
}

setup-web_ssid_example :
    (s' : Names) × (events : List Event) × (web_form memory ssid
        (codes "/ssid"
          ++ (b'?' ∷ query quote quote-Quotes (ssid_form (codes "home") (codes "a=b"))))
        empty
      ≡ some (events, s'))
    × (setup memory (codes "ESP") (codes "8266") s'
        ≡ some (
          components
              ++ (softap_set_config (codes "ESP") (codes "8266")
                  ∷ station_set_config (codes "home") (codes "a=b")
                  ∷ set_event_handler
                  ∷ (on_access_point (codes "ESP") ++ (app_wifi none ∷ []) ++ (app_setup ∷ []))),
          s',
        ))
unfolding c_str
setup-web_ssid_example =
    setup-web_ssid memory quote quote-Quotes (codes "/ssid") (codes "home") (codes "a=b")
      (codes "ESP") (codes "8266") empty (omega arith) (omega arith) (omega arith)
      (memory-Accepts ssid _)

wifi-web_mqtt_example :
    (s' : Names) × (events : List Event) × (web_form memory mqtt
        (codes "/mqtt" ++ (b'?' ∷ query quote quote-Quotes (mqtt_form (codes "broker") (pos 1883))))
        empty
      ≡ some (events, s'))
    × (wifi memory (codes "ESP") (some got_ip) s'
        ≡ some (
          set_opmode station
              ∷ set_hostname (codes "ESP")
              ∷ httpd_regist (codes "/setup") html web_system
              ∷ (mqtt_setup (codes "broker") (pos 1883)
                  ∷ (ntp_calls none ++ (app_wifi (some got_ip) ∷ []))),
          s',
        ))
unfolding c_str print_int decimal
wifi-web_mqtt_example =
    wifi-web_mqtt memory quote quote-Quotes (codes "/mqtt") (codes "broker") (pos 1883)
      (codes "ESP") empty (omega arith) (omega arith) (memory-Accepts mqtt _) refl refl
      (omega arith, omega arith)

-- Two lines, and one that is not read.
abbrev zone_lines : List (List ℕ × End)
zone_lines = (codes "time.org", lf) ∷ (codes "GMT-8", crlf) ∷ []

abbrev zone_file : Names
zone_file = put (codes "ntp") (file_of zone_lines ++ codes "rest") empty

read_config-content_example :
    read_config memory 2 (codes "ntp") zone_file
    ≡ some (some (codes "time.org" ∷ codes "GMT-8" ∷ []), zone_file)
read_config-content_example =
    read_config-content memory (codes "ntp") zone_lines (codes "rest") zone_file refl (omega arith)

-- The first start, without files, and then an address.
abbrev first_calls : List Call
first_calls =
    components
    ++ (softap_set_config (codes "ESP") (codes "8266")
        ∷ set_event_handler
        ∷ (on_access_point (codes "ESP") ++ (app_wifi none ∷ []) ++ (app_setup ∷ [])))

abbrev address_calls : List Call
address_calls =
    set_opmode station
    ∷ set_hostname (codes "ESP")
    ∷ httpd_regist (codes "/setup") html web_system
    ∷ (ntp_calls none ++ (app_wifi (some got_ip) ∷ []))

online : Online memory (codes "ESP") (codes "8266") (first_calls ++ address_calls)
unfolding setup wifi ntp_calls read_config fs_open
online = network empty empty (some got_ip) (started empty empty refl) refl

recv-Addresses_example :
    httpd_server_recv
      (map (callback (λ page url line. done)) (registered (first_calls ++ address_calls) []))
      none
      (request (codes "/mqtt" ++ codes "?port=1883") (codes "HTTP/1.1"))
    ≡ answered (λ page url line. done) (Page.web_form mqtt) (codes "/mqtt" ++ codes "?port=1883")
unfolding path_of c_str file_name
recv-Addresses_example =
    recv-Addresses (λ page url line. done) none (codes "HTTP/1.1") online
      (below (Page.web_form mqtt) (codes "?port=1883") tt) (omega arith)

wifi-web_ota_example :
    (s' : Names) × (events : List Event) × (web_form memory ota
        (codes "/ota" ++ (b'?' ∷ query quote quote-Quotes (ota_form (codes "YES"))))
        empty
      ≡ some (events, s'))
    × (wifi memory (codes "ESP") (some got_ip) s'
        ≡ some (
          set_opmode station
              ∷ set_hostname (codes "ESP")
              ∷ httpd_regist (codes "/setup") html web_system
              ∷ ((ntp_calls none ++ (ota_init 8266 ∷ [])) ++ (app_wifi (some got_ip) ∷ [])),
          s',
        ))
unfolding c_str
wifi-web_ota_example =
    wifi-web_ota memory quote quote-Quotes (codes "/ota") (codes "YES") (codes "ESP") empty
      (omega arith) (omega arith) (memory-Accepts ota _) refl refl
