-- ===== src/Start.antt =====
-- esp8266/main.cpp: what is set up at the start, and on an event of the network. The calls of the
-- SDK and of the other parts are a list, in order. The parts under `DEMO` are left out.
pub mod Settings
pub mod Upgrade
pub mod Registered
pub mod Routes
mod Tests
use esp8266_xcode.Base.{
  ℕ, ◌+◌, List, [], ◌∷◌, ◌++◌, Option, none, some, Bool, true, false, ◌&&◌, ltb, if◌then◌else◌,
  length, drop,
}
use esp8266_xcode.Base.Int.{ℤ}
use esp8266_xcode.Base.Strings.{codes}
use esp8266_xcode.Lost.Number.{strtol}
use esp8266_xcode.Httpd.{text_eq, starts_with}
use esp8266_xcode.Fs.Files.{Lfs}
use esp8266_xcode.Fs.Files.Config.{read_config}
use esp8266_xcode.Web.{Form, ssid, ip, ota, mqtt, ntp, file_name}

-- The handlers that are registered.
pub data Page : Type 0 where
  web_system : Page
  web_form : Form → Page
  web_reset web_rtc : Page

-- STATION_MODE and STATIONAP_MODE.
pub data Mode : Type 0 where
  station station_ap : Mode

-- The events of the network that `wifi` tells apart.
pub data WifiEvent : Type 0 where
  got_ip connected disconnected dhcp_timeout : WifiEvent
  other : ℕ → WifiEvent

-- `softap_set_config` has channel 1, no hidden name, at most 4 clients and an interval of 100;
-- `station_set_config` scans all channels.
pub data Call : Type 0 where
  gpio_init fs_init rtc_begin set_event_handler app_setup : Call
  httpd_init : ℕ → Call
  httpd_regist : List ℕ → Option (List ℕ) → Page → Call
  softap_set_config : List ℕ → List ℕ → Call
  station_set_config : List ℕ → List ℕ → Call
  set_opmode : Mode → Call
  set_hostname : List ℕ → Call
  station_connect dhcpc_start sntp_init : Call
  mqtt_setup : List ℕ → ℤ → Call
  sntp_setservername : List ℕ → Call
  sntp_set_timezone : ℤ → Call
  ota_init : ℕ → Call
  app_wifi : Option WifiEvent → Call
  delay : ℕ → Call

abbrev pub html : Option (List ℕ)
html = some (codes "text/html")

-- What is done with the lines of each file; two lines are read of "mqtt" and "ntp".
unfoldable pub mqtt_calls : Option (List (List ℕ)) → List Call
mqtt_calls (some (server ∷ port ∷ [])) = mqtt_setup server (strtol port 10).0 ∷ []
mqtt_calls lines = []

-- A zone is a number behind "GMT-", or a number.
unfoldable pub zone_of : List ℕ → ℤ
zone_of zone = (strtol (if starts_with (codes "GMT-") zone then drop 4 zone else zone) 10).0

abbrev sntp : List ℕ → List ℕ → List Call
sntp server zone = sntp_setservername server ∷ sntp_set_timezone (zone_of zone) ∷ sntp_init ∷ []

unfoldable pub ntp_calls : Option (List (List ℕ)) → List Call
unfolding zone_of
ntp_calls (some (server ∷ zone ∷ [])) = sntp server zone
ntp_calls lines = sntp (codes "pool.ntp.org") (codes "8")

unfoldable pub ota_calls : Option (List (List ℕ)) → List Call
ota_calls (some (answer ∷ [])) = if text_eq answer (codes "YES") then ota_init 8266 ∷ [] else []
ota_calls lines = []

abbrev on_access_point : List ℕ → List Call
on_access_point thisname =
    set_opmode station_ap
    ∷ set_hostname thisname
    ∷ station_connect
    ∷ dhcpc_start
    ∷ httpd_regist (codes "/") html web_system
    ∷ []

abbrev then_app : {S : Type 0} → Option WifiEvent → Option (List Call × S) → Option (List Call × S)
then_app event none = none
then_app event (some (calls, s)) = some (calls ++ (app_wifi event ∷ []), s)

-- The components that `setup` starts, and their pages.
pub components : List Call
components =
    gpio_init
    ∷ fs_init
    ∷ httpd_init 80
    ∷ httpd_regist (codes "/") html web_system
    ∷ httpd_regist (codes "/ssid") none (web_form ssid)
    ∷ httpd_regist (codes "/ip") none (web_form ip)
    ∷ httpd_regist (codes "/ota") none (web_form ota)
    ∷ httpd_regist (codes "/mqtt") none (web_form mqtt)
    ∷ httpd_regist (codes "/ntp") none (web_form ntp)
    ∷ httpd_regist (codes "/reset") none web_reset
    ∷ httpd_regist (codes "/rtc") (some (codes "text/plain; charset=utf-8")) web_rtc
    ∷ rtc_begin
    ∷ []

-- The arrays `ssid` and `password` of the SDK's `station_config` have 32 and 64 bytes.
unfoldable pub station_calls : Option (List (List ℕ)) → Option (List Call)
station_calls (some (name ∷ password ∷ [])) =
    if ltb (length name) 32 && ltb (length password) 64
    then some (station_set_config name password ∷ [])
    else none
station_calls lines = some []

module _ (lfs : Lfs) where
  open lfs use {Store}

  -- The settings of one file, and then the rest; `none`: memory outside an array is used.
  abbrev pub with_config :
      {A : Type 0} → ℕ → Form → Store → (Option (List (List ℕ)) → Store → Option A) → Option A
  with_config count form s k = elim (read_config lfs count (file_name form) s) [
    | none ↦ none
    | some (lines, s') ↦ k lines s'
  ]

  unfoldable pub on_got_ip : List ℕ → Store → Option (List Call × Store)
  unfolding mqtt_calls ntp_calls ota_calls
  on_got_ip thisname s = with_config 2 mqtt s λ mqtt_lines s1. with_config 2 ntp s1 λ ntp_lines s2.
      with_config 1 ota s2 λ ota_lines s3. some (
        set_opmode station
            ∷ set_hostname thisname
            ∷ httpd_regist (codes "/setup") html web_system
            ∷ (mqtt_calls mqtt_lines ++ (ntp_calls ntp_lines ++ ota_calls ota_lines)),
        s3,
      )

  -- No event is the same as a lost connection.
  unfoldable pub wifi : List ℕ → Option WifiEvent → Store → Option (List Call × Store)
  unfolding on_got_ip
  wifi thisname none s = then_app none (some (on_access_point thisname, s))
  wifi thisname (some got_ip) s = then_app (some got_ip) (on_got_ip thisname s)
  wifi thisname (some connected) s = then_app (some connected) (some (on_access_point thisname, s))
  wifi thisname (some disconnected) s =
      then_app (some disconnected) (some (on_access_point thisname, s))
  wifi thisname (some dhcp_timeout) s =
      then_app (some dhcp_timeout) (some (on_access_point thisname, s))
  wifi thisname (some (other n)) s = then_app (some (other n)) (some ([], s))

  -- `name` and `password` are what `os_sprintf` makes of the formats and the address.
  unfoldable pub setup : List ℕ → List ℕ → Store → Option (List Call × Store)
  unfolding components station_calls wifi
  setup name password s = with_config 2 ssid s λ lines s'. elim (station_calls lines) [
    | none ↦ none
    | some station_config ↦ elim (wifi name none s') [
      | none ↦ none
      | some (calls, s'') ↦ some (
        components
            ++ (softap_set_config name password
                ∷ (station_config ++ (set_event_handler ∷ (calls ++ (app_setup ∷ []))))),
        s'',
      )
    ]
  ]

-- Under LOOP.
pub loop : List Call
loop = delay 100 ∷ []
