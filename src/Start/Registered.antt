-- ===== src/Start/Registered.antt =====
-- The handlers that esp8266/main.cpp has registered, after any events of the network. The functions
-- app_setup and app_wifi of the application are those of main.cpp, which are empty.
pub mod Events
use mathlib.Core.Path.{subst}
use esp8266_xcode.Base.{
  ℕ, List, [], ◌∷◌, ◌++◌, Option, none, some, Bool, true, false, if◌then◌else◌, ◌≡◌, refl, ap, sym,
  ◌∙◌, ◌⊎◌, inl, inr, map, ltb, length, ◌&&◌,
}
use esp8266_xcode.Base.Strings.{codes}
use esp8266_xcode.Httpd.{Handler}
use esp8266_xcode.Httpd
use esp8266_xcode.Fs.Files.{Lfs}
use esp8266_xcode.Fs.Files.Config.{read_config}
use esp8266_xcode.Web.{ssid, ip, ota, mqtt, ntp, file_name}
use esp8266_xcode.Start.{
  Page, web_system, web_form, web_reset, web_rtc, Call, httpd_regist, WifiEvent, got_ip, connected,
  disconnected, dhcp_timeout, other, html, components, station_calls, mqtt_calls, ntp_calls,
  ota_calls, on_got_ip, on_access_point, then_app, wifi, setup, app_wifi, app_setup,
  softap_set_config, set_event_handler,
}

-- The calls of `httpd_regist`, in order, on the list of handlers.
abbrev regist : Call → List (Handler Page) → List (Handler Page)
regist (httpd_regist url type page) nodes = Httpd.httpd_regist url type page nodes
regist _ nodes = nodes

pub registered : List Call → List (Handler Page) → List (Handler Page)
registered [] nodes = nodes
registered (call ∷ calls) nodes = registered calls (regist call nodes)

-- From the start on: events of the network, each with the files as they are then.
pub data Online (lfs : Lfs) (name password : List ℕ) : List Call → Type 0 where
  started :
      (s s' : lfs.Store) {calls : List Call}
      → setup lfs name password s ≡ some (calls, s')
      → Online lfs name password calls
  network :
      (s s' : lfs.Store) {calls more : List Call} (e : Option WifiEvent)
      → Online lfs name password calls
      → wifi lfs name e s ≡ some (more, s')
      → Online lfs name password (calls ++ more)

-- The path and the type of each page.
unfoldable pub path_of : Page → List ℕ
path_of web_system = codes "/"
path_of (web_form form) = b'/' ∷ file_name form
path_of web_reset = codes "/reset"
path_of web_rtc = codes "/rtc"

unfoldable pub type_of : Page → Option (List ℕ)
type_of web_system = html
type_of (web_form form) = none
type_of web_reset = none
type_of web_rtc = some (codes "text/plain; charset=utf-8")

abbrev pub node : Page → Handler Page
node page = record { url = path_of page; type = type_of page; handler = page }

-- Without "/setup", the last page first.
abbrev pub others : List Page
others =
    web_rtc
    ∷ web_reset
    ∷ web_form ntp
    ∷ web_form mqtt
    ∷ web_form ota
    ∷ web_form ip
    ∷ web_form ssid
    ∷ []

abbrev pub base : List (Handler Page)
base = map node others ++ (node web_system ∷ [])

abbrev pub setup_node : Handler Page
setup_node = record { url = codes "/setup"; type = html; handler = web_system }

abbrev pub IsTable : List (Handler Page) → Type 0
IsTable nodes = (nodes ≡ base) ⊎ (nodes ≡ setup_node ∷ base)
