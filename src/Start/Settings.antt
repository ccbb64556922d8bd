-- ===== src/Start/Settings.antt =====
-- The settings of the pages of esp8266/web/system.cpp are those that esp8266/main.cpp reads.
use esp8266_xcode.Base.{
  ℕ, ◌≤◌, ◌<◌, ◌≢◌, List, [], ◌∷◌, ◌++◌, none, some, Bool, lt→ltb, ◌≡◌, refl, sym, ap, ◌∙◌, arith,
  length, length-append, All, append-nil,
}
use esp8266_xcode.Base.Int.{ℤ, IsLong}
use esp8266_xcode.Base.Strings.{codes}
use esp8266_xcode.Lost.Text.{c_str}
use esp8266_xcode.Lost.Number.{strtol}
use esp8266_xcode.Lost.Number.Laws.{print_int, print_int_range, length-print_int, strtol-print_int}
use esp8266_xcode.Httpd.Dispatch.{Event}
use esp8266_xcode.Httpd.Params.Escapes.{Quotes, Free, IsByte}
use esp8266_xcode.Httpd.Params.RoundTrip.{query}
use esp8266_xcode.Fs.Lines.{lf, file_of, IsInner, IsLine}
use esp8266_xcode.Fs.Files.{Lfs}
use esp8266_xcode.Fs.Files.Config.{read_config, read_config-content, read_config_missing}
use esp8266_xcode.Web.{Form, ssid, ip, ota, mqtt, ntp, file_name, takes}
use esp8266_xcode.Web
use esp8266_xcode.Web.Forms.{Accepts, values, web_form-query}
use esp8266_xcode.Start.{
  components, station_calls, on_got_ip, on_access_point, wifi, setup, with_config, mqtt_calls,
  ntp_calls, ota_calls, got_ip, softap_set_config, station_set_config, set_event_handler, app_setup,
  app_wifi, set_opmode, set_hostname, httpd_regist, station, html, web_system, mqtt_setup,
}

-- A value that a form sends and a line can hold.
abbrev pub IsValue : ℕ → List ℕ → Type 0
IsValue n v = All IsByte v × All IsInner v × (length v ≤ n)

pub value-IsLine : (n : ℕ) (v : List ℕ) → n ≤ 126 → IsValue n v → IsLine 127 (v, lf)
value-IsLine n v k h = (h.1, omega (arith, length-append v (10 ∷ []), h.2))

pair_file :
    (k1 k2 a b : List ℕ)
    → file_of (values ((k1, a) ∷ (k2, b) ∷ [])) ≡ file_of ((a, lf) ∷ (b, lf) ∷ []) ++ []
unfolding values
pair_file k1 k2 a b = sym (append-nil _)

digits_of : (t : List ℕ) → All (λ c. (b'-' ≤ c) × (c ≤ b'9')) t → All IsByte t × All IsInner t
digits_of [] h = (tt, tt)
digits_of (c ∷ t) h =
    let (bytes, inner) = digits_of t h.1 in
    (
      ((omega arith, omega arith), bytes),
      (
        ((λ e. absurd (omega arith)), (λ e. absurd (omega arith)), (λ e. absurd (omega arith))),
        inner,
      ),
    )

-- The parameters that the page of the settings sends.
abbrev pub ssid_form : List ℕ → List ℕ → List (List ℕ × List ℕ)
ssid_form name password = (codes "ssid", name) ∷ (codes "pass", password) ∷ []

abbrev pub mqtt_form : List ℕ → ℤ → List (List ℕ × List ℕ)
mqtt_form server port = (codes "mqtt", server) ∷ (codes "port", print_int port) ∷ []

ssid-Free : All Free (codes "ssid")
unfolding c_str
ssid-Free = ground arith

pass-Free : All Free (codes "pass")
unfolding c_str
pass-Free = ground arith

mqtt-Free : All Free (codes "mqtt")
unfolding c_str
mqtt-Free = ground arith

port-Free : All Free (codes "port")
unfolding c_str
port-Free = ground arith

module _ (lfs : Lfs) where
  open lfs use {Store, content}

  -- The two lines that a form has left.
  read_pair :
      (form : Form) (k1 k2 a b : List ℕ) (s : Store)
      → IsLine 127 (a, lf)
      → IsLine 127 (b, lf)
      → content (file_name form) s ≡ some (file_of (values ((k1, a) ∷ (k2, b) ∷ [])))
      → read_config lfs 2 (file_name form) s ≡ some (some (a ∷ b ∷ []), s)
  read_pair form k1 k2 a b s ha hb c =
      read_config-content lfs (file_name form) ((a, lf) ∷ (b, lf) ∷ []) [] s
        (c ∙ ap some (pair_file k1 k2 a b)) (ha, (hb, tt))

  setup_station :
      (name password ap_name ap_password : List ℕ) (s : Store)
      → read_config lfs 2 (file_name ssid) s ≡ some (some (name ∷ password ∷ []), s)
      → length name < 32
      → length password < 64
      → setup lfs ap_name ap_password s
        ≡ some (
          components
              ++ (softap_set_config ap_name ap_password
                  ∷ station_set_config name password
                  ∷ set_event_handler
                  ∷ (on_access_point ap_name ++ (app_wifi none ∷ []) ++ (app_setup ∷ []))),
          s,
        )
  unfolding setup station_calls wifi
  setup_station name password ap_name ap_password s r h k = rw (
    setup,
    with_config,
    r,
    station_calls,
    lt→ltb (length name) 32 h,
    lt→ltb (length password) 64 k,
  )

  -- For a name of at most 31 bytes and a password of at most 63, with no NUL, CR or LF, where
  -- the file can be made and written: when the form of web_ssid has sent them, escaped, and the
  -- system starts again, setup connects to the station of this name and password.
  pub setup-web_ssid :
      (quote : ℕ → Bool) (quotes : Quotes quote) (path name password ap_name ap_password : List ℕ)
      (s : Store)
      → All Free path
      → IsValue 31 name
      → IsValue 63 password
      → Accepts lfs ssid (file_of (values (ssid_form name password))) s
      → (s' : Store) × (events : List Event) × (Web.web_form lfs ssid
            (path ++ (b'?' ∷ query quote quotes (ssid_form name password)))
            s
          ≡ some (events, s'))
        × (setup lfs ap_name ap_password s'
            ≡ some (
              components
                  ++ (softap_set_config ap_name ap_password
                      ∷ station_set_config name password
                      ∷ set_event_handler
                      ∷ (on_access_point ap_name ++ (app_wifi none ∷ []) ++ (app_setup ∷ []))),
              s',
            ))
  unfolding takes
  setup-web_ssid quote quotes path name password ap_name ap_password s free hn hp accepts =
      let ps = ssid_form name password in
      let (s', events, saved, _, own, _) =
        web_form-query lfs quote quotes ssid path ps s free
          ((ssid-Free, hn.0), ((pass-Free, hp.0), tt)) (refl, (refl, tt)) accepts in
      (
        s',
        events,
        saved,
        setup_station name password ap_name ap_password s'
            (read_pair ssid (codes "ssid") (codes "pass") name password s'
              (value-IsLine 31 name (omega arith) hn) (value-IsLine 63 password (omega arith) hp)
              own)
            (omega (arith, hn.2)) (omega (arith, hp.2)),
      )

  mqtt_wifi :
      (server : List ℕ) (port : ℤ) (thisname : List ℕ) (s : Store)
      → read_config lfs 2 (file_name mqtt) s ≡ some (some (server ∷ print_int port ∷ []), s)
      → content (file_name ntp) s ≡ none
      → content (file_name ota) s ≡ none
      → IsLong port
      → wifi lfs thisname (some got_ip) s
        ≡ some (
          set_opmode station
              ∷ set_hostname thisname
              ∷ httpd_regist (codes "/setup") html web_system
              ∷ (mqtt_setup server port ∷ (ntp_calls none ++ (app_wifi (some got_ip) ∷ []))),
          s,
        )
  unfolding wifi on_got_ip mqtt_calls ota_calls
  mqtt_wifi server port thisname s m n o k =
      let number : (strtol (print_int port) 10).0 ≡ port =
        ap (λ t. (strtol t 10).0) (sym (append-nil (print_int port)))
        ∙ ap (λ r. r.0) (strtol-print_int port [] k tt) in
      rw (
        wifi,
        on_got_ip,
        with_config,
        m,
        with_config,
        read_config_missing lfs 2 (file_name ntp) s n,
        with_config,
        read_config_missing lfs 1 (file_name ota) s o,
        number,
      )

  other_names : (file_name ntp ≢ file_name mqtt) × (file_name ota ≢ file_name mqtt)
  unfolding file_name
  other_names =
      ((λ e. absurd (omega (arith, ap length e))), (λ e. absurd (omega (arith, ap length e))))

  -- For a server of at most 126 bytes, with no NUL, CR or LF, and a port between -(2 ^ 31) and 2
  -- ^ 31, both excluded, where the file can be made and written and the files of NTP and OTA are
  -- not there: when the form of web_mqtt has sent them, escaped, the event that there is an
  -- address sets up MQTT with this server and port.
  pub wifi-web_mqtt :
      (quote : ℕ → Bool) (quotes : Quotes quote) (path server : List ℕ) (port : ℤ)
      (thisname : List ℕ) (s : Store)
      → All Free path
      → IsValue 126 server
      → Accepts lfs mqtt (file_of (values (mqtt_form server port))) s
      → content (file_name ntp) s ≡ none
      → content (file_name ota) s ≡ none
      → IsLong port
      → (s' : Store) × (events : List Event) × (Web.web_form lfs mqtt
            (path ++ (b'?' ∷ query quote quotes (mqtt_form server port)))
            s
          ≡ some (events, s'))
        × (wifi lfs thisname (some got_ip) s'
            ≡ some (
              set_opmode station
                  ∷ set_hostname thisname
                  ∷ httpd_regist (codes "/setup") html web_system
                  ∷ (mqtt_setup server port ∷ (ntp_calls none ++ (app_wifi (some got_ip) ∷ []))),
              s',
            ))
  unfolding takes
  wifi-web_mqtt quote quotes path server port thisname s free hs accepts no_ntp no_ota k =
      let (ascii, inner) = digits_of (print_int port) (print_int_range port) in
      let number : IsValue 126 (print_int port) =
        (ascii, inner, omega (arith, length-print_int port k)) in
      let (s', events, saved, _, own, others) =
        web_form-query lfs quote quotes mqtt path (mqtt_form server port) s free
          ((mqtt-Free, hs.0), ((port-Free, number.0), tt)) (refl, (refl, tt)) accepts in
      (
        s',
        events,
        saved,
        mqtt_wifi server port thisname s'
            (read_pair mqtt (codes "mqtt") (codes "port") server (print_int port) s'
              (value-IsLine 126 server (omega arith) hs)
              (value-IsLine 126 (print_int port) (omega arith) number) own)
            (others (file_name ntp) other_names.0 ∙ no_ntp)
            (others (file_name ota) other_names.1 ∙ no_ota) k,
      )
