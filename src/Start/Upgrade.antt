-- ===== src/Start/Upgrade.antt =====
-- The setting of web_ota of esp8266/web/system.cpp decides whether esp8266/main.cpp listens for
-- updates.
use esp8266_xcode.Base.{
  ℕ, ◌≢◌, List, [], ◌∷◌, ◌++◌, none, some, Bool, ◌≡◌, refl, sym, ap, ◌∙◌, arith, length, get_or,
  All, append-nil, if◌then◌else◌,
}
use esp8266_xcode.Base.Strings.{codes}
use esp8266_xcode.Lost.Text.{c_str}
use esp8266_xcode.Httpd.{text_eq}
use esp8266_xcode.Httpd.Dispatch.{Event}
use esp8266_xcode.Httpd.Params.Escapes.{Quotes, Free}
use esp8266_xcode.Httpd.Params.RoundTrip.{query}
use esp8266_xcode.Fs.Lines.{lf, file_of}
use esp8266_xcode.Fs.Files.{Lfs}
use esp8266_xcode.Fs.Files.Config.{read_config, read_config-content, read_config_missing}
use esp8266_xcode.Web.{ota, mqtt, ntp, file_name, takes, web_form}
use esp8266_xcode.Web.Forms.{Accepts, values, web_form-query}
use esp8266_xcode.Start.{
  on_got_ip, wifi, with_config, mqtt_calls, ntp_calls, ota_calls, got_ip, app_wifi, set_opmode,
  set_hostname, httpd_regist, station, html, web_system, ota_init,
}
use esp8266_xcode.Start.Settings.{IsValue, value-IsLine}

-- The parameter that the page of the settings sends.
abbrev pub ota_form : List ℕ → List (List ℕ × List ℕ)
ota_form answer = (codes "ota", answer) ∷ []

ota-Free : All Free (codes "ota")
unfolding c_str
ota-Free = ground arith

ota_file :
    (answer : List ℕ) → file_of (values (ota_form answer)) ≡ file_of ((answer, lf) ∷ []) ++ []
unfolding values
ota_file answer = sym (append-nil _)

other_files : (file_name mqtt ≢ file_name ota) × (file_name ntp ≢ file_name ota)
unfolding file_name
other_files = (
  (λ e. absurd (omega (arith, ap length e))),
  (λ e. absurd (omega (arith, ap (λ l. get_or l 0 0) e))),
)

module _ (lfs : Lfs) where
  open lfs use {Store, content}

  ota_wifi :
      (answer thisname : List ℕ) (s : Store)
      → read_config lfs 1 (file_name ota) s ≡ some (some (answer ∷ []), s)
      → content (file_name mqtt) s ≡ none
      → content (file_name ntp) s ≡ none
      → wifi lfs thisname (some got_ip) s
        ≡ some (
          set_opmode station
              ∷ set_hostname thisname
              ∷ httpd_regist (codes "/setup") html web_system
              ∷ ((ntp_calls none
                    ++ (if text_eq answer (codes "YES") then ota_init 8266 ∷ [] else []))
                  ++ (app_wifi (some got_ip) ∷ [])),
          s,
        )
  unfolding wifi on_got_ip mqtt_calls ota_calls
  ota_wifi answer thisname s o m n = rw (
    wifi,
    on_got_ip,
    with_config,
    read_config_missing lfs 2 (file_name mqtt) s m,
    with_config,
    read_config_missing lfs 2 (file_name ntp) s n,
    with_config,
    o,
  )

  -- For an answer of at most 126 bytes, with no NUL, CR or LF, where the file can be made and
  -- written and the files of MQTT and NTP are not there: when the form of web_ota has sent the
  -- answer, escaped, the event that there is an address makes the system listen for updates, at
  -- port 8266, if the answer is YES, and not otherwise.
  pub wifi-web_ota :
      (quote : ℕ → Bool) (quotes : Quotes quote) (path answer thisname : List ℕ) (s : Store)
      → All Free path
      → IsValue 126 answer
      → Accepts lfs ota (file_of (values (ota_form answer))) s
      → content (file_name mqtt) s ≡ none
      → content (file_name ntp) s ≡ none
      → (s' : Store) × (events : List Event) × (web_form lfs ota
            (path ++ (b'?' ∷ query quote quotes (ota_form answer)))
            s
          ≡ some (events, s'))
        × (wifi lfs thisname (some got_ip) s'
            ≡ some (
              set_opmode station
                  ∷ set_hostname thisname
                  ∷ httpd_regist (codes "/setup") html web_system
                  ∷ ((ntp_calls none
                        ++ (if text_eq answer (codes "YES") then ota_init 8266 ∷ [] else []))
                      ++ (app_wifi (some got_ip) ∷ [])),
              s',
            ))
  unfolding takes
  wifi-web_ota quote quotes path answer thisname s free h accepts m n =
      let (s', events, saved, _, own, others) =
        web_form-query lfs quote quotes ota path (ota_form answer) s free ((ota-Free, h.0), tt)
          (refl, tt) accepts in
      (
        s',
        events,
        saved,
        ota_wifi answer thisname s'
            (read_config-content lfs (file_name ota) ((answer, lf) ∷ []) [] s'
              (own ∙ ap some (ota_file answer)) (value-IsLine 126 answer (omega arith) h, tt))
            (others (file_name mqtt) other_files.0 ∙ m) (others (file_name ntp) other_files.1 ∙ n),
      )
