-- ===== src/Web.antt =====
-- esp8266/web/system.cpp: the pages of the system and the forms that they send.
pub mod Forms
pub mod Pages
mod Tests
use esp8266_xcode.Base.{
  ℕ, zero, suc, ◌+◌, ◌-◌, List, [], ◌∷◌, ◌++◌, Option, none, some, Bool, true, false, ◌==◌, ◌||◌,
  ltb, if◌then◌else◌, length,
}
use esp8266_xcode.Base.Strings.{codes}
use esp8266_xcode.Httpd.{text_eq}
use esp8266_xcode.Httpd.Dispatch.{Event, httpd_redirect, httpd_chunk_send, Answer}
use esp8266_xcode.Httpd.Params.{Parsed, calls, overrun, no_fuel, httpd_parameter_parse}
use esp8266_xcode.Fs.Files.{Lfs, fs_open, fs_close, fs_write}

-- The file of each form, and the parameters that it takes.
pub data Form : Type 0 where
  ssid ip ota mqtt ntp : Form

unfoldable pub file_name : Form → List ℕ
file_name ssid = codes "ssid"
file_name ip = codes "ip"
file_name ota = codes "ota"
file_name mqtt = codes "mqtt"
file_name ntp = codes "ntp"

-- The test of `key` in the callback of each form.
unfoldable pub takes : Form → List ℕ → Bool
takes ssid key = text_eq key (codes "ssid") || text_eq key (codes "pass")
takes ip key =
    text_eq key (codes "ip")
    || (text_eq key (codes "gateway")
        || (text_eq key (codes "subnet") || text_eq key (codes "dns")))
takes ota key = text_eq key (codes "ota")
takes mqtt key = text_eq key (codes "mqtt") || text_eq key (codes "port")
takes ntp key = text_eq key (codes "name") || text_eq key (codes "zone")

-- The text that the callback has built after these calls.
unfoldable pub text_of : Form → List (List ℕ × List ℕ) → List ℕ
text_of form [] = []
text_of form ((key, value) ∷ ps) =
    let rest = text_of form ps in if takes form key then value ++ (10 ∷ rest) else rest

-- The calls before the parser reads behind the URL are lost with the run: `none`.
abbrev parsed : Parsed → Option (List (List ℕ × List ℕ))
parsed (calls ps) = some ps
parsed overrun = none
parsed no_fuel = none

module _ (lfs : Lfs) where
  open lfs use {Store, File}

  write_and_close : List ℕ → Option File → Store → Store
  write_and_close text none s = s
  write_and_close text (some f) s =
      let (n, fd, s') = fs_write lfs text (some f) s in fs_close lfs fd s'

  unfoldable pub save : Form → List ℕ → Store → Store
  unfolding write_and_close
  save form text s =
      let (fd, s') = fs_open lfs (file_name form) b'w' s in write_and_close text fd s'

  -- `web_ssid`, `web_ip`, `web_ota`, `web_mqtt` and `web_ntp`: the events and the new store; the
  -- result is false. `none`: memory outside an array is used.
  unfoldable pub web_form : Form → List ℕ → Store → Option (List Event × Store)
  web_form form url s = elim (httpd_redirect (codes "/")) [
    | none ↦ none
    | some events ↦ elim (parsed (httpd_parameter_parse url)) [
      | none ↦ none
      | some ps ↦ some (events, save form (text_of form ps) s)
    ]
  ]

-- `web_reset` redirects, and sets a timer to 100 milliseconds, which restarts the system.
pub data Restart : Type 0 where
  timer : ℕ → Restart

pub web_reset : Option (List Event × Restart)
web_reset = elim (httpd_redirect (codes "/")) [
  | none ↦ none
  | some events ↦ some (events, timer 100)
]

-- `web_rtc`: `read` gives the word of a block, and `print` what `os_sprintf` makes of
-- "%-3d:%08X\n" for a number, which may be negative, and a word. It always asks to be called
-- again below 192, also where the packet was not accepted.
unfoldable pub web_rtc : (ℕ → List ℕ) → Bool → (ℕ → ℕ) → (ℕ → ℕ → List ℕ) → ℕ → Option Answer
web_rtc hex accepted read print stage =
    if ltb stage 192
    then elim (httpd_chunk_send hex accepted (stage + 1) (print stage (read stage))) [
      | none ↦ none
      | some a ↦ some (record a { more = true })
    ]
    else some (record { events = []; line = none; more = false })
