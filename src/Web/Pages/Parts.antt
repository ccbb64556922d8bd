-- ===== src/Web/Pages/Parts.antt =====
-- The parts of the page of esp8266/web/system.cpp, as a function of the settings.
use esp8266_xcode.Base.{ℕ, zero, suc, ◌≤◌, List, Option, arith, length}
use esp8266_xcode.Base.Strings.{codes}
use esp8266_xcode.Web.{Form, ssid, ip, ota, mqtt, ntp}
use esp8266_xcode.Web.Pages.{
  Status, head_html, ssid_html, ota_html, mqtt_html, ntp_html, tail_html, first_of, second_of,
  or_default,
}
use esp8266_xcode.Web.Pages.Size.{
  length-head_html, length-ssid_html, length-ota_html, length-tail_html, length-or_default,
  length-mqtt_html, length-ntp_html,
}

-- The lines that a file of settings has, if it is there.
abbrev pub Settings : Type 0
Settings = Form → Option (List (List ℕ))

-- How many lines the page reads of a file.
abbrev pub line_count : Form → ℕ
line_count ssid = 1
line_count ip = 1
line_count ota = 1
line_count mqtt = 2
line_count ntp = 2

-- The parts of the page, as a function of the settings.
unfoldable pub html_of : Status → Settings → ℕ → List ℕ
html_of status set zero = head_html status
html_of status set (suc zero) = ssid_html (first_of (set ssid))
html_of status set (suc (suc zero)) = ota_html (first_of (set ota))
html_of status set (suc (suc (suc zero))) =
    mqtt_html (first_of (set mqtt)) (or_default (codes "1883") (second_of (set mqtt)))
html_of status set (suc (suc (suc (suc zero)))) =
    ntp_html (or_default (codes "pool.ntp.org") (first_of (set ntp)))
      (or_default (codes "8") (second_of (set ntp)))
html_of status set (suc (suc (suc (suc (suc n))))) = tail_html status

-- The lines that `fs_gets` returns for 128 bytes, and the bounds on what the SDK returns.
pub record Bounded (status : Status) (set : Settings) : Type 0 where
  pub hostname_le : length status.hostname ≤ 256
  pub time_le : length status.time ≤ 256
  pub first_le : (form : Form) → length (first_of (set form)) ≤ 127
  pub second_le : (form : Form) → length (second_of (set form)) ≤ 127

pub length-html_of :
    (status : Status) (set : Settings) (n : ℕ)
    → Bounded status set
    → length (html_of status set n) ≤ 500
unfolding html_of
length-html_of status set zero b = omega (arith, length-head_html status, b.hostname_le)
length-html_of status set (suc zero) b =
    omega (arith, length-ssid_html (first_of (set ssid)), b.first_le ssid)
length-html_of status set (suc (suc zero)) b =
    omega (arith, length-ota_html (first_of (set ota)), b.first_le ota)
length-html_of status set (suc (suc (suc zero))) b = omega (
  arith,
  length-mqtt_html (first_of (set mqtt)) (or_default (codes "1883") (second_of (set mqtt))),
  b.first_le mqtt,
  length-or_default (codes "1883") (second_of (set mqtt)) 127 (omega arith) (b.second_le mqtt),
)
length-html_of status set (suc (suc (suc (suc zero)))) b = omega (
  arith,
  length-ntp_html (or_default (codes "pool.ntp.org") (first_of (set ntp)))
      (or_default (codes "8") (second_of (set ntp))),
  length-or_default (codes "pool.ntp.org") (first_of (set ntp)) 127 (omega arith) (b.first_le ntp),
  length-or_default (codes "8") (second_of (set ntp)) 127 (omega arith) (b.second_le ntp),
)
length-html_of status set (suc (suc (suc (suc (suc n))))) b =
    omega (arith, length-tail_html status, b.time_le)
