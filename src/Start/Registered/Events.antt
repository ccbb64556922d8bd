-- ===== src/Start/Registered/Events.antt =====
-- The handlers after each event of the network.
use mathlib.Core.Path.{subst}
use esp8266_xcode.Base.{
  ℕ, List, [], ◌∷◌, ◌++◌, Option, none, some, Bool, true, false, if◌then◌else◌, ◌≡◌, refl, ap, sym,
  ◌∙◌, inl, inr, ltb, length, ◌&&◌,
}
use esp8266_xcode.Base.Strings.{codes}
use esp8266_xcode.Httpd.{Handler}
use esp8266_xcode.Httpd
use esp8266_xcode.Fs.Files.{Lfs}
use esp8266_xcode.Fs.Files.Config.{read_config}
use esp8266_xcode.Web.{ssid, ota, mqtt, ntp, file_name}
use esp8266_xcode.Start.{
  Page, web_system, Call, WifiEvent, got_ip, connected, disconnected, dhcp_timeout, other, html,
  components, station_calls, mqtt_calls, ntp_calls, ota_calls, on_got_ip, on_access_point, then_app,
  wifi, setup, app_wifi, app_setup, softap_set_config, set_event_handler,
}
use esp8266_xcode.Start.Registered.{
  regist, registered, Online, started, network, path_of, type_of, base, IsTable,
}

regist_root :
    (nodes : List (Handler Page))
    → IsTable nodes
    → IsTable (Httpd.httpd_regist (codes "/") html web_system nodes)
unfolding path_of type_of file_name Httpd.httpd_regist
regist_root nodes (inl e) = inl (ap (Httpd.httpd_regist (codes "/") html web_system) e)
regist_root nodes (inr e) = inr (ap (Httpd.httpd_regist (codes "/") html web_system) e)

regist_setup :
    (nodes : List (Handler Page))
    → IsTable nodes
    → IsTable (Httpd.httpd_regist (codes "/setup") html web_system nodes)
unfolding path_of type_of file_name Httpd.httpd_regist
regist_setup nodes (inl e) = inr (ap (Httpd.httpd_regist (codes "/setup") html web_system) e)
regist_setup nodes (inr e) = inr (ap (Httpd.httpd_regist (codes "/setup") html web_system) e)

registered-append :
    (xs ys : List Call) (nodes : List (Handler Page))
    → registered (xs ++ ys) nodes ≡ registered ys (registered xs nodes)
unfolding registered
registered-append [] ys nodes = refl
registered-append (x ∷ xs) ys nodes = registered-append xs ys (regist x nodes)

-- Calls that keep a table of pages, and those that register nothing.
abbrev Keeps : List Call → Type 0
Keeps calls = (nodes : List (Handler Page)) → IsTable nodes → IsTable (registered calls nodes)

Plain : List Call → Type 0
Plain calls = (nodes : List (Handler Page)) → registered calls nodes ≡ nodes

Plain-append : (xs ys : List Call) → Plain xs → Plain ys → Plain (xs ++ ys)
unfolding Plain
Plain-append xs ys hx hy nodes =
    registered-append xs ys nodes ∙ ap (registered ys) (hx nodes) ∙ hy nodes

Plain-Keeps : (xs : List Call) → Plain xs → Keeps xs
unfolding Plain
Plain-Keeps xs h nodes t = subst IsTable (sym (h nodes)) t

Keeps-append : (xs ys : List Call) → Keeps xs → Keeps ys → Keeps (xs ++ ys)
Keeps-append xs ys hx hy nodes t =
    subst IsTable (sym (registered-append xs ys nodes)) (hy (registered xs nodes) (hx nodes t))

mqtt_calls-Plain : (lines : Option (List (List ℕ))) → Plain (mqtt_calls lines)
unfolding Plain registered mqtt_calls
mqtt_calls-Plain none nodes = refl
mqtt_calls-Plain (some []) nodes = refl
mqtt_calls-Plain (some (a ∷ [])) nodes = refl
mqtt_calls-Plain (some (a ∷ b ∷ [])) nodes = refl
mqtt_calls-Plain (some (a ∷ b ∷ c ∷ l)) nodes = refl

ntp_calls-Plain : (lines : Option (List (List ℕ))) → Plain (ntp_calls lines)
unfolding Plain registered ntp_calls
ntp_calls-Plain none nodes = refl
ntp_calls-Plain (some []) nodes = refl
ntp_calls-Plain (some (a ∷ [])) nodes = refl
ntp_calls-Plain (some (a ∷ b ∷ [])) nodes = refl
ntp_calls-Plain (some (a ∷ b ∷ c ∷ l)) nodes = refl

if-Plain : (b : Bool) (xs : List Call) → Plain xs → Plain (if b then xs else [])
unfolding Plain registered
if-Plain true xs h nodes = h nodes
if-Plain false xs h nodes = refl

ota_calls-Plain : (lines : Option (List (List ℕ))) → Plain (ota_calls lines)
unfolding Plain registered ota_calls
ota_calls-Plain none nodes = refl
ota_calls-Plain (some []) nodes = refl
ota_calls-Plain (some (a ∷ [])) nodes = if-Plain _ (_ ∷ []) (λ n. refl) nodes
ota_calls-Plain (some (a ∷ b ∷ l)) nodes = refl

AllPlain : Option (List Call) → Type 0
AllPlain none = Unit
AllPlain (some calls) = Plain calls

if-AllPlain : (b : Bool) (xs : List Call) → Plain xs → AllPlain (if b then some xs else none)
unfolding AllPlain
if-AllPlain true xs h = h
if-AllPlain false xs h = tt

station_calls-Plain : (lines : Option (List (List ℕ))) → AllPlain (station_calls lines)
unfolding AllPlain Plain registered station_calls
station_calls-Plain none = λ nodes. refl
station_calls-Plain (some []) = λ nodes. refl
station_calls-Plain (some (a ∷ [])) = λ nodes. refl
station_calls-Plain (some (a ∷ b ∷ [])) =
    if-AllPlain (ltb (length a) 32 && ltb (length b) 64) (_ ∷ []) (λ nodes. refl)
station_calls-Plain (some (a ∷ b ∷ c ∷ l)) = λ nodes. refl

-- A result whose calls have a property.
Yields : {S : Type 0} → (List Call → Type 0) → Option (List Call × S) → Type 0
Yields P none = Unit
Yields P (some (calls, s)) = P calls

then_app-Keeps :
    {S : Type 0} (event : Option WifiEvent) (o : Option (List Call × S))
    → Yields Keeps o
    → Yields Keeps (then_app event o)
unfolding Yields registered
then_app-Keeps event none h = tt
then_app-Keeps event (some (calls, s)) h = Keeps-append calls (app_wifi event ∷ []) h (λ nodes t. t)

on_access_point-Keeps : (name : List ℕ) → Keeps (on_access_point name)
unfolding registered
on_access_point-Keeps name nodes t = regist_root nodes t

registered-components : registered components [] ≡ base
unfolding registered components path_of type_of file_name Httpd.httpd_regist
registered-components = refl

module _ (lfs : Lfs) where
  open lfs use {Store}

  on_lines :
      {S : Type 0} (P : List Call → Type 0) (o : Option (Option (List (List ℕ)) × Store))
      (k : Option (List (List ℕ)) → Store → Option (List Call × S))
      → ((lines : Option (List (List ℕ))) (s : Store) → Yields P (k lines s))
      → Yields P (elim o [ none ↦ none | some (lines, s) ↦ k lines s ])
  unfolding Yields
  on_lines P none k h = tt
  on_lines P (some (lines, s)) k h = h lines s

  on_got_ip-Keeps : (name : List ℕ) (s : Store) → Yields Keeps (on_got_ip lfs name s)
  unfolding on_got_ip Yields registered
  on_got_ip-Keeps name s = on_lines Keeps (read_config lfs 2 (file_name mqtt) s) _ λ m s1.
      on_lines Keeps (read_config lfs 2 (file_name ntp) s1) _ λ n s2.
        on_lines Keeps (read_config lfs 1 (file_name ota) s2) _ λ o s3. λ nodes t.
          let rest = mqtt_calls m ++ (ntp_calls n ++ ota_calls o) in
          Plain-Keeps rest
            (Plain-append (mqtt_calls m) (ntp_calls n ++ ota_calls o) (mqtt_calls-Plain m)
              (Plain-append (ntp_calls n) (ota_calls o) (ntp_calls-Plain n) (ota_calls-Plain o)))
            (Httpd.httpd_regist (codes "/setup") html web_system nodes) (regist_setup nodes t)

  wifi-Keeps : (name : List ℕ) (e : Option WifiEvent) (s : Store) → Yields Keeps (wifi lfs name e s)
  unfolding wifi Yields registered
  wifi-Keeps name none s =
      then_app-Keeps none (some (on_access_point name, s)) (on_access_point-Keeps name)
  wifi-Keeps name (some got_ip) s = then_app-Keeps (some got_ip) _ (on_got_ip-Keeps name s)
  wifi-Keeps name (some connected) s =
      then_app-Keeps (some connected) (some (on_access_point name, s)) (on_access_point-Keeps name)
  wifi-Keeps name (some disconnected) s =
      then_app-Keeps (some disconnected) (some (on_access_point name, s))
        (on_access_point-Keeps name)
  wifi-Keeps name (some dhcp_timeout) s =
      then_app-Keeps (some dhcp_timeout) (some (on_access_point name, s))
        (on_access_point-Keeps name)
  wifi-Keeps name (some (other n)) s = then_app-Keeps (some (other n)) (some ([], s)) (λ nodes t. t)

  Starts : List Call → Type 0
  Starts calls = IsTable (registered calls [])

  setup_rest :
      (name password : List ℕ) (o : Option (List Call)) (w : Option (List Call × Store))
      → AllPlain o
      → Yields Keeps w
      → Yields Starts (elim o [
        | none ↦ none
        | some station_config ↦ elim w [
          | none ↦ none
          | some (calls, s'') ↦ some (
            components
                ++ (softap_set_config name password
                    ∷ (station_config ++ (set_event_handler ∷ (calls ++ (app_setup ∷ []))))),
            s'',
          )
        ]
      ])
  unfolding Yields Starts registered AllPlain
  setup_rest name password none w h k = tt
  setup_rest name password (some c) none h k = tt
  setup_rest name password (some c) (some (calls, s)) h k =
      let rest = c ++ (set_event_handler ∷ (calls ++ (app_setup ∷ []))) in
      let keeps : Keeps rest =
        Keeps-append c (set_event_handler ∷ (calls ++ (app_setup ∷ []))) (Plain-Keeps c h)
          (Keeps-append calls (app_setup ∷ []) k (λ nodes t. t)) in
      subst IsTable
        (sym (
          registered-append components (softap_set_config name password ∷ rest) []
          ∙ ap (registered rest) registered-components))
        (keeps base (inl refl))

  setup-Starts : (name password : List ℕ) (s : Store) → Yields Starts (setup lfs name password s)
  unfolding setup
  setup-Starts name password s =
      on_lines Starts (read_config lfs 2 (file_name ssid) s) _ λ lines s1.
        setup_rest name password (station_calls lines) (wifi lfs name none s1)
          (station_calls-Plain lines) (wifi-Keeps name none s1)

  -- The handlers are those of the pages, with or without "/setup".
  pub registered-IsTable :
      {name password : List ℕ} {calls : List Call}
      → Online lfs name password calls
      → IsTable (registered calls [])
  unfolding Starts Yields
  registered-IsTable {name} {password} (started s s' e) =
      subst (Yields Starts) e (setup-Starts name password s)
  registered-IsTable {name} (network s s' {calls} {more} ev o e) =
      subst IsTable (sym (registered-append calls more []))
        (subst (Yields Keeps) e (wifi-Keeps name ev s) (registered calls []) (registered-IsTable o))
