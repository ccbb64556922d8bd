-- ===== src/Start/Routes.antt =====
-- Which page of esp8266/web/system.cpp answers a request, once esp8266/main.cpp is set up.
use mathlib.Core.Path.{subst}
use esp8266_xcode.Base.{
  ℕ, List, [], ◌∷◌, ◌++◌, Option, none, some, false, ◌≡◌, refl, ap, ap₂, sym, ◌∙◌, inl, inr,
  Bool-cases, All, map,
}
use esp8266_xcode.Base.Strings.{codes}
use esp8266_xcode.Lost.Text.Laws.{IsFree}
use esp8266_xcode.Httpd.{Handler, find_handler, starts_with}
use esp8266_xcode.Httpd.Dispatch.{
  Callback, Context, Event, disconnect, space, accept, dispatch, httpd_server_recv,
}
use esp8266_xcode.Httpd.Dispatch.Exchange.{request, recv-request}
use esp8266_xcode.Fs.Files.{Lfs}
use esp8266_xcode.Web.{ssid, ip, ota, mqtt, ntp, file_name}
use esp8266_xcode.Start.{Page, web_system, web_form, web_reset, web_rtc, Call}
use esp8266_xcode.Start.Registered.Events.{registered-IsTable}
use esp8266_xcode.Start.Registered.{
  Online, registered, IsTable, others, base, setup_node, node, path_of, type_of,
}

abbrev pub IsOther : Page → Type 0
IsOther web_system = ⊥
IsOther (web_form form) = Unit
IsOther web_reset = Unit
IsOther web_rtc = Unit

-- The page that a URL asks for: one of the others, if the URL begins with its path, and else that
-- of the system.
pub data Addresses : List ℕ → Page → Type 0 where
  below : (page : Page) (tail : List ℕ) → IsOther page → Addresses (path_of page ++ tail) page
  root :
      (tail : List ℕ)
      → ((page : Page) → IsOther page → starts_with (path_of page) (b'/' ∷ tail) ≡ false)
      → Addresses (b'/' ∷ tail) web_system

-- A node for the page, whatever its URL.
abbrev Found : Page → Option (Handler Page) → Type 0
Found page none = ⊥
Found page (some n) = (n.handler ≡ page) × (n.type ≡ type_of page)

base_below :
    (page : Page) (tail : List ℕ)
    → IsOther page
    → Found page (find_handler (path_of page ++ tail) base)
unfolding path_of type_of file_name find_handler
base_below web_system tail h = absurd h
base_below (web_form ssid) tail h = (refl, refl)
base_below (web_form ip) tail h = (refl, refl)
base_below (web_form ota) tail h = (refl, refl)
base_below (web_form mqtt) tail h = (refl, refl)
base_below (web_form ntp) tail h = (refl, refl)
base_below web_reset tail h = (refl, refl)
base_below web_rtc tail h = (refl, refl)

setup_below :
    (page : Page) (tail : List ℕ)
    → IsOther page
    → Found page (find_handler (path_of page ++ tail) (setup_node ∷ base))
unfolding path_of type_of file_name find_handler
setup_below web_system tail h = absurd h
setup_below (web_form ssid) tail h = (refl, refl)
setup_below (web_form ip) tail h = (refl, refl)
setup_below (web_form ota) tail h = (refl, refl)
setup_below (web_form mqtt) tail h = (refl, refl)
setup_below (web_form ntp) tail h = (refl, refl)
setup_below web_reset tail h = (refl, refl)
setup_below web_rtc tail h = (refl, refl)

skip :
    (page : Page) (n : Handler Page) (url : List ℕ) (nodes : List (Handler Page))
    → starts_with n.url url ≡ false
    → Found page (find_handler url nodes)
    → Found page (find_handler url (n ∷ nodes))
unfolding find_handler
skip page n url nodes e h = rw (Found, e) h

root_last : (tail : List ℕ) → Found web_system (find_handler (b'/' ∷ tail) (node web_system ∷ []))
unfolding find_handler type_of path_of
root_last tail = (refl, refl)

module _ (tail : List ℕ)
    (h : (page : Page) → IsOther page → starts_with (path_of page) (b'/' ∷ tail) ≡ false) where
  pages_root :
      (pages : List Page)
      → All IsOther pages
      → Found web_system (find_handler (b'/' ∷ tail) (map node pages ++ (node web_system ∷ [])))
  pages_root [] _ = root_last tail
  pages_root (page ∷ pages) (o, os) =
      skip web_system (node page) (b'/' ∷ tail) (map node pages ++ (node web_system ∷ []))
        (h page o) (pages_root pages os)

  base_root : Found web_system (find_handler (b'/' ∷ tail) base)
  base_root = pages_root others (tt, (tt, (tt, (tt, (tt, (tt, (tt, tt)))))))

-- "/setup" is the page of the system as well.
setup_root :
    (url : List ℕ) (nodes : List (Handler Page))
    → Found web_system (find_handler url nodes)
    → Found web_system (find_handler url (setup_node ∷ nodes))
unfolding find_handler type_of
setup_root url nodes h = elim (Bool-cases (starts_with (codes "/setup") url)) [
  | inl e ↦ rw (Found, e) (refl, refl)
  | inr e ↦ rw (Found, e) h
]

find_handler-Found :
    (nodes : List (Handler Page)) (url : List ℕ) (page : Page)
    → IsTable nodes
    → Addresses url page
    → Found page (find_handler url nodes)
find_handler-Found nodes _ _ (inl e) (below page tail h) =
    subst (λ l. Found page (find_handler (path_of page ++ tail) l)) (sym e) (base_below page tail h)
find_handler-Found nodes _ _ (inr e) (below page tail h) =
    subst (λ l. Found page (find_handler (path_of page ++ tail) l)) (sym e)
      (setup_below page tail h)
find_handler-Found nodes _ _ (inl e) (root tail h) =
    subst (λ l. Found web_system (find_handler (b'/' ∷ tail) l)) (sym e) (base_root tail h)
find_handler-Found nodes _ _ (inr e) (root tail h) =
    subst (λ l. Found web_system (find_handler (b'/' ∷ tail) l)) (sym e)
      (setup_root (b'/' ∷ tail) base (base_root tail h))

-- The pages as callbacks.
abbrev pub callback : (Page → Callback) → Handler Page → Handler Callback
callback render n = record { url = n.url; type = n.type; handler = render n.handler }

find_handler-map :
    (render : Page → Callback) (url : List ℕ) (nodes : List (Handler Page))
    → find_handler url (map (callback render) nodes)
      ≡ elim (find_handler url nodes) [ none ↦ none | some n ↦ some (callback render n) ]
unfolding find_handler
find_handler-map render url [] = refl
find_handler-map render url (n ∷ nodes) = elim (Bool-cases (starts_with n.url url)) [
  | inl e ↦ rw e
  | inr e ↦ rw e (find_handler-map render url nodes)
]

-- What `httpd_server_recv` does for a page.
abbrev pub answered : (Page → Callback) → Page → List ℕ → Option (Option Context × List Event)
answered render page url =
    elim (accept (record { url = path_of page; type = type_of page; handler = render page }) url) [
      | none ↦ none
      | some (c, events) ↦ some (some c, events)
    ]

abbrev serve_node :
    Option Context → List ℕ → Option (Handler Callback) → Option (Option Context × List Event)
serve_node reverse url none = some (reverse, disconnect ∷ [])
serve_node reverse url (some n) = elim (accept n url) [
  | none ↦ none
  | some (c, events) ↦ some (some c, events)
]

dispatch-Found :
    (render : Page → Callback) (nodes : List (Handler Page)) (reverse : Option Context)
    (url : List ℕ) (page : Page)
    → Found page (find_handler url nodes)
    → dispatch (map (callback render) nodes) reverse url ≡ answered render page url
unfolding dispatch accept
dispatch-Found render nodes reverse url page f =
    ap (λ o. serve_node reverse url o) (find_handler-map render url nodes)
    ∙ go (find_handler url nodes) f
  where
    go :
        (o : Option (Handler Page))
        → Found page o
        → serve_node reverse url (elim o [ none ↦ none | some n ↦ some (callback render n) ])
          ≡ answered render page url
    go none h = absurd h
    go (some n) (h, t) =
        ap₂
          (λ type p.
            serve_node reverse url
              (some (record { url = path_of page; type = type; handler = render p })))
          t h

-- After setup and any events of the network, each with the files as they are then, and where
-- app_setup and app_wifi register nothing: a GET request, with no space and no NUL in its URL,
-- is answered by the page whose path begins the URL, with its type, and by web_system where the
-- URL begins with a slash and with none of the other paths.
pub recv-Addresses :
    {lfs : Lfs} {name password : List ℕ} {calls : List Call} {url : List ℕ} {page : Page}
    → (render : Page → Callback) (reverse : Option Context) (rest : List ℕ)
    → Online lfs name password calls
    → Addresses url page
    → All (IsFree space) url
    → httpd_server_recv (map (callback render) (registered calls [])) reverse (request url rest)
      ≡ answered render page url
recv-Addresses {lfs} {calls} {url} {page} render reverse rest online asks free =
    recv-request (map (callback render) (registered calls [])) reverse url rest free
    ∙ dispatch-Found render (registered calls []) reverse url page
        (find_handler-Found (registered calls []) url page (registered-IsTable lfs online) asks)
