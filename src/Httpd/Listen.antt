-- ===== src/Httpd/Listen.antt =====
-- `httpd_listen` and `httpd_init` of esp8266/app/httpd.c: what is registered with the SDK. A
-- connection has `HTTP_COPY` as 0.
use esp8266_xcode.Base.{ℕ, List, [], ◌∷◌, Bool, true, false, if◌then◌else◌}

-- The functions of the file that are callbacks.
pub data Callback : Type 0 where
  httpd_listen httpd_server_recv httpd_server_sent httpd_server_discon : Callback

pub data Registration : Type 0 where
  recvcb disconcb sentcb write_finish connectcb : Callback → Registration
  -- ESPCONN_NODELAY, and ESPCONN_COPY or not.
  set_opt : Bool → Registration
  local_port : ℕ → Registration
  accept : Registration

-- `HTTP_COPY`
abbrev http_copy : Bool
http_copy = false

pub listen : List Registration
listen =
    recvcb httpd_server_recv
    ∷ disconcb httpd_server_discon
    ∷ (if http_copy
        then set_opt true ∷ write_finish httpd_server_sent ∷ []
        else set_opt false ∷ sentcb httpd_server_sent ∷ [])

pub httpd_init : ℕ → List Registration
httpd_init port = local_port port ∷ connectcb httpd_listen ∷ accept ∷ []
