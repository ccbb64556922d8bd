-- ===== src/Ota/Listen.antt =====
-- `ota_init` of esp8266/app/ota.c, which opens the UDP port, once.
use esp8266_xcode.Base.{ℕ, List, [], ◌∷◌, Bool, true, if◌then◌else◌}

pub data Registration : Type 0 where
  local_port : ℕ → Registration
  -- `espconn_regist_recvcb` with `ota_udp_recv`
  recvcb : Registration
  create : Registration

-- The state says that `esp_conn` is set; the port of a second call is not used.
pub ota_init : ℕ → Bool → Bool × List Registration
ota_init port is_open = (true, if is_open then [] else local_port port ∷ recvcb ∷ create ∷ [])
