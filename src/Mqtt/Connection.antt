-- ===== src/Mqtt/Connection.antt =====
-- The connection of esp8266/app/mqtt.cpp: `mqtt_setup` with its callbacks, and `mqtt_information`.
use esp8266_xcode.Base.{
  ℕ, List, [], ◌∷◌, ◌++◌, Option, none, some, Bool, true, false, ◌&&◌, ◌==◌, ltb, leb,
  if◌then◌else◌, length,
}
use esp8266_xcode.Base.Int.{ℤ, pos}
use esp8266_xcode.Base.Strings.{codes}
use esp8266_xcode.Lost.Number.Laws.{itoa}
use esp8266_xcode.Mqtt.{
  Event, init, init_client, init_last_will, connect, subscribe, arm_timer, State, mqtt_prefix, esp,
  mqtt_publish, publish_number,
}

-- The text is not in `number`. `none`: the topic does not fit into its 128 bytes.
unfoldable pub publish_text : State → List ℕ → List ℕ → Bool → Option (State × List Event)
publish_text s topic text retain =
    if ltb (length topic) 128 then some (s, mqtt_publish s.connected topic text 0 retain) else none

-- The name of `info->reason`: REASON_DEFAULT_RST is 0, and so on to REASON_EXT_SYS_RST, 6.
pub reason_text : ℕ → List ℕ
reason_text n =
    if n == 0
    then codes "Default"
    else if n == 1
    then codes "Hardware Watchdog"
    else if n == 2
    then codes "Exception"
    else if n == 3
    then codes "Software Watchdog"
    else if n == 4
    then codes "Software Restart"
    else if n == 5
    then codes "Deep-Sleep Awake"
    else if n == 6
    then codes "External System"
    else codes "Unknown"

-- What the SDK says, with `ip` and `detail` as `os_sprintf` prints them.
pub record Info : Type 0 where
  pub sdk_version : List ℕ
  pub cpu_freq : ℕ
  pub build_date : List ℕ
  pub version : List ℕ
  pub ip : Option (List ℕ)
  -- `info->reason`, and the text of `buff`.
  pub reset : Option (ℕ × List ℕ)

-- Calls one behind the other, on one state.
unfoldable pub all_of : State → List (Option (State × List Event)) → Option (State × List Event)
all_of s [] = some (s, [])
all_of s (none ∷ rest) = none
all_of s (some (_, events) ∷ rest) = elim (all_of s rest) [
  | none ↦ none
  | some (s', later) ↦ some (s', events ++ later)
]

unfoldable pub reset_calls :
    State → List ℕ → Option (ℕ × List ℕ) → List (Option (State × List Event))
unfolding publish_text reason_text
reset_calls s hostname none = []
reset_calls s hostname (some (reason, detail)) =
    publish_text s (esp hostname (codes "ResetReason")) (reason_text reason) false
    ∷ publish_text s (esp hostname (codes "ResetInfo"))
        (if leb 1 reason && leb reason 3 then detail else reason_text reason) false
    ∷ []

unfoldable pub ip_calls : State → List ℕ → Option (List ℕ) → List (Option (State × List Event))
ip_calls s hostname none = []
ip_calls s hostname (some ip) = publish_number s (esp hostname (codes "IP")) ip true ∷ []

unfoldable pub information_calls :
    (ℤ → List ℕ) → List ℕ → Info → State → List (Option (State × List Event))
unfolding publish_text
information_calls hex hostname i s =
    publish_text s (esp hostname (codes "SDK Version")) i.sdk_version false
    ∷ publish_number s (esp hostname (codes "CPU Frequency")) (itoa hex (pos i.cpu_freq) 10) false
    ∷ publish_text s (esp hostname (codes "Build")) i.build_date false
    ∷ publish_text s (esp hostname (codes "Version")) i.version true
    ∷ (ip_calls s hostname i.ip ++ reset_calls s hostname i.reset)

unfoldable pub mqtt_information : (ℤ → List ℕ) → List ℕ → Info → State → Option (State × List Event)
mqtt_information hex hostname i s =
    if s.connected then all_of s (information_calls hex hostname i s) else some (s, [])

-- The callback of MQTT_OnConnected; the timer calls `mqtt_loop` every 10 seconds.
unfoldable pub connection_calls :
    (ℤ → List ℕ) → List ℕ → Info → State → List (Option (State × List Event))
unfolding publish_text
connection_calls hex hostname i s =
    publish_text s (mqtt_prefix hostname (codes "connected") []) (codes "true") true
    ∷ some (s, subscribe (mqtt_prefix hostname (codes "set") (codes "#" ∷ [])) ∷ [])
    ∷ mqtt_information hex hostname i s
    ∷ some (s, arm_timer 10000 ∷ [])
    ∷ []

unfoldable pub on_connected : (ℤ → List ℕ) → List ℕ → Info → State → Option (State × List Event)
on_connected hex hostname i s =
    let s' : State = record s { connected = true } in all_of s' (connection_calls hex hostname i s')

unfoldable pub on_disconnected : State → State
on_disconnected s = record s { connected = false }

-- The first call sets up the client; each one connects it.
unfoldable pub mqtt_setup : List ℕ → List ℕ → ℤ → State → State × List Event
mqtt_setup hostname server port s = (
  record s { client = true },
  (if s.client
        then []
        else init server port
          ∷ init_client hostname
          ∷ init_last_will (mqtt_prefix hostname (codes "connected") []) (codes "false")
          ∷ [])
      ++ (connect ∷ []),
)

pub mqtt_connected : State → Bool
mqtt_connected s = s.connected

-- `mqtt_receive_callback`; the callbacks that can be given are of a type `F`.
module _ {ℓ} {F : Type ℓ} where
  pub mqtt_receive : Option F → Option F → Option F
  mqtt_receive callback mqtt_receive_callback = callback

  -- The callback of MQTT_OnData: the call, if there is one, with the topic and the data.
  pub on_data : Option F → List ℕ → List ℕ → Option (F × List ℕ × List ℕ)
  on_data none topic data_bytes = none
  on_data (some callback) topic data_bytes = some (callback, topic, data_bytes)
