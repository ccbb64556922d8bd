-- ===== src/Mqtt.antt =====
-- esp8266/app/mqtt.cpp: what is published, over the functions of the MQTT library, whose calls are
-- events. A string is the text that it stands for, without its NUL. `hex` and `heap_text` are what
-- `os_sprintf` prints for "%x" and "%d.%05d".
pub mod Topics
pub mod Loop
pub mod Shown
pub mod Connection
pub mod Quiet
pub mod Run
mod Tests
use esp8266_xcode.Base.{
  ℕ, ◌+◌, ◌-◌, ◌/◌, ◌%◌, List, [], ◌∷◌, ◌++◌, Option, none, some, Bool, true, false, ◌==◌, ltb,
  if◌then◌else◌, length, take,
}
use esp8266_xcode.Base.Int.{ℤ, pos, negsuc}
use esp8266_xcode.Base.Strings.{codes}
use esp8266_xcode.Lost.Number.Laws.{itoa, print_int}

pub data Event : Type 0 where
  init : List ℕ → ℤ → Event
  init_client : List ℕ → Event
  init_last_will : List ℕ → List ℕ → Event
  connect : Event
  -- The topic, the data and the flag that the broker keeps it.
  publish : List ℕ → List ℕ → Bool → Event
  subscribe : List ℕ → Event
  arm_timer : ℕ → Event

-- The variables of the file: `mqtt_client` is set, `mqtt_is_connected`, and those of `mqtt_loop`.
pub record State : Type 0 where
  pub client : Bool
  pub connected : Bool
  pub now_timestamp : ℕ
  pub now_free_heap : ℕ
  pub now_rssi : ℤ

abbrev pub start : State
start = record {
  client = false;
  connected = false;
  now_timestamp = 0;
  now_free_heap = 0;
  now_rssi = pos 0;
}

-- What the SDK says when `mqtt_loop` is called; `region` is
-- `xPortGetFreeHeapSizeRegion(1)`, at most `free_heap`.
pub record Reading : Type 0 where
  pub timestamp : ℕ
  pub free_heap : ℕ
  pub region : ℕ
  pub rssi : ℤ

-- "/" and a name, for every name.
abbrev pub slashed : List (List ℕ) → List ℕ
slashed [] = []
slashed (name ∷ names) = b'/' ∷ (name ++ slashed names)

unfoldable pub mqtt_prefix : List ℕ → List ℕ → List (List ℕ) → List ℕ
mqtt_prefix hostname prefix names = hostname ++ ((b'/' ∷ prefix) ++ slashed names)

abbrev pub esp : List ℕ → List ℕ → List ℕ
esp hostname name = mqtt_prefix hostname (codes "ESP") (name ∷ [])

-- `count` is the argument `length`; 0 stands for the whole text.
unfoldable pub mqtt_publish : Bool → List ℕ → List ℕ → ℕ → Bool → List Event
mqtt_publish connected topic bytes count retain =
    if connected
    then publish topic (if count == 0 then bytes else take count bytes) retain ∷ []
    else []

-- The topic is written to `number`, and the text stands at `number + 64`. `none`: the topic is
-- written over the text.
unfoldable pub publish_number : State → List ℕ → List ℕ → Bool → Option (State × List Event)
publish_number s topic text retain =
    if ltb (length topic) 64 then some (s, mqtt_publish s.connected topic text 0 retain) else none

abbrev pub same_int : ℤ → ℤ → Bool
same_int (pos m) (pos n) = m == n
same_int (negsuc m) (negsuc n) = m == n
same_int (pos m) (negsuc n) = false
same_int (negsuc m) (pos n) = false

-- The low byte, with all bits above it set, as an `int`.
unfoldable pub or_ffffff00 : ℤ → ℤ
or_ffffff00 (pos n) = negsuc (255 - n % 256)
or_ffffff00 (negsuc n) = negsuc (n % 256)

-- "%d:%d"
unfoldable pub time_text : ℕ → List ℕ
time_text timestamp =
    print_int (pos (timestamp / 3600 % 24)) ++ (b':' ∷ print_int (pos (timestamp / 60 % 60)))

abbrev pub and_then :
    (State → Option (State × List Event))
    → Option (State × List Event)
    → Option (State × List Event)
and_then f none = none
and_then f (some (s, events)) = elim (f s) [
  | none ↦ none
  | some (s', later) ↦ some (s', events ++ later)
]

module _ (hex : ℤ → List ℕ) (heap_text : ℕ → ℕ → List ℕ) (hostname : List ℕ) where
  unfoldable pub loop_time : Reading → State → Option (State × List Event)
  loop_time r s =
      if s.now_timestamp == r.timestamp / 60
      then some (s, [])
      else publish_number (record s { now_timestamp = r.timestamp / 60 })
          (esp hostname (codes "Time")) (time_text r.timestamp) false

  unfoldable pub loop_heap : Reading → State → Option (State × List Event)
  loop_heap r s =
      if s.now_free_heap == r.free_heap
      then some (s, [])
      else publish_number (record s { now_free_heap = r.free_heap })
          (esp hostname (codes "FreeHeap")) (heap_text r.free_heap (r.free_heap - r.region)) false

  unfoldable pub loop_rssi : Reading → State → Option (State × List Event)
  loop_rssi r s =
      if same_int s.now_rssi r.rssi
      then some (s, [])
      else publish_number (record s { now_rssi = r.rssi }) (esp hostname (codes "RSSI"))
          (itoa hex (or_ffffff00 r.rssi) 10) false

  unfoldable pub mqtt_loop : Reading → State → Option (State × List Event)
  mqtt_loop r s =
      if s.connected
      then and_then (loop_rssi r) (and_then (loop_heap r) (loop_time r s))
      else some (s, [])
