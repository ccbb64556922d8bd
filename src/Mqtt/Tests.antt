-- ===== src/Mqtt/Tests.antt =====
-- Runs of esp8266/app/mqtt.cpp.
use esp8266_xcode.Mqtt.{
  Event, mqtt_loop, mqtt_prefix, publish_number, loop_time, loop_heap, loop_rssi,
}
use esp8266_xcode.Mqtt.Connection.{
  all_of, connection_calls, mqtt_information, information_calls, ip_calls, reset_calls, Info,
  mqtt_setup, on_connected,
}
use esp8266_xcode.Mqtt.Run.{Runs, started, set_up, opened, looped, Runs-Agrees}
use esp8266_xcode.Base.{ℕ, List, [], ◌∷◌, ◌++◌, Option, none, some, true, refl, arith}
use esp8266_xcode.Base.Int.{pos, negsuc}
use esp8266_xcode.Base.Strings.{codes}
use esp8266_xcode.Lost.Number.Laws.{print_int}
use esp8266_xcode.Mqtt.{State, Reading, start}
use esp8266_xcode.Mqtt.Topics.{shown}
use esp8266_xcode.Mqtt.Shown.{Agrees}

abbrev heap_text : ℕ → ℕ → List ℕ
heap_text a b = print_int (pos a) ++ (b'.' ∷ print_int (pos b))

abbrev connected_start : State
connected_start = record start { connected = true }

abbrev reading : Reading
reading = record { timestamp = 45296; free_heap = 30000; region = 14000; rssi = negsuc 59 }

start-Agrees : Agrees print_int heap_text (codes "ESP8266") (omega arith) connected_start []
unfolding shown
start-Agrees = record { time = refl; heap = refl; rssi = refl }

abbrev info : Info
info = record {
  sdk_version = codes "3.0";
  cpu_freq = 80;
  build_date = codes "today";
  version = codes "1";
  ip = some (codes "192.168.4.2");
  reset = some (4, []);
}

abbrev hostname : List ℕ
hostname = codes "ESP"

abbrev after_setup : State × List Event
after_setup = mqtt_setup hostname (codes "broker") (pos 1883) start

-- What a result is, where there is one.
abbrev or_start : Option (State × List Event) → State × List Event
or_start none = (start, [])
or_start (some r) = r

abbrev after_connection : State × List Event
after_connection = or_start (on_connected print_int hostname info after_setup.0)

abbrev after_reading : State × List Event
after_reading = or_start (mqtt_loop print_int heap_text hostname reading after_connection.0)

run :
    Runs print_int heap_text hostname
      (omega arith)
      after_reading.0
      ((after_setup.1 ++ after_connection.1) ++ after_reading.1)
unfolding on_connected all_of connection_calls mqtt_prefix mqtt_information information_calls
    publish_number ip_calls reset_calls mqtt_loop loop_time mqtt_setup loop_heap loop_rssi
run = looped reading (opened info (set_up (codes "broker") (pos 1883) started) refl) refl

Runs-Agrees_example :
    Agrees print_int heap_text hostname
      (omega arith)
      after_reading.0
      ((after_setup.1 ++ after_connection.1) ++ after_reading.1)
Runs-Agrees_example =
    Runs-Agrees print_int heap_text hostname (omega arith) after_reading.0
      ((after_setup.1 ++ after_connection.1) ++ after_reading.1) run
