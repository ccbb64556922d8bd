-- ===== src/Mqtt/Run.antt =====
-- The connection, the loop and the end of a connection of esp8266/app/mqtt.cpp, in any order.
use mathlib.Core.Path.{subst}
use esp8266_xcode.Base.{
  ℕ, ◌≤◌, List, [], ◌∷◌, ◌++◌, Option, none, some, Bool, true, false, ◌≡◌, refl, sym, ◌∙◌, length,
  if◌then◌else◌, append-nil,
}
use esp8266_xcode.Base.Int.{ℤ}
use esp8266_xcode.Base.Strings.{codes}
use esp8266_xcode.Mqtt.{
  Event, init, init_client, init_last_will, connect, State, start, Reading, mqtt_prefix, esp,
  mqtt_loop,
}
use esp8266_xcode.Mqtt.Topics.{shown, shown-append}
use esp8266_xcode.Mqtt.Connection.{Info, on_connected, on_disconnected, mqtt_setup}
use esp8266_xcode.Mqtt.Shown.{Agrees, mqtt_loop-Agrees}
use esp8266_xcode.Mqtt.Quiet.{IsQuiet, Keeps, on_connected-Keeps}

module _ (hex : ℤ → List ℕ) (heap_text : ℕ → ℕ → List ℕ) (hostname : List ℕ)
    (h : length hostname ≤ 32) where
  -- Calls of the callbacks and of `mqtt_setup`, in any order.
  pub data Runs : State → List Event → Type 0 where
    started : Runs start []
    set_up :
        {s : State} {events : List Event} (server : List ℕ) (port : ℤ)
        → Runs s events
        → Runs
            (mqtt_setup hostname server port s).0
            (events ++ (mqtt_setup hostname server port s).1)
    opened :
        {s s' : State} {events new : List Event} (i : Info)
        → Runs s events
        → on_connected hex hostname i s ≡ some (s', new)
        → Runs s' (events ++ new)
    looped :
        {s s' : State} {events new : List Event} (r : Reading)
        → Runs s events
        → mqtt_loop hex heap_text hostname r s ≡ some (s', new)
        → Runs s' (events ++ new)
    closed : {s : State} {events : List Event} → Runs s events → Runs (on_disconnected s) events

  abbrev Agree : State → List Event → Type 0
  Agree s events = Agrees hex heap_text hostname h s events

  -- Events that are quiet keep the agreement, also where the connection changes.
  quiet-Agrees :
      (s : State) (client online : Bool) (events new : List Event)
      → IsQuiet hex hostname new
      → Agree s events
      → Agree (record s { client = client; connected = online }) (events ++ new)
  quiet-Agrees s client online events new (a, b, c) g = record {
    time = rw (shown-append (esp hostname (codes "Time")) events new, a) g.time;
    heap = rw (shown-append (esp hostname (codes "FreeHeap")) events new, b) g.heap;
    rssi = rw (shown-append (esp hostname (codes "RSSI")) events new, c) g.rssi;
  }

  -- What holds of a result, if there is one.
  abbrev AgreesAt : List Event → Option (State × List Event) → Type 0
  AgreesAt events none = Unit
  AgreesAt events (some (s', new)) = Agree s' (events ++ new)

  connected-Agrees :
      (s : State) (events : List Event) (o : Option (State × List Event))
      → Keeps hex hostname (record s { connected = true }) o
      → Agree s events
      → AgreesAt events o
  connected-Agrees s events none k g = tt
  connected-Agrees s events (some (s', new)) (e, q) g =
      subst (λ s''. Agree s'' (events ++ new)) (sym e) (quiet-Agrees s s.client true events new q g)

  setup-IsQuiet :
      (server : List ℕ) (port : ℤ) (s : State)
      → IsQuiet hex hostname (mqtt_setup hostname server port s).1
  unfolding mqtt_setup shown
  setup-IsQuiet server port s = by_client s.client
    where
      by_client :
          (b : Bool)
          → IsQuiet hex hostname (
              (if b
                then []
                else init server port
                  ∷ init_client hostname
                  ∷ init_last_will (mqtt_prefix hostname (codes "connected") []) (codes "false")
                  ∷ [])
              ++ (connect ∷ []))
      by_client true = (refl, refl, refl)
      by_client false = (refl, refl, refl)

  -- For a host name of at most 32 bytes: after any calls of mqtt_setup, of mqtt_loop and of the
  -- callbacks for a new and a lost connection, the last data of the topics Time, FreeHeap and
  -- RSSI agree with the variables of mqtt_loop: each is the text of its variable, or nothing was
  -- published and the variable is 0.
  pub Runs-Agrees :
      (s : State) (events : List Event) → Runs s events → Agrees hex heap_text hostname h s events
  unfolding mqtt_setup on_disconnected shown
  Runs-Agrees _ _ started = record { time = refl; heap = refl; rssi = refl }
  Runs-Agrees _ _ (set_up {s} {events} server port run) =
      quiet-Agrees s true s.connected events _ (setup-IsQuiet server port s)
        (Runs-Agrees s events run)
  Runs-Agrees _ _ (opened {s} {s'} {events} {new} i run e) = subst (AgreesAt events) e (
      connected-Agrees s events (on_connected hex hostname i s)
        (on_connected-Keeps hex hostname i s) (Runs-Agrees s events run))
  Runs-Agrees _ _ (looped {s} {s'} {events} {new} r run e) =
      let (_, e', agrees) =
        mqtt_loop-Agrees hex heap_text hostname h r s events (Runs-Agrees s events run) in
      subst (AgreesAt events) (sym e' ∙ e) agrees
  Runs-Agrees _ _ (closed {s} {events} run) =
      subst (Agree (record s { connected = false })) (append-nil events)
        (quiet-Agrees s s.client false events [] (refl, refl, refl) (Runs-Agrees s events run))
