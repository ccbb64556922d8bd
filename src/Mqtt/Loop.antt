-- ===== src/Mqtt/Loop.antt =====
-- What `mqtt_loop` of esp8266/app/mqtt.cpp publishes.
use esp8266_xcode.Base.{
  ℕ, ◌-◌, ◌/◌, ◌≤◌, List, [], ◌∷◌, ◌++◌, Option, some, Bool, true, false, ◌==◌, lt→ltb, ◌≡◌, ap,
  ◌∙◌, arith, length, if◌then◌else◌, Bool-cases, inl, inr,
}
use esp8266_xcode.Base.Int.{ℤ, pos, negsuc}
use esp8266_xcode.Base.Strings.{codes}
use esp8266_xcode.Lost.Number.Laws.{itoa}
use esp8266_xcode.Mqtt.{
  Event, publish, State, Reading, esp, mqtt_publish, publish_number, same_int, or_ffffff00,
  time_text, loop_time, loop_heap, loop_rssi, and_then, mqtt_loop,
}
use esp8266_xcode.Mqtt.Topics.{length-esp}

pub same_int→≡ : (a b : ℤ) → same_int a b ≡ true → a ≡ b
same_int→≡ (pos m) (pos n) h = ap pos (ground (arith, h))
same_int→≡ (negsuc m) (negsuc n) h = ap negsuc (ground (arith, h))
same_int→≡ (pos m) (negsuc n) h = ground (arith, h)
same_int→≡ (negsuc m) (pos n) h = ground (arith, h)

publish_number_fits :
    (s : State) (hostname name text : List ℕ)
    → length hostname ≤ 32
    → length name ≤ 8
    → s.connected ≡ true
    → publish_number s (esp hostname name) text false
      ≡ some (s, publish (esp hostname name) text false ∷ [])
unfolding publish_number mqtt_publish
publish_number_fits s hostname name text h k c = rw (
  publish_number,
  lt→ltb (length (esp hostname name)) 64 (omega (arith, length-esp hostname name)),
  mqtt_publish,
  c,
)

and_then_eq :
    (f : State → Option (State × List Event)) (o : Option (State × List Event)) (s s' : State)
    (events later : List Event)
    → o ≡ some (s, events)
    → f s ≡ some (s', later)
    → and_then f o ≡ some (s', events ++ later)
and_then_eq f o s s' events later e e' = ap (and_then f) e ∙ rw (and_then, e')

-- A value is published if it is new.
abbrev pub if_new : Bool → List ℕ → List ℕ → List ℕ → List Event
if_new same hostname name text = if same then [] else publish (esp hostname name) text false ∷ []

module _ (hex : ℤ → List ℕ) (heap_text : ℕ → ℕ → List ℕ) (hostname : List ℕ)
    (h : length hostname ≤ 32) where
  abbrev pub time_events : Reading → State → List Event
  time_events r s =
      if_new (s.now_timestamp == r.timestamp / 60) hostname (codes "Time") (time_text r.timestamp)

  abbrev pub heap_events : Reading → State → List Event
  heap_events r s =
      if_new (s.now_free_heap == r.free_heap) hostname (codes "FreeHeap")
        (heap_text r.free_heap (r.free_heap - r.region))

  abbrev pub rssi_events : Reading → State → List Event
  rssi_events r s =
      if_new (same_int s.now_rssi r.rssi) hostname (codes "RSSI") (itoa hex (or_ffffff00 r.rssi) 10)

  loop_time-events :
      (r : Reading) (s : State)
      → s.connected ≡ true
      → loop_time hex heap_text hostname r s
        ≡ some (record s { now_timestamp = r.timestamp / 60 }, time_events r s)
  unfolding loop_time
  loop_time-events r s c = elim (Bool-cases (s.now_timestamp == r.timestamp / 60)) [
    | inl same ↦
        rw (loop_time, same)
          (ap (λ n. some (record s { now_timestamp = n }, [])) (ground (arith, same)))
    | inr new ↦
        rw (loop_time, new)
          (publish_number_fits (record s { now_timestamp = r.timestamp / 60 }) hostname
            (codes "Time") (time_text r.timestamp) h (omega arith) c)
  ]

  loop_heap-events :
      (r : Reading) (s : State)
      → s.connected ≡ true
      → loop_heap hex heap_text hostname r s
        ≡ some (record s { now_free_heap = r.free_heap }, heap_events r s)
  unfolding loop_heap
  loop_heap-events r s c = elim (Bool-cases (s.now_free_heap == r.free_heap)) [
    | inl same ↦
        rw (loop_heap, same)
          (ap (λ n. some (record s { now_free_heap = n }, [])) (ground (arith, same)))
    | inr new ↦
        rw (loop_heap, new)
          (publish_number_fits (record s { now_free_heap = r.free_heap }) hostname
            (codes "FreeHeap") (heap_text r.free_heap (r.free_heap - r.region)) h (omega arith) c)
  ]

  loop_rssi-events :
      (r : Reading) (s : State)
      → s.connected ≡ true
      → loop_rssi hex heap_text hostname r s
        ≡ some (record s { now_rssi = r.rssi }, rssi_events r s)
  unfolding loop_rssi
  loop_rssi-events r s c = elim (Bool-cases (same_int s.now_rssi r.rssi)) [
    | inl same ↦
        rw (loop_rssi, same)
          (ap (λ n. some (record s { now_rssi = n }, [])) (same_int→≡ s.now_rssi r.rssi same))
    | inr new ↦
        rw (loop_rssi, new)
          (publish_number_fits (record s { now_rssi = r.rssi }) hostname (codes "RSSI")
            (itoa hex (or_ffffff00 r.rssi) 10) h (omega arith) c)
  ]

  -- What the variables are after a call.
  abbrev pub after_loop : Reading → State → State
  after_loop r s = record s {
    now_timestamp = r.timestamp / 60;
    now_free_heap = r.free_heap;
    now_rssi = r.rssi;
  }

  -- For a name of at most 32 bytes, a connected loop publishes each value that has changed.
  pub mqtt_loop-events :
      (r : Reading) (s : State)
      → s.connected ≡ true
      → mqtt_loop hex heap_text hostname r s
        ≡ some (after_loop r s, (time_events r s ++ heap_events r s) ++ rssi_events r s)
  unfolding mqtt_loop
  mqtt_loop-events r s c = ap (λ b. if b then all else some (s, [])) c ∙ chain
    where
      all : Option (State × List Event)
      all =
          and_then (loop_rssi hex heap_text hostname r)
            (and_then (loop_heap hex heap_text hostname r) (loop_time hex heap_text hostname r s))

      chain : all ≡ some (after_loop r s, (time_events r s ++ heap_events r s) ++ rssi_events r s)
      chain =
          and_then_eq (loop_rssi hex heap_text hostname r) _
            (record s { now_timestamp = r.timestamp / 60; now_free_heap = r.free_heap }) _ _ _
            (and_then_eq (loop_heap hex heap_text hostname r) _
              (record s { now_timestamp = r.timestamp / 60 }) _ _ _ (loop_time-events r s c)
              (loop_heap-events r (record s { now_timestamp = r.timestamp / 60 }) c))
            (loop_rssi-events r
              (record s { now_timestamp = r.timestamp / 60; now_free_heap = r.free_heap }) c)

  -- Without a connection nothing is published, and the variables stay.
  pub mqtt_loop_disconnected :
      (r : Reading) (s : State)
      → s.connected ≡ false
      → mqtt_loop hex heap_text hostname r s ≡ some (s, [])
  unfolding mqtt_loop
  mqtt_loop_disconnected r s c =
      ap
        (λ b.
          if b
          then and_then (loop_rssi hex heap_text hostname r)
              (and_then (loop_heap hex heap_text hostname r) (loop_time hex heap_text hostname r s))
          else some (s, []))
        c
