-- ===== src/Mqtt/Shown.antt =====
-- A subscriber of the topics of `mqtt_loop` in esp8266/app/mqtt.cpp sees the values of the last call.
use mathlib.Core.Path.{subst}
use esp8266_xcode.Base.{
  ℕ, ◌-◌, ◌/◌, ◌%◌, ◌≤◌, List, [], ◌∷◌, ◌++◌, Option, none, some, Bool, true, false, ◌==◌, ◌≡◌,
  refl, sym, ap, ◌∙◌, arith, length, if◌then◌else◌, append-nil,
}
use esp8266_xcode.Base.Int.{ℤ, pos}
use esp8266_xcode.Base.Strings.{codes}
use esp8266_xcode.Lost.Number.Laws.{itoa, print_int}
use esp8266_xcode.Httpd.{text_eq}
use esp8266_xcode.Httpd.Dispatch.Registry.{text_eq_refl}
use esp8266_xcode.Mqtt.{Event, State, Reading, esp, same_int, or_ffffff00, time_text, mqtt_loop}
use esp8266_xcode.Mqtt.Topics.{shown, shown-append, later_first, text_eq-esp, later_first-none}
use esp8266_xcode.Mqtt.Loop.{
  if_new, time_events, heap_events, rssi_events, after_loop, mqtt_loop-events,
  mqtt_loop_disconnected, same_int→≡,
}

-- The time, as a function of the minutes.
abbrev pub minute_text : ℕ → List ℕ
minute_text m = print_int (pos (m / 60 % 24)) ++ (b':' ∷ print_int (pos (m % 60)))

time_text-minute : (t : ℕ) → time_text t ≡ minute_text (t / 60)
unfolding time_text
time_text-minute t =
    ap (λ n. print_int (pos (n % 24)) ++ (b':' ∷ print_int (pos (t / 60 % 60)))) (omega arith)

-- A subscriber has a value, or it is the first one and nothing has been published.
abbrev pub Shows : Type 0 → (List ℕ → Type 0) → Option (List ℕ) → Type 0
Shows IsFirst IsValue none = IsFirst
Shows IsFirst IsValue (some text) = IsValue text

shown_same :
    (topic hostname name text : List ℕ) → shown topic (if_new true hostname name text) ≡ none
unfolding shown
shown_same topic hostname name text = refl

shown_own :
    (hostname name text : List ℕ)
    → shown (esp hostname name) (if_new false hostname name text) ≡ some text
unfolding shown
shown_own hostname name text = rw (shown, text_eq_refl (esp hostname name))

shown_other :
    (same : Bool) (hostname name other text : List ℕ)
    → text_eq other name ≡ false
    → shown (esp hostname name) (if_new same hostname other text) ≡ none
unfolding shown
shown_other true hostname name other text h = refl
shown_other false hostname name other text h = rw (shown, text_eq-esp hostname other name, h)

-- A value that is published if it is new is shown behind.
if_new-Shows :
    (same : Bool) (hostname name text : List ℕ) (IsFirst IsFirst' : Type 0)
    (IsValue IsValue' : List ℕ → Type 0) (o : Option (List ℕ))
    → (same ≡ true → (IsFirst → IsFirst') × ((t : List ℕ) → IsValue t → IsValue' t))
    → IsValue' text
    → Shows IsFirst IsValue o
    → Shows IsFirst' IsValue'
        (later_first (shown (esp hostname name) (if_new same hostname name text)) o)
if_new-Shows true hostname name text F F' V V' none h k s =
    rw (shown_same (esp hostname name) hostname name text) ((h refl).0 s)
if_new-Shows true hostname name text F F' V V' (some v) h k s =
    rw (shown_same (esp hostname name) hostname name text) ((h refl).1 v s)
if_new-Shows false hostname name text F F' V V' o h k s = rw (shown_own hostname name text) k

abbrev time_name : List ℕ
time_name = codes "Time"

abbrev heap_name : List ℕ
heap_name = codes "FreeHeap"

abbrev rssi_name : List ℕ
rssi_name = codes "RSSI"

itoa_decimal : (hex : ℤ → List ℕ) (v : ℤ) → itoa hex v 10 ≡ print_int v
unfolding itoa
itoa_decimal hex v = refl

module _ (hex : ℤ → List ℕ) (heap_text : ℕ → ℕ → List ℕ) (hostname : List ℕ)
    (h : length hostname ≤ 32) where
  -- What a subscriber has seen agrees with the variables.
  pub record Agrees (s : State) (events : List Event) : Type 0 where
    pub time :
        Shows
          (s.now_timestamp ≡ 0)
          (λ t. t ≡ minute_text s.now_timestamp)
          (shown (esp hostname (codes "Time")) events)
    pub heap :
        Shows
          (s.now_free_heap ≡ 0)
          (λ t. (region : ℕ) × (t ≡ heap_text s.now_free_heap (s.now_free_heap - region)))
          (shown (esp hostname (codes "FreeHeap")) events)
    pub rssi :
        Shows
          (s.now_rssi ≡ pos 0)
          (λ t. t ≡ print_int (or_ffffff00 s.now_rssi))
          (shown (esp hostname (codes "RSSI")) events)

  -- What is shown behind a loop of one topic.
  shown_loop :
      (topic : List ℕ) (events te he re : List Event)
      → shown topic (events ++ ((te ++ he) ++ re))
        ≡ later_first
            (later_first (shown topic re) (later_first (shown topic he) (shown topic te)))
            (shown topic events)
  shown_loop topic events te he re = rw (
    shown-append topic events ((te ++ he) ++ re),
    shown-append topic (te ++ he) re,
    shown-append topic te he,
  )

  loop-Agrees :
      (r : Reading) (s : State) (events : List Event)
      → Agrees s events
      → Agrees (after_loop hex heap_text hostname h r s) (
          events
          ++ ((time_events hex heap_text hostname h r s ++ heap_events hex heap_text hostname h r s)
              ++ rssi_events hex heap_text hostname h r s))
  loop-Agrees r s events a =
      let te = time_events hex heap_text hostname h r s in
      let he = heap_events hex heap_text hostname h r s in
      let re = rssi_events hex heap_text hostname h r s in
      let new_time = s.now_timestamp == r.timestamp / 60 in
      let new_heap = s.now_free_heap == r.free_heap in
      let new_rssi = same_int s.now_rssi r.rssi in
      let heap = heap_text r.free_heap (r.free_heap - r.region) in
      let rssi = itoa hex (or_ffffff00 r.rssi) 10 in
      record {
        time =
            rw
              (
                shown_loop (esp hostname (codes "Time")) events te he re,
                shown_other new_rssi hostname (codes "Time") (codes "RSSI") rssi refl,
                shown_other new_heap hostname (codes "Time") (codes "FreeHeap") heap refl,
              )
              (if_new-Shows new_time hostname (codes "Time") (time_text r.timestamp) _ _ _ _ _
                (λ e.
                  let eq : s.now_timestamp ≡ r.timestamp / 60 = ground (arith, e) in
                  ((λ z. sym eq ∙ z), (λ t k. k ∙ ap minute_text eq)))
                (time_text-minute r.timestamp) a.time);
        heap =
            rw
              (
                shown_loop (esp hostname (codes "FreeHeap")) events te he re,
                shown_other new_rssi hostname (codes "FreeHeap") (codes "RSSI") rssi refl,
                shown_other new_time hostname (codes "FreeHeap") (codes "Time")
                    (time_text r.timestamp) refl,
                later_first-none,
              )
              (if_new-Shows new_heap hostname (codes "FreeHeap") heap _ _ _ _ _
                (λ e.
                  let eq : s.now_free_heap ≡ r.free_heap = ground (arith, e) in
                  ((λ z. sym eq ∙ z), (λ t k. (k.0, k.1 ∙ ap (λ n. heap_text n (n - k.0)) eq))))
                (r.region, refl) a.heap);
        rssi =
            rw
              (
                shown_loop (esp hostname (codes "RSSI")) events te he re,
                shown_other new_time hostname (codes "RSSI") (codes "Time") (time_text r.timestamp)
                    refl,
                shown_other new_heap hostname (codes "RSSI") (codes "FreeHeap") heap refl,
                later_first-none,
              )
              (if_new-Shows new_rssi hostname (codes "RSSI") rssi _ _ _ _ _
                (λ e.
                  let eq : s.now_rssi ≡ r.rssi = same_int→≡ s.now_rssi r.rssi e in
                  ((λ z. sym eq ∙ z), (λ t k. k ∙ ap (λ v. print_int (or_ffffff00 v)) eq)))
                (itoa_decimal hex (or_ffffff00 r.rssi)) a.rssi);
      }

  -- What a call leaves, by whether there is a connection.
  abbrev pub LoopAgrees : Reading → State → List Event → Bool → Type 0
  LoopAgrees r s events b =
      (new : List Event) × (mqtt_loop hex heap_text hostname r s
        ≡ some (if b then after_loop hex heap_text hostname h r s else s, new))
      × Agrees (if b then after_loop hex heap_text hostname h r s else s) (events ++ new)

  loop_by_connected :
      (r : Reading) (s : State) (events : List Event) (b : Bool)
      → s.connected ≡ b
      → Agrees s events
      → LoopAgrees r s events b
  loop_by_connected r s events true c a =
      (_, mqtt_loop-events hex heap_text hostname h r s c, loop-Agrees r s events a)
  loop_by_connected r s events false c a = (
    [],
    mqtt_loop_disconnected hex heap_text hostname h r s c,
    subst (Agrees s) (sym (append-nil events)) a,
  )

  -- For a host name of at most 32 bytes: where the last data of the topics Time, FreeHeap and
  -- RSSI agree with the variables of mqtt_loop, a call ends, and they agree again. With a
  -- connection the variables are those of the reading, and without one nothing changes.
  pub mqtt_loop-Agrees :
      (r : Reading) (s : State) (events : List Event)
      → Agrees s events
      → LoopAgrees r s events s.connected
  mqtt_loop-Agrees r s events a = loop_by_connected r s events s.connected refl a
