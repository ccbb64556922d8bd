-- ===== src/Ets/Queue.antt =====
-- The queues of events of esp8266/ets.c.
use Prim.Native.Nat.{bit_and}
use mathlib.Core.Path.{subst}
use esp8266_xcode.Base.{
  ℕ, zero, suc, ◌+◌, ◌-◌, ◌*◌, ◌/◌, ◌^◌, ◌≤◌, ◌<◌, List, [], ◌∷◌, Option, some, false, ◌==◌, ◌&&◌,
  ltb, if◌then◌else◌, get_or, ◌≡◌, ◌≢◌, refl, ap, sym, ◌∙◌, arith, Bool-cases, inl, inr, ltb→lt,
  ==_refl,
}
use native.Mathlib.Nat.{pow-suc}
use native.Mathlib.Numerals.{add-one}
use esp8266_xcode.Base.Bits.{digit, digit-clear}
use esp8266_xcode.Ets.{clear, TabTask, Ets, top_bit, take_event, put, ets_run_once}

-- The ring is used inside its size, and holds no more events than that.
pub record IsValid (tab : TabTask) : Type 0 where
  pub offset_in : tab.offset < tab.size
  pub count_le : tab.count ≤ tab.size
  pub size_byte : tab.size < 256

-- `n` events of a ring, from an offset on.
events_from : List ℕ → ℕ → ℕ → ℕ → List ℕ
events_from event size offset zero = []
events_from event size offset (suc n) =
    get_or event offset 0 ∷ events_from event size (if offset + 1 == size then 0 else offset + 1) n

-- The events that wait, the oldest first.
pub pending : TabTask → List ℕ
unfolding events_from
pending tab = events_from tab.event tab.size tab.offset tab.count

pending-take_event :
    (tab : TabTask)
    → IsValid tab
    → 0 < tab.count
    → pending tab ≡ get_or tab.event tab.offset 0 ∷ pending (take_event tab)
unfolding pending events_from
pending-take_event tab v h =
    ap (events_from tab.event tab.size tab.offset) {x = tab.count} {y = suc (tab.count - 1)}
      (omega arith)
    ∙ ap (λ o. get_or tab.event tab.offset 0 ∷ events_from tab.event tab.size o (tab.count - 1))
        {x = if tab.offset + 1 == tab.size then 0 else tab.offset + 1} {y = (take_event tab).offset}
        (ground arith)
    ∙ ap
        (λ n.
          get_or tab.event tab.offset 0 ∷ events_from tab.event tab.size (take_event tab).offset n)
        {x = tab.count - 1} {y = (take_event tab).count} (omega arith)

take_event-IsValid : (tab : TabTask) → IsValid tab → 0 < tab.count → IsValid (take_event tab)
take_event-IsValid tab v h = ground arith

pow_add_one : (i : ℕ) → 2 ^ (i + 1) ≡ 2 * 2 ^ i
pow_add_one i = omega (arith, pow-suc 2 i, ap (λ j. 2 ^ j) (add-one i))

-- The highest bit of a number below 2 ^ fuel.
top_bit_lem :
    (fuel n : ℕ) → 0 < n → n < 2 ^ fuel → (2 ^ top_bit fuel n ≤ n) × (n < 2 ^ (top_bit fuel n + 1))
unfolding top_bit
top_bit_lem zero n p h = absurd (omega arith)
top_bit_lem (suc fuel) n p h = elim (Bool-cases (ltb n 2)) [
  | inl e ↦ rw e (omega (arith, ltb→lt n 2 e), omega (arith, ltb→lt n 2 e))
  | inr e ↦
      let big : 2 ≤ n = ground (arith, e) in
      let (low, high) = top_bit_lem fuel (n / 2) (omega arith) (omega (arith, pow-suc 2 fuel)) in
      let i = top_bit fuel (n / 2) in
      rw e
        (omega (arith, low, pow_add_one i), omega (arith, high, pow_add_one i, pow_add_one (i + 1)))
]

-- The digits of the word of ready tasks: those of a task whose queue is empty are lost, and all
-- others stay.
abbrev pub Ready : ℕ → TabTask → ℕ → Type 0
Ready before tab after =
    (j : ℕ)
    → digit j after
      ≡ (if (tab.count == 0) && (digit j tab.priority == 1) then 0 else digit j before)

-- What a call does that runs an event: that of the highest task, its oldest one, which leaves the
-- queue; the word of ready tasks, and the other tasks, which stay as they are.
pub record Ran (bits : ℕ) (ets : Ets) (out : Option (ℕ × ℕ) × Ets) : Type 0 where
  pub task : ℕ
  pub event : ℕ
  pub result : out.0 ≡ some (task, event)
  pub highest : (2 ^ task ≤ bits) × (bits < 2 ^ (task + 1))
  pub oldest : pending (ets.tab_task task) ≡ event ∷ pending (out.1.tab_task task)
  pub valid : IsValid (out.1.tab_task task)
  pub ready : Ready ets.bit_count_task (out.1.tab_task task) out.1.bit_count_task
  pub others : (j : ℕ) → j ≢ task → out.1.tab_task j ≡ ets.tab_task j

put_self : (tabs : ℕ → TabTask) (i : ℕ) (tab : TabTask) → put tabs i tab i ≡ tab
put_self tabs i tab = rw (==_refl i)

put_ne : (tabs : ℕ → TabTask) (i j : ℕ) (tab : TabTask) → j ≢ i → put tabs i tab j ≡ tabs j
put_ne tabs i j tab h = ground (arith, h)

take_event-Ready :
    (before : ℕ) (tab : TabTask)
    → Ready before
        (take_event tab)
        (if (take_event tab).count == 0 then clear before tab.priority else before)
take_event-Ready before tab j = elim (Bool-cases ((take_event tab).count == 0)) [
  | inl e ↦ rw e (digit-clear j before tab.priority)
  | inr e ↦ rw e
]

not_zero : (n : ℕ) → 0 < n → (n == 0) ≡ false
not_zero n h = ground arith

-- Where the mask leaves a ready task, of 32 bits, and the highest of them has a valid ring that
-- is not empty, ets_run_once runs an event of that task, its oldest, which leaves the queue, and
-- its ring stays valid. The word of ready tasks loses the bits of the priority of this task
-- where its queue has become empty, and keeps every other bit; all other queues stay as they
-- are.
pub ets_run_once-Ran :
    (bit_count : ℕ) (ets : Ets)
    → 0 < bit_and bit_count ets.bit_count_task
    → bit_and bit_count ets.bit_count_task < 2 ^ 32
    → IsValid (ets.tab_task (top_bit 32 (bit_and bit_count ets.bit_count_task)))
    → 0 < (ets.tab_task (top_bit 32 (bit_and bit_count ets.bit_count_task))).count
    → Ran (bit_and bit_count ets.bit_count_task) ets (ets_run_once bit_count ets)
unfolding ets_run_once
ets_run_once-Ran bit_count ets p h v c =
    let bits = bit_and bit_count ets.bit_count_task in
    let i = top_bit 32 bits in
    let tab = ets.tab_task i in
    let self = put_self ets.tab_task i (take_event tab) in
    rw (not_zero bits p) (record {
      task = i;
      event = get_or tab.event tab.offset 0;
      result = refl;
      highest = top_bit_lem 32 bits p h;
      oldest =
          pending-take_event tab v c
          ∙ ap (λ t. get_or tab.event tab.offset 0 ∷ pending t) (sym self);
      valid = subst IsValid (sym self) (take_event-IsValid tab v c);
      ready =
          subst
            (λ t. Ready ets.bit_count_task t (
              if (take_event tab).count == 0
              then clear ets.bit_count_task tab.priority
              else ets.bit_count_task))
            (sym self) (take_event-Ready ets.bit_count_task tab);
      others = λ j ne. put_ne ets.tab_task i j (take_event tab) ne;
    })
