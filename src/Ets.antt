-- ===== src/Ets.antt =====
-- esp8266/ets.c: `ets_run_once` runs one event of the SDK's tasks.
pub mod Queue
mod Tests
use Prim.Native.Nat.{bit_and}
use esp8266_xcode.Base.{
  ℕ, zero, suc, ◌+◌, ◌-◌, ◌/◌, ◌%◌, ◌^◌, List, [], ◌∷◌, Option, none, some, Bool, true, false, ◌==◌,
  ltb, if◌then◌else◌, get_or,
}

-- `tab_task`: the ring `event` has `size` elements; `priority` is the bit of the task.
pub record TabTask : Type 0 where
  pub event : List ℕ
  pub size : ℕ
  pub offset : ℕ
  pub count : ℕ
  pub priority : ℕ

-- `ets_bit_count_task` and `ets_tab_task`.
pub record Ets : Type 0 where
  pub bit_count_task : ℕ
  pub tab_task : ℕ → TabTask

-- `32 - __builtin_clz(n)`, for an `n` that is not 0, less one: the highest bit that is set.
unfoldable pub top_bit : ℕ → ℕ → ℕ
top_bit zero n = 0
top_bit (suc fuel) n = let rest = top_bit fuel (n / 2) in if ltb n 2 then 0 else rest + 1

-- `n & ~bit`, for a bit that may be set in `n`.
abbrev pub clear : ℕ → ℕ → ℕ
clear n bit = n - bit_and n bit

-- The ring after its oldest event has been taken; `uint8` counts.
abbrev pub take_event : TabTask → TabTask
take_event tab =
    let offset = (tab.offset + 1) % 256 in
    record tab {
      offset = if offset == tab.size then 0 else offset;
      count = (tab.count + 255) % 256;
    }

abbrev pub put : (ℕ → TabTask) → ℕ → TabTask → ℕ → TabTask
put tabs i tab j = if j == i then tab else tabs j

-- The task and the event that are run, if there is one, and the state in which it is run.
unfoldable pub ets_run_once : ℕ → Ets → Option (ℕ × ℕ) × Ets
ets_run_once bit_count ets =
    let bits = bit_and bit_count ets.bit_count_task in
    let i = top_bit 32 bits in
    let tab = ets.tab_task i in
    let tab' = take_event tab in
    let ready =
      if tab'.count == 0 then clear ets.bit_count_task tab.priority else ets.bit_count_task in
    if bits == 0 then (none, ets) else (
      some (i, get_or tab.event tab.offset 0),
      record { bit_count_task = ready; tab_task = put ets.tab_task i tab' },
    )
