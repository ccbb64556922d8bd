-- ===== src/Init.antt =====
-- The start of esp8266/init.c, and the free memory of a region. The exception hook, under
-- `DEMO`, is left out; the clock of the file is in Clock.
use esp8266_xcode.Base.{ℕ, List, [], ◌∷◌, ◌++◌, Bool, true, ◌==◌, if◌then◌else◌}
use esp8266_xcode.Uart.{sub32}

-- The calls of the SDK and of the program; the timer calls `system_get_time_overflow_callback`.
pub data Call : Type 0 where
  set_os_print : Bool → Call
  arm_overflow_timer : ℕ → Bool → Call
  init_done_cb : Call
  setup loop : Call
  -- `system_os_task` with `loop_task` for USER_TASK_PRIO_1, and the length of its queue
  os_task : ℕ → Call
  -- `system_os_post` to USER_TASK_PRIO_1
  os_post : ℕ → ℕ → Call

-- `loop_built` says that the code is built with LOOP.
pub user_init : Bool → List Call
user_init loop_built =
    set_os_print true
    ∷ ((if loop_built then os_task 1 ∷ [] else [])
        ++ (arm_overflow_timer 60000 true ∷ init_done_cb ∷ []))

-- The task under LOOP: `loop` of the program, and the next event for the task.
pub loop_task : List Call
loop_task = loop ∷ os_post 0 0 ∷ []

pub init_down : List Call
init_down = set_os_print true ∷ setup ∷ os_post 0 0 ∷ []

pub user_iram_memory_is_enabled : ℕ
user_iram_memory_is_enabled = 1

-- What the allocator keeps of a region: `handle[16]` and `handle[17]`, or `handle[18]` and
-- `handle[19]`.
pub record Region : Type 0 where
  pub top : ℕ
  pub size : ℕ

-- `temp` is the address of an allocation of 4 bytes, which is freed again.
abbrev free_of : Region → ℕ → ℕ
free_of r temp = sub32 r.size (sub32 temp r.top)

pub x_port_get_free_heap_size_region : Region → Region → ℕ → ℕ → ℕ
x_port_get_free_heap_size_region dram iram temp region =
    if region == 0 then free_of dram temp else if region == 1 then free_of iram temp else 0
