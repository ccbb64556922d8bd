-- ===== src/Ets/Tests.antt =====
-- A run of esp8266/ets.c.
use Prim.Native.Nat.{bit_and}
use esp8266_xcode.Base.{[], ◌∷◌, ◌==◌, if◌then◌else◌, arith}
use esp8266_xcode.Ets.{Ets, ets_run_once, top_bit}
use esp8266_xcode.Ets.Queue.{Ran, ets_run_once-Ran}

-- Two events wait for the task 31, whose ring has three elements, and one for the others.
abbrev waiting : Ets
waiting = record {
  bit_count_task = 0x80000001;
  tab_task = λ i.
      if i == 31
      then record { event = 7 ∷ 8 ∷ 9 ∷ []; size = 3; offset = 2; count = 2; priority = 0x80000000 }
      else record { event = 5 ∷ []; size = 1; offset = 0; count = 1; priority = 1 };
}

ets_run_once-Ran_example :
    Ran (bit_and 0xff000000 0x80000001) waiting (ets_run_once 0xff000000 waiting)
unfolding top_bit
ets_run_once-Ran_example =
    ets_run_once-Ran 0xff000000 waiting (omega arith) (omega arith)
      (record { offset_in = omega arith; count_le = omega arith; size_byte = omega arith })
      (omega arith)
