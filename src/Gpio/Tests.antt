-- ===== src/Gpio/Tests.antt =====
-- A run of esp8266/app/gpio.c.
use esp8266_xcode.Gpio.Regist.{PinBits, func_of, gpio_regist, call_of, gpio_handler-gpio_regist}
use esp8266_xcode.Base.{ℕ, ◌+◌, ◌==◌, Option, none, some, if◌then◌else◌, ◌≡◌, arith}
use esp8266_xcode.Gpio.{gpio_handler, calls_of}
use esp8266_xcode.Base.{◌≢◌, true, refl}
use esp8266_xcode.Base.Int.{ℤ, pos, negsuc}
use esp8266_xcode.Gpio.Pull.{gpio_address, gpio_pullup}
use esp8266_xcode.Gpio.Dispatch.{set_bits, gpio_handler-set_bits}

-- The pin 4 has no handler.
abbrev named : ℕ → Option ℕ
named i = if i == 4 then none else some (100 + i)

gpio_handler-set_bits_example :
    gpio_handler named 5000 0x2005 0x2015 ≡ calls_of named 0x2005 5000 (set_bits 16 0 0x2015)
gpio_handler-set_bits_example = gpio_handler-set_bits named 5000 0x2005 0x2015 (omega arith)

value_of : ℤ → ℕ
value_of (pos n) = n
value_of (negsuc n) = 0

-- The guards let 16 pass, which is behind the end of the array.
gpio_pullup_sixteen : gpio_pullup (λ i. 0x60000800 + i) (pos 16) true ≡ none
unfolding gpio_pullup gpio_address
gpio_pullup_sixteen = refl

abbrev pin_bits : PinBits
pin_bits = record {
  wakeup_mask = 1024;
  int_type_mask = 896;
  pad_driver_mask = 4;
  source_mask = 1;
  wakeup_disable = 0;
  intr_anyedge = 384;
  intr_disable = 0;
  pad_driver_enable = 4;
  pad_driver_disable = 0;
  as_pin_source = 0;
}

abbrev no_handlers : ℕ → Option ℕ
no_handlers gpio = none

gpio_handler-gpio_regist_example :
    (gpio_handler
        (gpio_regist pin_bits (λ n. n) (λ n. 0) no_handlers (pos 12) (some 7)).0
        100
        4096
        4096
      ≡ call_of (some 7) 1 100)
    × ((other : ℕ)
        → other ≢ 12
        → (gpio_regist pin_bits (λ n. n) (λ n. 0) no_handlers (pos 12) (some 7)).0 other
          ≡ no_handlers other)
unfolding func_of
gpio_handler-gpio_regist_example =
    gpio_handler-gpio_regist pin_bits (λ n. n) (λ n. 0) no_handlers 12 3 (some 7) 100 4096 refl
