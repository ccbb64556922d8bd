-- ===== src/Ota.antt =====
-- esp8266/app/ota.c: an image that arrives in packets goes to the flash of the other partition,
-- and the calls of the SDK are the events of a callback, in order. Addresses stay far below
-- 2 ^ 31, so their `int` is ℕ.
pub mod Flash
pub mod Listen
pub mod Request
mod Tests
use esp8266_xcode.Base.{
  ℕ, ◌+◌, ◌-◌, ◌/◌, ◌%◌, ◌^◌, List, [], ◌∷◌, ◌++◌, Option, none, some, Bool, true, false, ◌==◌,
  ◌&&◌, not, ltb, leb, if◌then◌else◌, length, drop,
}
use esp8266_xcode.Base.Int.{ℤ, pos, negsuc}

-- `UPGRADE_FLAG_START` and `UPGRADE_FLAG_FINISH`, and the third one of the SDK.
pub data Flag : Type 0 where
  idle start finish : Flag

pub data Event : Type 0 where
  upgrade_init : Event
  flag_set : Flag → Event
  erase_sector : ℕ → Event
  upgrade : List ℕ → Event
  sent : List ℕ → Event
  disconnect : Event
  upgrade_deinit : Event
  reboot : Event

abbrev pub sec_size : ℕ
sec_size = 4096

-- `struct ota_context`
pub record Context : Type 0 where
  pub address : ℕ
  pub offset : ℕ
  pub size : ℤ

-- `offset == size`
abbrev pub is_int : ℤ → ℕ → Bool
is_int (pos m) n = n == m
is_int (negsuc m) n = false

-- What `ota_tcp_init` puts in the context, for the address of the partition. The result is that
-- of C for an address from 0x1000 on, as those of both partitions are.
unfoldable pub init_context : ℕ → ℤ → Context
init_context addr size = record { address = addr - 0x1000; offset = 0; size = size }

-- The start of an upgrade, before the first byte.
abbrev begin : Context → List Event
begin c = if c.offset == 0 then upgrade_init ∷ flag_set start ∷ [] else []

-- The first 4096 bytes of the image are skipped: `true` where this packet reaches their end.
abbrev pub crosses : Context → List ℕ → Bool
crosses c packet = ltb c.offset 0x1000 && leb 0x1000 (c.offset + length packet)

abbrev skip : Context → List ℕ → Context × List ℕ × List Event
skip c packet =
    let n = 0x1000 - c.offset in
    if crosses c packet
    then (
      record c { address = c.address + n; offset = c.offset + n },
      drop n packet,
      erase_sector ((c.address + n) / sec_size) ∷ [],
    )
    else (c, packet, [])

-- The write of what is left of the packet, behind the erasure of a sector that it reaches.
abbrev store : Context → List ℕ → List Event
store c packet =
    if leb 0x1000 c.offset
    then (if not ((c.address + length packet) / sec_size == c.address / sec_size)
        then erase_sector ((c.address + length packet) / sec_size) ∷ []
        else [])
      ++ (upgrade packet ∷ [])
    else []

-- The part that `ota_tcp_recv` and `fota_recv` share.
unfoldable pub upgrade_packet : Context → List ℕ → Context × List Event
upgrade_packet c packet =
    let (c', rest, erased) = skip c packet in
    (
      record c' { address = c'.address + length rest; offset = c'.offset + length rest },
      begin c ++ (erased ++ store c' rest),
    )

abbrev pub ok_text : List ℕ
ok_text = b'O' ∷ b'K' ∷ []

unfoldable pub ota_tcp_recv : Context → List ℕ → Context × List Event
ota_tcp_recv c packet =
    let (c', events) = upgrade_packet c packet in (c', events ++ (sent ok_text ∷ []))

unfoldable pub ota_tcp_send : Context → List Event
ota_tcp_send c =
    if is_int c.size c.offset then flag_set finish ∷ sent ok_text ∷ disconnect ∷ [] else []

-- `first` and `second` are what the two calls of `system_upgrade_flag_check` return.
abbrev pub is_finish : Flag → Bool
is_finish finish = true
is_finish idle = false
is_finish start = false

abbrev pub is_start : Flag → Bool
is_start start = true
is_start idle = false
is_start finish = false

unfoldable pub ota_tcp_discon : Flag → Flag → List Event
ota_tcp_discon first second =
    (if is_finish first then upgrade_deinit ∷ reboot ∷ [] else [])
    ++ (if not (is_start second) then upgrade_deinit ∷ [] else [])
