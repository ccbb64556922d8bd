-- ===== src/Fota.antt =====
-- esp8266/app/fota.cpp: the answer of an HTTPS server, whose body is the image for the other
-- partition. `find` is that of `std::string`.
pub mod Find
pub mod Body
pub mod Packet
pub mod Header
pub mod Image
mod Tests
use esp8266_xcode.Base.{
  ℕ, ◌+◌, ◌-◌, List, [], ◌∷◌, ◌++◌, Option, none, some, Bool, true, false, ◌==◌, not, ltb,
  if◌then◌else◌, length, drop,
}
use esp8266_xcode.Base.Int.{ℤ, pos}
use esp8266_xcode.Base.Strings.{codes}
use esp8266_xcode.Lost.Number.{strtol}
use esp8266_xcode.Httpd.{starts_with}
use esp8266_xcode.Ota
use esp8266_xcode.Ota.{
  Event, Flag, flag_set, finish, disconnect, upgrade_deinit, reboot, is_int, init_context,
  upgrade_packet, is_finish, is_start,
}

-- `UPGRADE_FW_BIN1` and `UPGRADE_FW_BIN2`
pub data Bin : Type 0 where
  bin1 bin2 : Bin

-- `struct fota_context`: address, offset and size are those of an image.
pub record Context : Type 0 where
  pub image : Ota.Context
  pub header : List ℕ

-- The first position of `sub`; `none` is `string::npos`.
unfoldable pub find : List ℕ → List ℕ → Option ℕ
find sub [] = if starts_with sub [] then some 0 else none
find sub (x ∷ xs) =
    let rest = find sub xs in
    if starts_with sub (x ∷ xs) then some 0 else elim rest [ none ↦ none | some n ↦ some (n + 1) ]

abbrev pub header_end : List ℕ
header_end = 13 ∷ 10 ∷ 13 ∷ 10 ∷ []

abbrev pub length_key : List ℕ
length_key = codes "Content-Length: "

-- The new context, for the addresses of the partitions OTA_1 and OTA_2.
unfoldable pub new_context : Bin → ℕ → ℕ → Context
new_context bin1 ota1 ota2 = record { image = init_context ota2 (pos 0); header = [] }
new_context bin2 ota1 ota2 = record { image = init_context ota1 (pos 0); header = [] }

-- What the header says, or the size as it was: both are `int`, as `long` is.
unfoldable pub size_of : List ℕ → ℤ → ℤ
size_of header size = elim (find length_key header) [
  | none ↦ size
  | some n ↦ (strtol (drop (n + length length_key) header) 10).0
]

abbrev pub finish_of : Ota.Context → List Event
finish_of i = if is_int i.size i.offset then flag_set finish ∷ disconnect ∷ [] else []

-- A packet of the body.
unfoldable pub recv_body : Context → List ℕ → Context × List Event
recv_body c packet =
    let (i, events) = upgrade_packet c.image packet in
    (record c { image = i }, events ++ finish_of i)

-- The size is known, and `rest` stands behind the header.
unfoldable pub recv_rest : Context → ℤ → List ℕ → Context × List Event
unfolding recv_body
recv_rest c size rest =
    let c' : Context = record { image = record c.image { size = size }; header = [] } in
    if length rest == 0 then (c', []) else recv_body c' rest

-- A packet that comes before the size is known. `none`: bytes before the packet are read, which
-- can be if the header was complete before.
unfoldable pub recv_header : Context → List ℕ → Option (Context × List Event)
unfolding recv_rest size_of
recv_header c packet =
    let header = c.header ++ packet in
    elim (find header_end header) [
      | none ↦ some (record c { header = header }, [])
      | some n ↦
          let size = size_of header c.image.size in
          if is_int size 0
          then some
              (record { image = record c.image { size = size }; header = header }, disconnect ∷ [])
          else if ltb (n + 4) (length c.header)
          then none
          else some (recv_rest c size (drop (n + 4 - length c.header) packet))
    ]

unfoldable pub recv_known : Context → List ℕ → Option (Context × List Event)
unfolding recv_header recv_body
recv_known c packet =
    if is_int c.image.size 0 then recv_header c packet else some (recv_body c packet)

-- `bin` is what `system_upgrade_userbin_check` returns.
unfoldable pub fota_recv : Bin → ℕ → ℕ → Option Context → List ℕ → Option (Context × List Event)
fota_recv bin ota1 ota2 none packet = recv_known (new_context bin ota1 ota2) packet
fota_recv bin ota1 ota2 (some c) packet = recv_known c packet

-- `first` and `second` are what the two calls of `system_upgrade_flag_check` return.
unfoldable pub fota_disconn : Flag → Flag → List Event
fota_disconn first second =
    (if is_finish first then upgrade_deinit ∷ reboot ∷ [] else [])
    ++ (if not (is_start second) then upgrade_deinit ∷ [] else [])
