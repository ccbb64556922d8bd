-- ===== src/Ota/Request.antt =====
-- The request that starts an upgrade: `ota_udp_recv` and `ota_tcp_init` of esp8266/app/ota.c, and
-- the partition table of esp8266/init.c.
use esp8266_xcode.Base.{
  ℕ, ◌≤◌, List, [], ◌∷◌, ◌++◌, Option, none, some, ◌≡◌, ◌≢◌, refl, arith, All, All-append,
}
use esp8266_xcode.Base.Int.{ℤ, IsLong}
use esp8266_xcode.Lost.Text.{c_str, strsep, strdup}
use esp8266_xcode.Lost.Text.Laws.{IsFree, IsText, strsep-append, strsep_last, c_str_of_text}
use esp8266_xcode.Lost.Number.{strtol}
use esp8266_xcode.Lost.Number.Laws.{print_int, strtol-print_int, print_int_range}
use esp8266_xcode.Ota.{Context, init_context, Event, sent, ok_text}

-- The firmware that runs, as `system_upgrade_userbin_check` tells it.
pub data Userbin : Type 0 where
  fw_bin1 fw_bin2 : Userbin

pub data Partition : Type 0 where
  bootloader ota_1 ota_2 rf_cal phy_data system_parameter : Partition

-- `at_partition_table`: the address and the size of each partition.
unfoldable pub partition_table : Partition → ℕ × ℕ
partition_table bootloader = (0x000000, 0x01000)
partition_table ota_1 = (0x001000, 0xff000)
partition_table ota_2 = (0x101000, 0xff000)
partition_table rf_cal = (0x3fb000, 0x01000)
partition_table phy_data = (0x3fc000, 0x01000)
partition_table system_parameter = (0x3fd000, 0x03000)

-- The address in `partition_item` behind the two tests.
unfoldable pub other_partition : Userbin → ℕ
unfolding partition_table
other_partition fw_bin1 = (partition_table ota_2).0
other_partition fw_bin2 = (partition_table ota_1).0

-- The connection that `ota_tcp_init` opens.
pub record Connection : Type 0 where
  pub remote_ip : List ℕ
  pub remote_port : ℤ
  pub context : Context

unfoldable pub ota_tcp_init : Userbin → List ℕ → ℤ → ℤ → Connection
unfolding other_partition
ota_tcp_init bin ip port size = record {
  remote_ip = ip;
  remote_port = port;
  context = init_context (other_partition bin) size;
}

-- What a datagram leads to, and the pointer that `os_free` is given: the memory from it on.
pub record Reply : Type 0 where
  pub events : List Event
  pub connection : Option Connection
  pub freed : Option (List ℕ)

abbrev space : List ℕ
space = b' ' ∷ []

-- The test of the four tokens, with the call of `espconn_get_connection_info`.
answer :
    Userbin
    → Option (List ℕ)
    → Option (List ℕ)
    → Option (List ℕ)
    → Option (List ℕ)
    → Option (List ℕ)
    → Option (List ℕ)
    → Reply
answer bin (some ip) (some command) (some port) (some size) (some md5) buffer = record {
  events = sent ok_text ∷ [];
  connection = some (ota_tcp_init bin ip (strtol port 10).0 (strtol size 10).0);
  freed = buffer;
}
answer bin ip command port size md5 buffer = record {
  events = [];
  connection = none;
  freed = buffer;
}

-- `info` is the remote address, if `espconn_get_connection_info` returns 0.
unfoldable pub ota_udp_recv : Userbin → Option (List ℕ) → List ℕ → Reply
unfolding answer
ota_udp_recv bin info packet =
    let (command, b1) = strsep (some (strdup packet)) space in
    let (port, b2) = strsep b1 space in
    let (size, b3) = strsep b2 space in
    let (md5, b4) = strsep b3 space in answer bin info command port size md5 b4

in_range-IsFree : (t : List ℕ) → All (λ c. (b'-' ≤ c) × (c ≤ b'9')) t → All (IsFree space) t
in_range-IsFree [] h = tt
in_range-IsFree (c ∷ t) h = (
  (λ e. absurd (omega arith), unfold c_str in (λ e. absurd (omega arith), tt)),
  in_range-IsFree t h.1,
)

space_ends :
    (t r : List ℕ)
    → All (IsFree space) t
    → strsep (some (t ++ (b' ' ∷ r))) space ≡ (some (t ++ (0 ∷ r)), some r)
space_ends t r h =
    strsep-append t b' ' r space h (λ e. absurd (omega arith)) (unfold c_str in λ h. h.0 refl)

Free-IsText : (t : List ℕ) → All (IsFree space) t → IsText t
Free-IsText [] h = tt
Free-IsText (b ∷ t) h = (h.0.0, Free-IsText t h.1)

-- A datagram with a command, a port, a size and a checksum.
pub request : List ℕ → ℤ → ℤ → List ℕ → List ℕ
request command port size md5 =
    command ++ (b' ' ∷ (print_int port ++ (b' ' ∷ (print_int size ++ (b' ' ∷ md5)))))

request-IsText :
    (command : List ℕ) (port size : ℤ) (md5 : List ℕ)
    → All (IsFree space) command
    → All (IsFree space) md5
    → IsText (request command port size md5)
unfolding request
request-IsText command port size md5 h k =
    All-append _ command _ (Free-IsText command h) (blank, tail)
  where
    blank : ◌≢◌ {A = ℕ} b' ' 0
    blank = omega arith

    number : (z : ℤ) → IsText (print_int z)
    number z = Free-IsText (print_int z) (in_range-IsFree (print_int z) (print_int_range z))

    tail : IsText (print_int port ++ (b' ' ∷ (print_int size ++ (b' ' ∷ md5))))
    tail =
        All-append _ (print_int port) _ (number port)
          (blank, All-append _ (print_int size) _ (number size) (blank, Free-IsText md5 k))

-- A request from a known address, whose command and checksum hold no space and no NUL and whose
-- checksum is not empty, and whose port and size lie between -(2 ^ 31) and 2 ^ 31, both
-- excluded, is answered and opens one connection, to that address at the port of the request,
-- with a context for its size. What is freed is not the start of the copy that was allocated but
-- its end, where strsep has moved the pointer.
pub ota_udp_recv-request :
    (bin : Userbin) (ip command : List ℕ) (port size : ℤ) (md5 : List ℕ)
    → All (IsFree space) command
    → All (IsFree space) md5
    → md5 ≢ []
    → IsLong port
    → IsLong size
    → ota_udp_recv bin (some ip) (request command port size md5) ≡ record {
      events = sent ok_text ∷ [];
      connection = some (ota_tcp_init bin ip port size);
      freed = some [];
    }
unfolding ota_udp_recv request strdup
ota_udp_recv-request bin ip command port size md5 h k ne hp hs =
    let number : (z : ℤ) → All (IsFree space) (print_int z) =
      λ z. in_range-IsFree (print_int z) (print_int_range z) in
    rw (
      ota_udp_recv,
      c_str_of_text _ (unfold request in request-IsText command port size md5 h k),
      space_ends command _ h,
      space_ends (print_int port) _ (number port),
      space_ends (print_int size) _ (number size),
      strsep_last md5 space ne k,
      answer,
      strtol-print_int port (0 ∷ (print_int size ++ (b' ' ∷ md5))) hp (omega arith),
      strtol-print_int size (0 ∷ md5) hs (omega arith),
    )
