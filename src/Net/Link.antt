-- ===== src/Net/Link.antt =====
-- LinkIP and IsLinkAddress of net/v1alpha1/linkip.go, and InterconnectSlotAddress of
-- net/v1alpha1/interconnectaddr.go. An error is `none`: each function has one kind.
pub mod Distinct
use apis.Prelude.{
  ℕ, ◌+◌, ◌-◌, ◌*◌, ◌%◌, ℤ, pos, negsuc, Bool, true, false, ◌&&◌, ◌||◌, Option, none, some,
  if◌then◌else◌, ltb_ℤ, leb_ℤ, leb, ◌==◌,
}

-- netip.Addr of four bytes.
pub record Ipv4 : Type 0 where
  pub b0 : ℕ
  pub b1 : ℕ
  pub b2 : ℕ
  pub b3 : ℕ

-- netip.Addr: IPv4, IPv4 mapped into IPv6, and any other.
pub data Addr : Type 0 where
  ip4 mapped : Ipv4 → Addr
  ip6 : Addr

abbrev pub max_link_node_index : ℕ
max_link_node_index = 61

abbrev pub max_port_ordinal : ℕ
max_port_ordinal = 7

abbrev pub low_half_max_index : ℕ
low_half_max_index = 30

abbrev pub ports_per_node : ℕ
ports_per_node = max_port_ordinal + 1

-- Go's conversion byte(n).
abbrev pub byte : ℕ → ℕ
byte n = n % 256

abbrev pub reserved : ℕ → ℕ → Ipv4
reserved half host = record { b0 = 169; b1 = 254; b2 = half; b3 = host }

-- LinkIP
unfoldable pub link_ip : ℤ → ℤ → Option Ipv4
link_ip idx (negsuc _) = none
link_ip (negsuc _) (pos p) = none
link_ip (pos i) (pos p) =
    if leb p max_port_ordinal
    then (if leb i low_half_max_index
        then some (reserved 0 (byte (ports_per_node * i + p + 1)))
        else if leb i max_link_node_index
        then some (reserved 255 (byte (ports_per_node * (i - low_half_max_index - 1) + p + 1)))
        else none)
    else none

-- IsLinkAddress
unfoldable pub is_link_address : Addr → Bool
is_link_address ip6 = false
is_link_address (ip4 a) = a.b0 == 169 && a.b1 == 254 && (a.b2 == 0 || a.b2 == 255)
is_link_address (mapped a) = a.b0 == 169 && a.b1 == 254 && (a.b2 == 0 || a.b2 == 255)

abbrev pub max_interconnect_node_index : ℕ
max_interconnect_node_index = 30

abbrev pub max_interconnect_slot : ℕ
max_interconnect_slot = 7

abbrev pub interconnect_slots_per_node : ℕ
interconnect_slots_per_node = max_interconnect_slot + 1

-- InterconnectSlotAddress
unfoldable pub interconnect_slot_address : ℤ → ℤ → Option Ipv4
interconnect_slot_address (negsuc _) slot = none
interconnect_slot_address (pos i) (negsuc _) = none
interconnect_slot_address (pos i) (pos s) =
    if leb i max_interconnect_node_index
    then (if leb s max_interconnect_slot
        then some (reserved 0 (byte (interconnect_slots_per_node * i + s + 1)))
        else none)
    else none
