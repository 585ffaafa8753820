-- ===== src/Net/Link/Distinct.antt =====
-- The derived addresses of net/v1alpha1 are distinct, in range, and agree where both are defined.
use apis.Prelude.{
  ℕ, ◌+◌, ◌-◌, ◌*◌, ◌≤◌, ◌<◌, ◌≡◌, refl, ap, ℤ, pos, negsuc, true, ◌&&◌, Option, none, some,
  if◌then◌else◌, leb_ℤ, leb, arith, is_some, Bool-cases, inl, inr,
}
use apis.Net.Link.{
  Ipv4, ip4, link_ip, is_link_address, interconnect_slot_address, max_link_node_index,
  max_port_ordinal, low_half_max_index, reserved, byte, ports_per_node,
}

-- What a pair of numbers that has an address looks like.
half_of : ℕ → ℕ
half_of i = if leb i low_half_max_index then 0 else 255

index_in : ℕ → ℕ
index_in i = if leb i low_half_max_index then i else i - low_half_max_index - 1

link_ip-pos :
    (i p : ℕ) {a : Ipv4}
    → link_ip (pos i) (pos p) ≡ some a
    → (i ≤ max_link_node_index)
      × (p ≤ max_port_ordinal)
      × (a.b0 ≡ 169)
      × (a.b1 ≡ 254)
      × (a.b2 ≡ half_of i)
      × (a.b3 ≡ ports_per_node * index_in i + p + 1)
unfolding link_ip half_of index_in
link_ip-pos i p {a} h = elim (Bool-cases (leb p max_port_ordinal)) [
  | inr bad ↦ absurd (ground arith)
  | inl port ↦ elim (Bool-cases (leb i low_half_max_index)) [
    | inl low ↦
        let p_max : p ≤ max_port_ordinal = ground arith in
        let i_max : i ≤ low_half_max_index = ground arith in
        let same : ◌≡◌ {A = Option Ipv4} (some (reserved 0 (byte (ports_per_node * i + p + 1))))
            (some a) =
          rw (port, low, link_ip) at h in
        let b : reserved 0 (byte (ports_per_node * i + p + 1)) ≡ a = cc in
        rw (← b, low) (omega arith, omega arith, refl, refl, refl, omega arith)
    | inr high ↦ elim (Bool-cases (leb i max_link_node_index)) [
      | inr bad ↦ absurd (ground arith)
      | inl index ↦
          let p_max : p ≤ max_port_ordinal = ground arith in
          let i_max : i ≤ max_link_node_index = ground arith in
          let i_min : low_half_max_index < i = ground arith in
          let same : ◌≡◌ {A = Option Ipv4}
              (some (reserved 255 (byte (ports_per_node * (i - low_half_max_index - 1) + p + 1))))
              (some a) =
            rw (port, high, index, link_ip) at h in
          let b : reserved 255 (byte (ports_per_node * (i - low_half_max_index - 1) + p + 1)) ≡ a =
            cc in
          rw (← b, high) (omega arith, omega arith, refl, refl, refl, omega arith)
    ]
  ]
]

-- LinkIP gives distinct pairs of a node index and a port distinct addresses.
pub link_ip_injective :
    (i p j q : ℤ) {a : Ipv4} → link_ip i p ≡ some a → link_ip j q ≡ some a → (i ≡ j) × (p ≡ q)
unfolding link_ip half_of index_in
link_ip_injective i (negsuc _) j q h k = absurd (cc)
link_ip_injective (negsuc _) (pos p) j q h k = absurd (cc)
link_ip_injective (pos i) (pos p) j (negsuc _) h k = absurd (cc)
link_ip_injective (pos i) (pos p) (negsuc _) (pos q) h k = absurd (cc)
link_ip_injective (pos i) (pos p) (pos j) (pos q) h k =
    let x = link_ip-pos i p h in
    let y = link_ip-pos j q k in
    let host : i ≡ j = ground (arith, x, y) in (ap pos host, ap pos (ground (arith, x, y, host)))

-- An address that LinkIP answers is a link address, and its last byte is from 1 to 248: it is neither
-- the network's nor the broadcast address.
pub link_ip-is_link_address :
    (i p : ℤ) {a : Ipv4}
    → link_ip i p ≡ some a
    → (is_link_address (ip4 a) ≡ true) × (1 ≤ a.b3) × (a.b3 ≤ 248)
unfolding link_ip is_link_address half_of index_in
link_ip-is_link_address i (negsuc _) h = absurd (cc)
link_ip-is_link_address (negsuc _) (pos p) h = absurd (cc)
link_ip-is_link_address (pos i) (pos p) {a} h = let x = link_ip-pos i p h in ground (arith, x)

-- LinkIP has an address exactly for the indexes 0 to 61 and the ports 0 to 7.
pub is_some-link_ip :
    (i p : ℤ)
    → is_some (link_ip i p) ≡ (
        leb_ℤ (pos 0) i
        && leb_ℤ i (pos max_link_node_index)
        && (leb_ℤ (pos 0) p && leb_ℤ p (pos max_port_ordinal)))
unfolding link_ip
is_some-link_ip i p = ground arith

-- The interconnect's addresses are LinkIP's up to index 30, and there are none above.
pub interconnect_slot_address-link_ip :
    (i slot : ℤ)
    → interconnect_slot_address i slot
      ≡ (if leb_ℤ i (pos low_half_max_index) then link_ip i slot else none)
unfolding link_ip interconnect_slot_address
interconnect_slot_address-link_ip i slot = ground arith
