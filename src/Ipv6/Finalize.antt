-- ===== src/Ipv6/Finalize.antt =====
-- The IPv6 header that `finalize` leaves, and the fields of its first byte.
use sendip.Base.{ℕ, ◌+◌, ◌*◌, ◌/◌, ◌%◌, ◌^◌, ◌<◌, ◌≡◌, arith, List, true, false}
use sendip.Base.{bit_and, bit_or, htons, u8}
use sendip.Base.Bits.{bit_and-mask, bit_and_digit, bit_or-low_high, bit_or-high_low}
use sendip.Base.Flags.{has}
use sendip.Headers.{header_type}
use sendip.Pack.{Ip6Header, ip6, alloc_len, Frame, next_hdr}
use sendip.Pack.{ipv6_mod_version, ipv6_mod_plen, ipv6_mod_nxt, ipv6_mod_hlim}
use sendip.Ipv6.{Ip6Data, ip6_vfc, put_version, put_priority, fill_version, finalize}

-- The version is the high half of the first byte, the priority its low half.
abbrev pub version_of : Ip6Header → ℕ
version_of h = ip6_vfc h / 16

abbrev pub priority_of : Ip6Header → ℕ
priority_of h = ip6_vfc h % 16

bit_and-high : (v : ℕ) → v < 256 → bit_and v 240 ≡ v / 16 * 16
bit_and-high v h = omega (
  arith,
  bit_and_digit v 240,
  bit_and_digit (v / 2) 120,
  bit_and_digit (v / 2 / 2) 60,
  bit_and_digit (v / 2 / 2 / 2) 30,
  bit_and-mask (v / 2 / 2 / 2 / 2) 4,
)

-- `-6v` stores the low four bits of its value as the version and keeps the priority and the rest of
-- the first word; `-6p` stores them as the priority and keeps the version and the rest.
pub put_version-put_priority :
    (h : Ip6Header) (v : ℕ)
    → ((version_of (put_version v h) ≡ v % 16)
        × (priority_of (put_version v h) ≡ priority_of h)
        × ((put_version v h).ip6_flow / 256 ≡ h.ip6_flow / 256))
      × (priority_of (put_priority v h) ≡ v % 16)
      × (version_of (put_priority v h) ≡ version_of h)
      × ((put_priority v h).ip6_flow / 256 ≡ h.ip6_flow / 256)
unfolding put_version put_priority
put_version-put_priority h v =
    let low = bit_and-mask (ip6_vfc h) 4 in
    let new = bit_and-mask v 4 in
    let high = bit_and-high (ip6_vfc h) (omega arith) in
    let both : bit_or (bit_and (ip6_vfc h) 15) (u8 (bit_and v 15 * 2 ^ 4))
        ≡ ip6_vfc h % 16 + v % 16 * 16 =
      let sixteen : u8 (bit_and v 15 * 2 ^ 4) ≡ v % 16 * 2 ^ 4 = omega (arith, new) in
      rw (low, sixteen) (bit_or-low_high 4 (ip6_vfc h % 16) (v % 16) (omega arith)) in
    let either : bit_or (bit_and (ip6_vfc h) 240) (u8 (bit_and v 15))
        ≡ ip6_vfc h / 16 * 16 + v % 16 =
      let small : u8 (bit_and v 15) ≡ v % 16 = omega (arith, new) in
      rw (high, small) (bit_or-high_low 4 (ip6_vfc h / 16) (v % 16) (omega arith)) in
    omega (arith, both, either)

-- Where the user set none of these fields, `finalize` succeeds with version 6, the length of what
-- follows modulo 2 ^ 16 in network order, the type of the next header and a hop limit of 32. It
-- keeps the priority, the flow label and the addresses.
pub finalize-describes :
    (f : Frame) (hdrs : List ℕ) (index data_len : ℕ) (d : Ip6Data)
    → has d.modified ipv6_mod_version ≡ false
    → has d.modified ipv6_mod_plen ≡ false
    → has d.modified ipv6_mod_nxt ≡ false
    → has d.modified ipv6_mod_hlim ≡ false
    → let (ok, e) = finalize f hdrs index data_len d in
      (ok ≡ true)
      × (version_of e.header ≡ 6)
      × (priority_of e.header ≡ priority_of d.header)
      × (e.header.ip6_flow / 256 ≡ d.header.ip6_flow / 256)
      × (htons e.header.ip6_plen ≡ data_len % 2 ^ 16)
      × (e.header.ip6_nxt ≡ header_type (next_hdr f hdrs index))
      × (e.header.ip6_hlim ≡ 32)
      × (e.header.ip6_src ≡ d.header.ip6_src)
      × (e.header.ip6_dst ≡ d.header.ip6_dst)
unfolding finalize fill_version
finalize-describes f hdrs index data_len d v p n l =
    let low = bit_and-mask (ip6_vfc d.header) 4 in
    let new : bit_or (bit_and (ip6_vfc d.header) 15) (6 * 2 ^ 4)
        ≡ bit_and (ip6_vfc d.header) 15 + 6 * 16 =
      bit_or-low_high 4 (bit_and (ip6_vfc d.header) 15) 6 (omega (arith, low)) in
    ground (arith, low, new)

pub finalize-alloc_len :
    (f : Frame) (hdrs : List ℕ) (index data_len : ℕ) (d : Ip6Data)
    → alloc_len (ip6 (finalize f hdrs index data_len d).1) ≡ alloc_len (ip6 d)
unfolding finalize fill_version
finalize-alloc_len f hdrs index data_len d = ground arith
