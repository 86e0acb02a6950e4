-- ===== src/Icmp/Finalize.antt =====
-- icmp.c: the checksum that `finalize` leaves.
use sendip.Base.{ℕ, ◌+◌, ◌/◌, ◌%◌, ◌^◌, ◌≤◌, ◌<◌, ◌≡◌, refl, arith}
use sendip.Base.{List, [], ◌∷◌, ◌++◌, true, false, length, length-append, All, All-append, IsByte}
use sendip.Base.{u32, htonl, bytes32, some, get_elem?, get_or, set, Bool-cases, inl, inr, ◌⊎◌}
use sendip.Base.Flags.{has}
use sendip.World.{done}
use sendip.Csum.{csum}
use sendip.Csum.Sum.{IsBlock, csum_residue}
use sendip.Csum.Verify.{csum_completes}
use sendip.Headers.{ipproto_icmp, ipproto_icmpv6}
use sendip.Pseudo.{rfc_pseudo6, word_sum-pseudo6, pseudo6-IsBlock}
use sendip.Pack.{SendipData, Pack, ip, IpHeader, Ip6Header, IsIp6, IcmpHeader, IsIcmp, icmp_bytes}
use sendip.Pack.{as_ip, as_ip6, outer_ip, claim_protocol, icmp_mod_type, icmp_mod_check}
use sendip.Icmp.{
  IcmpData, icmp_data, icmpcsum, icmp6csum, cleared, with_check, fill, under_ip, under_ip6,
}
use sendip.Icmp.{icmp6_echo_request, icmp_echo, finalize}

-- A message: fields that fit, and bytes behind them, at most 2 ^ 30.
abbrev pub IsMessage : IcmpData → List ℕ → Type 0
IsMessage d rest =
    IsIcmp d.header × All IsByte d.tail × All IsByte rest × (length d.tail + length rest ≤ 2 ^ 30)

message-IsByte :
    (h : IcmpHeader) (tail rest : List ℕ)
    → IsIcmp h
    → All IsByte tail
    → All IsByte rest
    → All IsByte ((icmp_bytes h ++ tail) ++ rest)
message-IsByte h tail rest w ht hr =
    All-append IsByte (icmp_bytes h ++ tail) rest
      (All-append IsByte (icmp_bytes h) tail (omega arith) ht) hr

message-IsBlock :
    (h : IcmpHeader) (tail rest : List ℕ)
    → IsIcmp h
    → All IsByte tail
    → All IsByte rest
    → length tail + length rest ≤ 2 ^ 30
    → IsBlock ((icmp_bytes h ++ tail) ++ rest)
message-IsBlock h tail rest w ht hr short =
    (message-IsByte h tail rest w ht hr, omega (arith, length-append tail rest))

icmpcsum-valid :
    (d : IcmpData) (rest : List ℕ)
    → IsMessage d rest
    → csum (icmp_data (icmpcsum d rest) ++ rest) ≡ 0
unfolding icmpcsum
icmpcsum-valid d rest (w, ht, hr, short) =
    let zeroed = icmp_data (cleared d) ++ rest in
    let plain =
      message-IsBlock (record d.header { check = 0 }) d.tail rest (omega (arith, w)) ht hr short in
    let r = csum_residue zeroed plain in
    csum_completes zeroed (icmp_data (with_check (csum zeroed) d) ++ rest) plain
      (message-IsBlock (record d.header { check = csum zeroed }) d.tail rest (omega (arith, w, r.0))
        ht hr short)
      (omega (arith, r.0))

icmp6csum-valid :
    (h : Ip6Header) (d : IcmpData) (rest : List ℕ)
    → IsIp6 h
    → IsMessage d rest
    → let e = icmp6csum h d rest in
      csum
        (rfc_pseudo6 h (length (icmp_data e) + length rest) ipproto_icmpv6 ++ (icmp_data e ++ rest))
      ≡ 0
unfolding icmp6csum
icmp6csum-valid h d rest w (wm, ht, hr, short) =
    let len = length (icmp_data d) + length rest in
    let own : List ℕ = bytes32 (htonl (u32 len)) ++ (0 ∷ 0 ∷ 0 ∷ ipproto_icmpv6 ∷ []) in
    let rfc : List ℕ =
      len / 16777216 % 256
      ∷ len / 65536 % 256
      ∷ len / 256 % 256
      ∷ len % 256
      ∷ 0
      ∷ 0
      ∷ 0
      ∷ 58
      ∷ [] in
    let c = csum ((h.ip6_src ++ (h.ip6_dst ++ own)) ++ (icmp_data (cleared d) ++ rest)) in
    let plain =
      pseudo6-IsBlock h own (icmp_data (cleared d) ++ rest) w refl (omega arith)
        (message-IsByte (record d.header { check = 0 }) d.tail rest (omega (arith, wm)) ht hr)
        (omega (arith, length-append d.tail rest)) in
    let r =
      csum_residue ((h.ip6_src ++ (h.ip6_dst ++ own)) ++ (icmp_data (cleared d) ++ rest)) plain in
    csum_completes ((h.ip6_src ++ (h.ip6_dst ++ own)) ++ (icmp_data (cleared d) ++ rest))
      ((h.ip6_src ++ (h.ip6_dst ++ rfc)) ++ (icmp_data (with_check c d) ++ rest)) plain
      (pseudo6-IsBlock h rfc (icmp_data (with_check c d) ++ rest) w refl (omega arith)
        (message-IsByte (record d.header { check = c }) d.tail rest (omega (arith, wm, r.0)) ht hr)
        (omega (arith, length-append d.tail rest)))
      (omega (
        arith,
        r.0,
        word_sum-pseudo6 h own (icmp_data (cleared d) ++ rest) w refl,
        word_sum-pseudo6 h rfc (icmp_data (with_check c d) ++ rest) w refl,
      ))

fill-IsMessage :
    (request : ℕ) (d : IcmpData) (rest : List ℕ)
    → request < 256
    → IsMessage d rest
    → IsMessage (fill request d) rest
unfolding fill
fill-IsMessage request d rest lt (w, ht, hr, short) =
    elim (Bool-cases (has d.modified icmp_mod_type)) [
      | inl kept ↦ rw (kept, fill) (w, ht, hr, short)
      | inr default ↦ rw (default, fill) (omega (arith, w), ht, hr, short)
    ]

-- Under a nearest IP header that is IPv6, with a checksum that the user left alone, `finalize`
-- succeeds, leaves the headers as they are, makes the message an echo request unless the user set
-- the type, and the message passes the check over the pseudo header of RFC 8200. The fields fit
-- their widths, and the data is at most 2 ^ 30 bytes.
pub finalize-PassesIcmp6 :
    (hdrs : List ℕ) (headers : List Pack) (index i : ℕ) (rest : List ℕ) (d : IcmpData)
    (h : SendipData Ip6Header)
    → outer_ip hdrs index ≡ some i
    → get_or hdrs i 0 ≡ b'6'
    → as_ip6 (get_elem? headers i) ≡ some h
    → IsIp6 h.header
    → IsMessage d rest
    → has d.modified icmp_mod_check ≡ false
    → (e : IcmpData) × (finalize hdrs headers index rest d ≡ done (true, (headers, e)))
      × ((has d.modified icmp_mod_type ≡ true) ⊎ (e.header.type ≡ icmp6_echo_request))
      × (csum (
            rfc_pseudo6 h.header (length (icmp_data e) + length rest) ipproto_icmpv6
            ++ (icmp_data e ++ rest))
          ≡ 0)
unfolding finalize under_ip6 fill icmp6csum
finalize-PassesIcmp6 hdrs headers index i rest d h outer is_ip6 cast w wm unset = (
  icmp6csum h.header (fill icmp6_echo_request d) rest,
  ground arith,
  ground (arith, Bool-cases (has d.modified icmp_mod_type)),
  icmp6csum-valid h.header (fill icmp6_echo_request d) rest w
      (fill-IsMessage icmp6_echo_request d rest (omega arith) wm),
)

-- Under a nearest IP header that is IPv4, `finalize` stores protocol 1 there unless that header
-- has one, and the message passes the check of RFC 792, under the same conditions.
pub finalize-PassesIcmp4 :
    (hdrs : List ℕ) (headers : List Pack) (index i : ℕ) (rest : List ℕ) (d : IcmpData)
    (h : SendipData IpHeader)
    → outer_ip hdrs index ≡ some i
    → get_or hdrs i 0 ≡ b'i'
    → as_ip (get_elem? headers i) ≡ some h
    → IsMessage d rest
    → has d.modified icmp_mod_check ≡ false
    → (e : IcmpData) × (finalize hdrs headers index rest d
        ≡ done (true, (set headers i (ip (claim_protocol ipproto_icmp h)), e)))
      × ((has d.modified icmp_mod_type ≡ true) ⊎ (e.header.type ≡ icmp_echo))
      × (csum (icmp_data e ++ rest) ≡ 0)
unfolding finalize under_ip fill icmpcsum
finalize-PassesIcmp4 hdrs headers index i rest d h outer is_ip cast wm unset = (
  icmpcsum (fill icmp_echo d) rest,
  ground arith,
  ground (arith, Bool-cases (has d.modified icmp_mod_type)),
  icmpcsum-valid (fill icmp_echo d) rest (fill-IsMessage icmp_echo d rest (omega arith) wm),
)
