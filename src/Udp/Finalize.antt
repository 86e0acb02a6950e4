-- ===== src/Udp/Finalize.antt =====
-- The UDP checksum that `finalize` leaves, against the pseudo headers of RFC 768 and RFC 8200.
use sendip.Base.{ℕ, ◌+◌, ◌/◌, ◌%◌, ◌^◌, ◌≤◌, ◌<◌, ◌≡◌, refl, arith}
use sendip.Base.{List, [], ◌∷◌, ◌++◌, true, false, length, length-append, All, All-append, IsByte}
use sendip.Base.{htons, bytes32, some, get_elem?, get_or, set, Bool-cases, inl, inr}
use sendip.Base.Flags.{has}
use sendip.World.{done}
use sendip.Csum.{csum}
use sendip.Csum.Sum.{IsBlock, csum_residue}
use sendip.Csum.Verify.{csum_completes}
use sendip.Headers.{ipproto_udp}
use sendip.Pseudo.{rfc_pseudo6, word_sum-pseudo6, pseudo6-IsBlock}
use sendip.Pack.{
  SendipData, Pack, ip, IpHeader, IsIp, Ip6Header, IsIp6, UdpHeader, IsUdp, udp_bytes, pseudo4,
}
use sendip.Base.{get_elem?-set_self}
use sendip.Pack.{as_ip-some, claim_protocol-marked, claim_protocol-IsIp}
use sendip.Pack.{
  claim_protocol, as_ip, outer_ip, Frame, udp_mod_check, udp_mod_len, ip_mod_protocol,
}
use sendip.Udp.{UdpData, udp_data, udpcsum, udp6csum, cleared, with_check, fill, under_ip, finalize}

-- A datagram: fields that fit, and bytes behind them, at most 2 ^ 30.
abbrev pub IsDatagram : UdpData → List ℕ → Type 0
IsDatagram d rest =
    IsUdp d.header × All IsByte d.tail × All IsByte rest × (length d.tail + length rest ≤ 2 ^ 30)

datagram-IsByte :
    (h : UdpHeader) (tail rest : List ℕ)
    → IsUdp h
    → All IsByte tail
    → All IsByte rest
    → All IsByte ((udp_bytes h ++ tail) ++ rest)
datagram-IsByte h tail rest w ht hr =
    All-append IsByte (udp_bytes h ++ tail) rest
      (All-append IsByte (udp_bytes h) tail (omega arith) ht) hr

pseudo4-IsBlock :
    (h : IpHeader) (len : ℕ) (u : UdpHeader) (tail rest : List ℕ)
    → IsIp h
    → IsUdp u
    → All IsByte tail
    → All IsByte rest
    → length tail + length rest ≤ 2 ^ 30
    → IsBlock (pseudo4 h len ++ ((udp_bytes u ++ tail) ++ rest))
pseudo4-IsBlock h len u tail rest wi wu ht hr short = (
  All-append IsByte (pseudo4 h len) ((udp_bytes u ++ tail) ++ rest) (omega arith)
      (datagram-IsByte u tail rest wu ht hr),
  omega (arith, length-append tail rest),
)

-- The checksum of udpcsum passes the check over the same pseudo header.
pub udpcsum-valid :
    (h : IpHeader) (d : UdpData) (rest : List ℕ)
    → IsIp h
    → IsDatagram d rest
    → let e = udpcsum h d rest in
      csum (pseudo4 h (length (udp_data e) + length rest) ++ (udp_data e ++ rest)) ≡ 0
unfolding udpcsum
udpcsum-valid h d rest wi (wu, ht, hr, short) =
    let len = length (udp_data d) + length rest in
    let zeroed = pseudo4 h len ++ (udp_data (cleared d) ++ rest) in
    let plain =
      pseudo4-IsBlock h len (record d.header { check = 0 }) d.tail rest wi (omega (arith, wu)) ht hr
        short in
    let r = csum_residue zeroed plain in
    csum_completes zeroed (pseudo4 h len ++ (udp_data (with_check (csum zeroed) d) ++ rest)) plain
      (pseudo4-IsBlock h len (record d.header { check = csum zeroed }) d.tail rest wi
        (omega (arith, wu, r.0)) ht hr short)
      (omega (arith, r.0))

pub fill-IsDatagram :
    (n : ℕ) (d : UdpData) (rest : List ℕ) → IsDatagram d rest → IsDatagram (fill n d) rest
unfolding fill
fill-IsDatagram n d rest (wu, ht, hr, short) = elim (Bool-cases (has d.modified udp_mod_len)) [
  | inl kept ↦ rw (kept, fill) (wu, ht, hr, short)
  | inr computed ↦ rw (computed, fill) (omega (arith, wu), ht, hr, short)
]

fill-modified : (n : ℕ) (d : UdpData) → (fill n d).modified ≡ d.modified
unfolding fill
fill-modified n d = ground arith

-- What `finalize` does under IPv4.
pub finalize-under_ip :
    (f : Frame) (hdrs : List ℕ) (headers : List Pack) (index i : ℕ) (rest : List ℕ) (d : UdpData)
    (h : SendipData IpHeader)
    → outer_ip hdrs index ≡ some i
    → get_or hdrs i 0 ≡ b'i'
    → as_ip (get_elem? headers i) ≡ some h
    → has d.modified udp_mod_check ≡ false
    → finalize f hdrs headers index rest d
      ≡ done (
        true,
        (
          set headers i (ip (claim_protocol ipproto_udp h)),
          udpcsum (claim_protocol ipproto_udp h).header (fill (length rest) d) rest,
        ),
      )
unfolding finalize under_ip
finalize-under_ip f hdrs headers index i rest d h outer is_ip cast unset =
    ground (arith, fill-modified (length rest) d)

-- What a receiver checks: the checksum over the pseudo header of the IPv4 header at `i`, the
-- datagram and its data.
abbrev pub PassesUdp4 : List Pack → ℕ → UdpData → List ℕ → Type 0
PassesUdp4 headers i d rest =
    (h : SendipData IpHeader) × (as_ip (get_elem? headers i) ≡ some h)
    × (has h.modified ip_mod_protocol ≡ true)
    × (csum (pseudo4 h.header (length (udp_data d) + length rest) ++ (udp_data d ++ rest)) ≡ 0)

-- Under a nearest IP header that is IPv4, with a checksum that the user left alone, `finalize`
-- succeeds: the IPv4 header is marked as having its protocol, and the datagram passes the check
-- over the pseudo header of the IPv4 header as it now stands. The fields fit their widths, and
-- options and data are at most 2 ^ 30 bytes.
pub finalize-PassesUdp4 :
    (f : Frame) (hdrs : List ℕ) (headers : List Pack) (index i : ℕ) (rest : List ℕ) (d : UdpData)
    (h : SendipData IpHeader)
    → outer_ip hdrs index ≡ some i
    → get_or hdrs i 0 ≡ b'i'
    → as_ip (get_elem? headers i) ≡ some h
    → IsIp h.header
    → IsDatagram d rest
    → has d.modified udp_mod_check ≡ false
    → (headers' : List Pack) × (d' : UdpData) × (finalize f hdrs headers index rest d
        ≡ done (true, (headers', d')))
      × PassesUdp4 headers' i d' rest
finalize-PassesUdp4 f hdrs headers index i rest d h outer is_ip cast wi wd unset =
    let d₁ = fill (length rest) d in
    let h' = claim_protocol ipproto_udp h in
    (
      set headers i (ip h'),
      udpcsum h'.header d₁ rest,
      finalize-under_ip f hdrs headers index i rest d h outer is_ip cast unset,
      (
        h',
        rw (get_elem?-set_self headers i (ip h') (as_ip-some (get_elem? headers i) cast)) refl,
        claim_protocol-marked ipproto_udp h,
        udpcsum-valid h'.header d₁ rest (claim_protocol-IsIp ipproto_udp h (omega arith) wi)
            (fill-IsDatagram (length rest) d rest wd),
      ),
    )

-- Under IPv6 the length is stored in the wrong half of its field, which the sum does not see: with
-- the length that `finalize` computes, the datagram passes the check over the pseudo header of
-- RFC 8200. The datagram is shorter than 2 ^ 16 bytes.
pub udp6csum-valid :
    (h : Ip6Header) (d : UdpData) (rest : List ℕ)
    → IsIp6 h
    → IsDatagram d rest
    → length (udp_data d) + length rest < 2 ^ 16
    → d.header.len ≡ htons (length (udp_data d) + length rest)
    → let e = udp6csum h d rest in
      csum (rfc_pseudo6 h (length (udp_data e) + length rest) ipproto_udp ++ (udp_data e ++ rest))
      ≡ 0
unfolding udp6csum
udp6csum-valid h d rest w (wu, ht, hr, short) small correct =
    let len = length (udp_data d) + length rest in
    let own : List ℕ = bytes32 d.header.len ++ (0 ∷ 0 ∷ 0 ∷ ipproto_udp ∷ []) in
    let rfc : List ℕ =
      len / 16777216 % 256
      ∷ len / 65536 % 256
      ∷ len / 256 % 256
      ∷ len % 256
      ∷ 0
      ∷ 0
      ∷ 0
      ∷ 17
      ∷ [] in
    let c = csum ((h.ip6_src ++ (h.ip6_dst ++ own)) ++ (udp_data (cleared d) ++ rest)) in
    let plain =
      pseudo6-IsBlock h own (udp_data (cleared d) ++ rest) w refl (omega arith)
        (datagram-IsByte (record d.header { check = 0 }) d.tail rest (omega (arith, wu)) ht hr)
        (omega (arith, length-append d.tail rest)) in
    let r =
      csum_residue ((h.ip6_src ++ (h.ip6_dst ++ own)) ++ (udp_data (cleared d) ++ rest)) plain in
    csum_completes ((h.ip6_src ++ (h.ip6_dst ++ own)) ++ (udp_data (cleared d) ++ rest))
      ((h.ip6_src ++ (h.ip6_dst ++ rfc)) ++ (udp_data (with_check c d) ++ rest)) plain
      (pseudo6-IsBlock h rfc (udp_data (with_check c d) ++ rest) w refl (omega arith)
        (datagram-IsByte (record d.header { check = c }) d.tail rest (omega (arith, wu, r.0)) ht hr)
        (omega (arith, length-append d.tail rest)))
      (omega (
        arith,
        r.0,
        word_sum-pseudo6 h own (udp_data (cleared d) ++ rest) w refl,
        word_sum-pseudo6 h rfc (udp_data (with_check c d) ++ rest) w refl,
      ))
