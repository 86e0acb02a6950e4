-- ===== src/Pack.antt =====
-- The packs of the modules, `sendip_data`: each has a header structure, the bytes behind it, and
-- the mask `modified`. The memory layouts are those of a little-endian machine.
mod Layout
mod Masks
pub mod Shape
pub use Masks.*
pub use Layout.*
use sendip.Base.{
  ℕ, ◌+◌, ◌/◌, ◌%◌, ◌<◌, ◌≡◌, true, arith, List, [], ◌∷◌, ◌++◌, length, Option, none, some, get_or,
}
use sendip.Base.{if◌then◌else◌, bytes32}
use sendip.Base.Flags.{has, mark, has-mark, has-mark_self}
use sendip.Headers.{outer_header}

-- `data` and `alloc_len`: the header's bytes and the `tail`, which holds options.
pub record SendipData (H : Type 0) : Type 0 where
  pub header : H
  pub tail : List ℕ
  pub modified : ℕ

pub data Pack : Type 0 where
  ip : SendipData IpHeader → Pack
  ip6 : SendipData Ip6Header → Pack
  icmp : SendipData IcmpHeader → Pack
  tcp : SendipData TcpHeader → Pack
  udp : SendipData UdpHeader → Pack
  frag : SendipData FragHeader → Pack

-- `optchar` of the module that a pack belongs to.
abbrev pub optchar : Pack → ℕ
optchar (ip d) = b'i'
optchar (ip6 d) = b'6'
optchar (icmp d) = b'c'
optchar (tcp d) = b't'
optchar (udp d) = b'u'
optchar (frag d) = b'F'

-- `pack->data`
abbrev pub pack_bytes : Pack → List ℕ
pack_bytes (ip d) = ip_bytes d.header ++ d.tail
pack_bytes (ip6 d) = ip6_bytes d.header ++ d.tail
pack_bytes (icmp d) = icmp_bytes d.header ++ d.tail
pack_bytes (tcp d) = tcp_bytes d.header ++ d.tail
pack_bytes (udp d) = udp_bytes d.header ++ d.tail
pack_bytes (frag d) = frag_bytes d.header ++ d.tail

-- `pack->alloc_len`
abbrev pub alloc_len : Pack → ℕ
alloc_len p = length (pack_bytes p)

-- `(ip_header *) headers[i]->data` and `(ipv6_header *) headers[i]->data`
abbrev pub as_ip : Option Pack → Option (SendipData IpHeader)
as_ip (some (ip d)) = some d
as_ip _ = none

pub as_ip-some : (o : Option Pack) {h : SendipData IpHeader} → as_ip o ≡ some h → o ≡ some (ip h)
as_ip-some none e = cc
as_ip-some (some (ip d)) e = cc
as_ip-some (some (ip6 d)) e = cc
as_ip-some (some (icmp d)) e = cc
as_ip-some (some (tcp d)) e = cc
as_ip-some (some (udp d)) e = cc
as_ip-some (some (frag d)) e = cc

abbrev pub as_ip6 : Option Pack → Option (SendipData Ip6Header)
as_ip6 (some (ip6 d)) = some d
as_ip6 _ = none

-- What stands in memory right before and right behind the array `hdrs` of main, which has no '\0'
-- at its end.
pub record Frame : Type 0 where
  pub before : ℕ
  pub past : ℕ

-- `hdrs[index + 1]`
abbrev pub next_hdr : Frame → List ℕ → ℕ → ℕ
next_hdr f hdrs index = get_or hdrs (index + 1) f.past

-- `if (!(modified & IP_MOD_PROTOCOL))`: an inner header stores its protocol in the IPv4 header.
abbrev pub claim_protocol : ℕ → SendipData IpHeader → SendipData IpHeader
claim_protocol p d = if has d.modified ip_mod_protocol then d else record {
  header = record d.header { protocol = p };
  tail = d.tail;
  modified = mark d.modified ip_mod_protocol;
}

pub claim_protocol-marked :
    (p : ℕ) (d : SendipData IpHeader) → has (claim_protocol p d).modified ip_mod_protocol ≡ true
claim_protocol-marked p d = ground (arith, has-mark_self d.modified 10)

pub claim_protocol-IsIp :
    (p : ℕ) (d : SendipData IpHeader) → p < 256 → IsIp d.header → IsIp (claim_protocol p d).header
claim_protocol-IsIp p d lt h = ground (arith, h)

pub claim_protocol-check :
    (p : ℕ) (d : SendipData IpHeader)
    → has (claim_protocol p d).modified ip_mod_check ≡ has d.modified ip_mod_check
claim_protocol-check p d = ground (arith, has-mark d.modified 10 11)

-- `outer_header(hdrs, index, "i6")`
abbrev pub outer_ip : List ℕ → ℕ → Option ℕ
outer_ip hdrs index = outer_header hdrs index (b'i' ∷ b'6' ∷ [])

-- The IPv6 pseudo header: `ulp_length` is a `u_int32_t`, and `nexthdr` the last byte.
abbrev pub pseudo6 : Ip6Header → ℕ → ℕ → List ℕ
pseudo6 h ulp_length nexthdr =
    h.ip6_src ++ (h.ip6_dst ++ (bytes32 ulp_length ++ (0 ∷ 0 ∷ 0 ∷ nexthdr ∷ [])))

-- The IPv4 pseudo header that udpcsum and tcpcsum build.
abbrev pub pseudo4 : IpHeader → ℕ → List ℕ
pseudo4 h len =
    bytes32 h.saddr ++ (bytes32 h.daddr ++ (0 ∷ h.protocol ∷ len / 256 % 256 ∷ len % 256 ∷ []))
