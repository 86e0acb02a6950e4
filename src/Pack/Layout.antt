-- ===== src/Pack/Layout.antt =====
-- The header structures and their bytes in memory.
use sendip.Base.{ℕ, ◌+◌, ◌*◌, ◌^◌, ◌<◌, List, ◌∷◌, ◌++◌, length, All, IsByte, ◌≡◌, bytes16, bytes32}

-- ipv4.h
pub record IpHeader : Type 0 where
  pub header_len : ℕ
  pub version : ℕ
  pub tos : ℕ
  pub tot_len : ℕ
  pub id : ℕ
  pub frag_off1 : ℕ
  pub mf : ℕ
  pub df : ℕ
  pub res : ℕ
  pub frag_off2 : ℕ
  pub ttl : ℕ
  pub protocol : ℕ
  pub check : ℕ
  pub saddr : ℕ
  pub daddr : ℕ

abbrev pub ip_bytes : IpHeader → List ℕ
ip_bytes h =
    (h.header_len + h.version * 16) ∷ h.tos ∷ bytes16 h.tot_len
    ++ (bytes16 h.id
        ++ ((h.frag_off1 + h.mf * 32 + h.df * 64 + h.res * 128)
              ∷ h.frag_off2
              ∷ h.ttl
              ∷ h.protocol
              ∷ bytes16 h.check
            ++ (bytes32 h.saddr ++ bytes32 h.daddr)))

-- The widths of the fields.
pub record IsIp (h : IpHeader) : Type 0 where
  pub header_len : h.header_len < 16
  pub version : h.version < 16
  pub tos : h.tos < 256
  pub tot_len : h.tot_len < 2 ^ 16
  pub id : h.id < 2 ^ 16
  pub frag_off1 : h.frag_off1 < 32
  pub mf : h.mf < 2
  pub df : h.df < 2
  pub res : h.res < 2
  pub frag_off2 : h.frag_off2 < 256
  pub ttl : h.ttl < 256
  pub protocol : h.protocol < 256
  pub check : h.check < 2 ^ 16
  pub saddr : h.saddr < 2 ^ 32
  pub daddr : h.daddr < 2 ^ 32

-- ipv6.h. The first four bytes are both `ip6_flow` and, for the first, `ip6_vfc`.
pub record Ip6Header : Type 0 where
  pub ip6_flow : ℕ
  pub ip6_plen : ℕ
  pub ip6_nxt : ℕ
  pub ip6_hlim : ℕ
  pub ip6_src : List ℕ
  pub ip6_dst : List ℕ

abbrev pub ip6_bytes : Ip6Header → List ℕ
ip6_bytes h =
    bytes32 h.ip6_flow ++ (bytes16 h.ip6_plen ++ (h.ip6_nxt ∷ h.ip6_hlim ∷ h.ip6_src ++ h.ip6_dst))

abbrev pub IsAddr6 : List ℕ → Type 0
IsAddr6 a = All IsByte a × (length a ≡ 16)

pub record IsIp6 (h : Ip6Header) : Type 0 where
  pub ip6_flow : h.ip6_flow < 2 ^ 32
  pub ip6_plen : h.ip6_plen < 2 ^ 16
  pub ip6_nxt : h.ip6_nxt < 256
  pub ip6_hlim : h.ip6_hlim < 256
  pub ip6_src : IsAddr6 h.ip6_src
  pub ip6_dst : IsAddr6 h.ip6_dst

-- icmp.h
pub record IcmpHeader : Type 0 where
  pub type : ℕ
  pub code : ℕ
  pub check : ℕ

abbrev pub icmp_bytes : IcmpHeader → List ℕ
icmp_bytes h = h.type ∷ h.code ∷ bytes16 h.check

pub record IsIcmp (h : IcmpHeader) : Type 0 where
  pub type : h.type < 256
  pub code : h.code < 256
  pub check : h.check < 2 ^ 16

-- tcp.h
pub record TcpHeader : Type 0 where
  pub source : ℕ
  pub dest : ℕ
  pub seq : ℕ
  pub ack_seq : ℕ
  pub res : ℕ
  pub off : ℕ
  pub fin : ℕ
  pub syn : ℕ
  pub rst : ℕ
  pub psh : ℕ
  pub ack : ℕ
  pub urg : ℕ
  pub cwr : ℕ
  pub ecn : ℕ
  pub window : ℕ
  pub check : ℕ
  pub urg_ptr : ℕ

abbrev pub tcp_flags : TcpHeader → ℕ
tcp_flags h =
    h.fin + h.syn * 2 + h.rst * 4 + h.psh * 8 + h.ack * 16 + h.urg * 32 + h.cwr * 64 + h.ecn * 128

abbrev pub tcp_bytes : TcpHeader → List ℕ
tcp_bytes h =
    bytes16 h.source
    ++ (bytes16 h.dest
        ++ (bytes32 h.seq
            ++ (bytes32 h.ack_seq
                ++ ((h.res + h.off * 16) ∷ tcp_flags h ∷ bytes16 h.window
                    ++ (bytes16 h.check ++ bytes16 h.urg_ptr)))))

pub record IsTcp (h : TcpHeader) : Type 0 where
  pub source : h.source < 2 ^ 16
  pub dest : h.dest < 2 ^ 16
  pub seq : h.seq < 2 ^ 32
  pub ack_seq : h.ack_seq < 2 ^ 32
  pub res : h.res < 16
  pub off : h.off < 16
  pub fin : h.fin < 2
  pub syn : h.syn < 2
  pub rst : h.rst < 2
  pub psh : h.psh < 2
  pub ack : h.ack < 2
  pub urg : h.urg < 2
  pub cwr : h.cwr < 2
  pub ecn : h.ecn < 2
  pub window : h.window < 2 ^ 16
  pub check : h.check < 2 ^ 16
  pub urg_ptr : h.urg_ptr < 2 ^ 16

-- udp.h
pub record UdpHeader : Type 0 where
  pub source : ℕ
  pub dest : ℕ
  pub len : ℕ
  pub check : ℕ

abbrev pub udp_bytes : UdpHeader → List ℕ
udp_bytes h = bytes16 h.source ++ (bytes16 h.dest ++ (bytes16 h.len ++ bytes16 h.check))

pub record IsUdp (h : UdpHeader) : Type 0 where
  pub source : h.source < 2 ^ 16
  pub dest : h.dest < 2 ^ 16
  pub len : h.len < 2 ^ 16
  pub check : h.check < 2 ^ 16

-- frag.h and ipv6ext.h
pub record FragHeader : Type 0 where
  pub nexthdr : ℕ
  pub reserved : ℕ
  pub frag_off : ℕ
  pub identification : ℕ

abbrev pub frag_bytes : FragHeader → List ℕ
frag_bytes h = h.nexthdr ∷ h.reserved ∷ bytes16 h.frag_off ++ bytes32 h.identification
