-- ===== src/Examples/Fields.antt =====
-- Fields of headers, on concrete input.
use sendip.Base.{◌≡◌, ◌/◌, ◌%◌, ◌^◌, [], none, true}
use sendip.Base.{htons}
use sendip.Base.Flags.{has-zero}
use sendip.Libc.{codes}
use sendip.Headers.{header_type}
use sendip.Pack.{next_hdr}
use sendip.Ipv6
use sendip.Ipv6.{Ip6Data, put_version, put_priority}
use sendip.Ipv6.Finalize.{version_of, priority_of, finalize-describes}
use sendip.Frag
use sendip.Frag.{FragData, frag_setflags}
use sendip.Protoname.{Protocols}
use sendip.Examples.{frame, ip6_pack}

finalize-describes_example :
    let (ok, e) = Ipv6.finalize frame (codes "6u") 0 13 ip6_pack in
    (ok ≡ true)
    × (version_of e.header ≡ 6)
    × (priority_of e.header ≡ priority_of ip6_pack.header)
    × (e.header.ip6_flow / 256 ≡ ip6_pack.header.ip6_flow / 256)
    × (htons e.header.ip6_plen ≡ 13 % 2 ^ 16)
    × (e.header.ip6_nxt ≡ header_type (next_hdr frame (codes "6u") 0))
    × (e.header.ip6_hlim ≡ 32)
    × (e.header.ip6_src ≡ ip6_pack.header.ip6_src)
    × (e.header.ip6_dst ≡ ip6_pack.header.ip6_dst)
finalize-describes_example =
    finalize-describes frame (codes "6u") 0 13 ip6_pack (has-zero _) (has-zero _) (has-zero _)
      (has-zero _)

abbrev no_db : Protocols
no_db = record { by_name = λ s. none; by_number = λ n. none }

abbrev frag_pack : FragData
frag_pack = record {
  header = record { nexthdr = 0; reserved = 0; frag_off = 256; identification = 0 };
  tail = [];
  modified = 0;
}
