-- ===== src/Examples/Packets.antt =====
-- Packets of two modules, on concrete input.
use sendip.Base.{ℕ, ◌+◌, ◌≤◌, ◌≡◌, ◌≢◌, ◌⊎◌, ◌^◌, refl, arith, List, [], ◌∷◌, ◌++◌, true}
use sendip.Base.{length, htons}
use sendip.Base.Flags.{has, mark, has-zero, has-mark_self}
use sendip.World.{World, done}
use sendip.Libc.{codes, has_char}
use sendip.Csum.{csum}
use sendip.Headers.{outer_header, header_type, ipproto_udp, ipproto_tcp, ipproto_icmpv6}
use sendip.Pack.{Pack, ip, ip6, icmp, tcp, udp}
use sendip.Pack.{ip_mod_protocol}
use sendip.Pack.Shape.{SameShape}
use sendip.Pseudo.{rfc_pseudo6}
use sendip.Ipv4
use sendip.Ipv4.{IpData, ip_data, finish}
use sendip.Ipv4.Finalize.{finish-valid, finish-invalid}
use sendip.Icmp
use sendip.Icmp.{IcmpData, icmp_data, icmp_echo, icmp6_echo_request}
use sendip.Icmp.Finalize.{finalize-PassesIcmp6}
use sendip.Tcp
use sendip.Tcp.{tcp_data, tcp6csum}
use sendip.Tcp.Options.{TcpData}
use sendip.Tcp.Finalize.{finalize-PassesTcp4, PassesTcp4, tcp6csum-invalid}
use sendip.Udp
use sendip.Udp.{UdpData, udp_data, udp6csum}
use sendip.Udp.Finalize.{finalize-PassesUdp4, PassesUdp4, udp6csum-valid}
use sendip.Main.{finalize_all, packet_bytes}
use sendip.Main.Length.{finalize_all-in_place}
use sendip.Main.Packet.{finalize_all-valid}
use sendip.Examples.{idle, frame, ip6_pack, tcp_pack}
use sendip.Base.Flags.{has-mark}
use sendip.Pack.{IsIp6}
use sendip.Tcp.{do_opt, flag_opt}

abbrev ip_pack : IpData
ip_pack = Ipv4.initialize

zero_header-IsIp6 : IsIp6 ip6_pack.header
zero_header-IsIp6 = omega arith

abbrev udp_pack : UdpData
udp_pack = record {
  header = record { source = 80; dest = 81; len = 0; check = 0 };
  tail = [];
  modified = 0;
}

abbrev hello : List ℕ
hello = codes "hello"

finalize_all-valid_example :
    (d' : IpData) × (u' : UdpData) × (w' : World) × (finalize_all frame
        (ip ip_pack ∷ udp udp_pack ∷ [])
        hello
        idle
      ≡ done (ip d' ∷ udp u' ∷ [], w'))
    × (csum (ip_data d') ≡ 0)
    × PassesUdp4 (ip d' ∷ udp u' ∷ []) 0 u' hello
finalize_all-valid_example =
    finalize_all-valid frame ip_pack udp_pack hello idle (omega arith, omega arith, omega arith)
      (omega arith, omega arith, omega arith, omega arith) (has-zero _) (has-zero _)

finalize_all-in_place_example :
    (packs' : List Pack) × (w' : World) × (finalize_all frame
        (ip ip_pack ∷ udp udp_pack ∷ [])
        hello
        idle
      ≡ done (packs', w'))
    × SameShape (ip ip_pack ∷ udp udp_pack ∷ []) packs'
    × (length (packet_bytes packs' hello)
        ≡ length (packet_bytes (ip ip_pack ∷ udp udp_pack ∷ []) hello))
finalize_all-in_place_example =
    finalize_all-in_place frame (ip ip_pack ∷ udp udp_pack ∷ []) hello idle (omega arith)
      (omega arith)

finalize-PassesUdp4_example :
    (headers' : List Pack) × (d' : UdpData) × (Udp.finalize frame
        (codes "iu")
        (ip ip_pack ∷ udp udp_pack ∷ [])
        1
        hello
        udp_pack
      ≡ done (true, (headers', d')))
    × PassesUdp4 headers' 0 d' hello
unfolding outer_header has_char
finalize-PassesUdp4_example =
    finalize-PassesUdp4 frame (codes "iu") (ip ip_pack ∷ udp udp_pack ∷ []) 1 0 hello udp_pack
      ip_pack refl refl refl (omega arith) (omega arith, omega arith, omega arith, omega arith)
      (has-zero _)

finalize-PassesTcp4_example :
    (headers' : List Pack) × (d' : TcpData) × (w' : World) × (Tcp.finalize frame
        (codes "it")
        (ip ip_pack ∷ tcp tcp_pack ∷ [])
        1
        hello
        tcp_pack
        idle
      ≡ done ((true, (headers', d')), w'))
    × (w'.drawn ≤ idle.drawn + 1)
    × PassesTcp4 headers' 0 d' hello
unfolding outer_header has_char
finalize-PassesTcp4_example =
    finalize-PassesTcp4 frame (codes "it") (ip ip_pack ∷ tcp tcp_pack ∷ []) 1 0 hello tcp_pack
      ip_pack idle refl refl refl (omega arith) (omega arith, omega arith, omega arith, omega arith)
      (has-zero _)

abbrev icmp_pack : IcmpData
icmp_pack = Icmp.initialize

finalize-PassesIcmp6_example :
    (e : IcmpData) × (Icmp.finalize
        (codes "6c")
        (ip6 ip6_pack ∷ icmp icmp_pack ∷ [])
        1
        hello
        icmp_pack
      ≡ done (true, (ip6 ip6_pack ∷ icmp icmp_pack ∷ [], e)))
    × ((has icmp_pack.modified 1 ≡ true) ⊎ (e.header.type ≡ icmp6_echo_request))
    × (csum (
          rfc_pseudo6 ip6_pack.header (length (icmp_data e) + length hello) ipproto_icmpv6
          ++ (icmp_data e ++ hello))
        ≡ 0)
unfolding outer_header has_char
finalize-PassesIcmp6_example =
    finalize-PassesIcmp6 (codes "6c") (ip6 ip6_pack ∷ icmp icmp_pack ∷ []) 1 0 hello icmp_pack
      ip6_pack refl refl refl zero_header-IsIp6 (omega arith, omega arith, omega arith, omega arith)
      (has-zero _)

abbrev claimed : IpData
claimed = record {
  header = record Ipv4.zeroed { protocol = 17 };
  tail = [];
  modified = mark 0 ip_mod_protocol;
}

finish-valid_example : csum (ip_data (finish b'u' 13 7 claimed)) ≡ 0
finish-valid_example =
    finish-valid b'u' 13 7 claimed (omega arith, omega arith, omega arith)
      (ground (arith, has-mark 0 10 11, has-zero (2 ^ 11))) (has-mark_self 0 10)

finish-invalid_example : csum (ip_data (finish b'F' 13 7 ip_pack)) ≢ 0
unfolding header_type
finish-invalid_example =
    finish-invalid b'F' 13 7 ip_pack (omega arith, omega arith, omega arith) refl (has-zero _)
      (has-zero _) (omega arith)

tcp6csum-invalid_example :
    csum (
      rfc_pseudo6 ip6_pack.header
        (length (tcp_data (tcp6csum ip6_pack.header tcp_pack hello)) + length hello)
        ipproto_tcp
      ++ (tcp_data (tcp6csum ip6_pack.header tcp_pack hello) ++ hello))
    ≢ 0
tcp6csum-invalid_example =
    tcp6csum-invalid ip6_pack.header tcp_pack hello zero_header-IsIp6
      (omega arith, omega arith, omega arith, omega arith) (omega arith) (omega arith)

abbrev udp6_pack : UdpData
udp6_pack = record {
  header = record { source = 80; dest = 81; len = htons 13; check = 0 };
  tail = [];
  modified = 0;
}

udp6csum-valid_example :
    csum (
      rfc_pseudo6 ip6_pack.header
        (length (udp_data (udp6csum ip6_pack.header udp6_pack hello)) + length hello)
        ipproto_udp
      ++ (udp_data (udp6csum ip6_pack.header udp6_pack hello) ++ hello))
    ≡ 0
udp6csum-valid_example =
    udp6csum-valid ip6_pack.header udp6_pack hello zero_header-IsIp6
      (omega arith, omega arith, omega arith, omega arith) (omega arith) refl
