-- ===== src/Pack/Masks.antt =====
-- The bits of `modified`: ipv4.h, ipv6.h, icmp.h, tcp.h, udp.h and frag.h.
use sendip.Base.{ℕ, ◌^◌}

abbrev pub ip_mod_headerlen : ℕ
ip_mod_headerlen = 2 ^ 0

abbrev pub ip_mod_version : ℕ
ip_mod_version = 2 ^ 1

abbrev pub ip_mod_tos : ℕ
ip_mod_tos = 2 ^ 2

abbrev pub ip_mod_totlen : ℕ
ip_mod_totlen = 2 ^ 3

abbrev pub ip_mod_id : ℕ
ip_mod_id = 2 ^ 4

abbrev pub ip_mod_res : ℕ
ip_mod_res = 2 ^ 5

abbrev pub ip_mod_df : ℕ
ip_mod_df = 2 ^ 6

abbrev pub ip_mod_mf : ℕ
ip_mod_mf = 2 ^ 7

abbrev pub ip_mod_fragoff : ℕ
ip_mod_fragoff = 2 ^ 8

abbrev pub ip_mod_ttl : ℕ
ip_mod_ttl = 2 ^ 9

abbrev pub ip_mod_protocol : ℕ
ip_mod_protocol = 2 ^ 10

abbrev pub ip_mod_check : ℕ
ip_mod_check = 2 ^ 11

abbrev pub ip_mod_saddr : ℕ
ip_mod_saddr = 2 ^ 12

abbrev pub ip_mod_daddr : ℕ
ip_mod_daddr = 2 ^ 13

abbrev pub ipv6_mod_flow : ℕ
ipv6_mod_flow = 2 ^ 0

abbrev pub ipv6_mod_version : ℕ
ipv6_mod_version = 2 ^ 1

abbrev pub ipv6_mod_priority : ℕ
ipv6_mod_priority = 2 ^ 2

abbrev pub ipv6_mod_plen : ℕ
ipv6_mod_plen = 2 ^ 3

abbrev pub ipv6_mod_hlim : ℕ
ipv6_mod_hlim = 2 ^ 4

abbrev pub ipv6_mod_nxt : ℕ
ipv6_mod_nxt = 2 ^ 5

abbrev pub ipv6_mod_src : ℕ
ipv6_mod_src = 2 ^ 6

abbrev pub ipv6_mod_dst : ℕ
ipv6_mod_dst = 2 ^ 7

abbrev pub icmp_mod_type : ℕ
icmp_mod_type = 2 ^ 0

abbrev pub icmp_mod_code : ℕ
icmp_mod_code = 2 ^ 1

abbrev pub icmp_mod_check : ℕ
icmp_mod_check = 2 ^ 2

abbrev pub tcp_mod_source : ℕ
tcp_mod_source = 2 ^ 0

abbrev pub tcp_mod_dest : ℕ
tcp_mod_dest = 2 ^ 1

abbrev pub tcp_mod_seq : ℕ
tcp_mod_seq = 2 ^ 2

abbrev pub tcp_mod_ackseq : ℕ
tcp_mod_ackseq = 2 ^ 3

abbrev pub tcp_mod_res : ℕ
tcp_mod_res = 2 ^ 4

abbrev pub tcp_mod_off : ℕ
tcp_mod_off = 2 ^ 5

abbrev pub tcp_mod_fin : ℕ
tcp_mod_fin = 2 ^ 6

abbrev pub tcp_mod_syn : ℕ
tcp_mod_syn = 2 ^ 7

abbrev pub tcp_mod_rst : ℕ
tcp_mod_rst = 2 ^ 8

abbrev pub tcp_mod_psh : ℕ
tcp_mod_psh = 2 ^ 9

abbrev pub tcp_mod_ack : ℕ
tcp_mod_ack = 2 ^ 10

abbrev pub tcp_mod_urg : ℕ
tcp_mod_urg = 2 ^ 11

abbrev pub tcp_mod_ecn : ℕ
tcp_mod_ecn = 2 ^ 12

abbrev pub tcp_mod_cwr : ℕ
tcp_mod_cwr = 2 ^ 13

abbrev pub tcp_mod_window : ℕ
tcp_mod_window = 2 ^ 14

abbrev pub tcp_mod_check : ℕ
tcp_mod_check = 2 ^ 15

abbrev pub tcp_mod_urgptr : ℕ
tcp_mod_urgptr = 2 ^ 16

abbrev pub udp_mod_source : ℕ
udp_mod_source = 2 ^ 0

abbrev pub udp_mod_dest : ℕ
udp_mod_dest = 2 ^ 1

abbrev pub udp_mod_len : ℕ
udp_mod_len = 2 ^ 2

abbrev pub udp_mod_check : ℕ
udp_mod_check = 2 ^ 3

abbrev pub frag_mod_nexthdr : ℕ
frag_mod_nexthdr = 2 ^ 0

abbrev pub frag_mod_resv : ℕ
frag_mod_resv = 2 ^ 1

abbrev pub frag_mod_offset : ℕ
frag_mod_offset = 2 ^ 2

abbrev pub frag_mod_flags : ℕ
frag_mod_flags = 2 ^ 3

abbrev pub frag_mod_id : ℕ
frag_mod_id = 2 ^ 4
