-- ===== src/Ipv6.antt =====
-- ipv6.c: the IPv6 module.
pub mod Finalize
pub mod Options
use sendip.Base.{
  ℕ, ◌+◌, ◌-◌, ◌*◌, ◌/◌, ◌%◌, ◌^◌, List, [], ◌∷◌, Option, none, some, Bool, true, false,
}
use sendip.Base.{
  ◌==◌, if◌then◌else◌, length, get_or, replicate, ◌++◌, u8, u16, htons, htonl, bit_and, bit_or,
}
use sendip.Base.Flags.{has, mark}
use sendip.World.{World, Outcome, done, fault, stuck, exits, Exec, pure, ◌>>=◌}
use sendip.Headers.{header_type}
use sendip.Protoname.{Protocols, name_to_proto}
use sendip.Args.Number.{opt2intn, opt2inth}
use sendip.Pack.{SendipData, Ip6Header, Frame, next_hdr}
use sendip.Pack.{ipv6_mod_version, ipv6_mod_priority, ipv6_mod_flow, ipv6_mod_plen, ipv6_mod_nxt}
use sendip.Pack.{ipv6_mod_hlim, ipv6_mod_src, ipv6_mod_dst}

abbrev pub Ip6Data : Type 0
Ip6Data = SendipData Ip6Header

abbrev pub initialize : Ip6Data
initialize = record {
  header = record {
    ip6_flow = 0;
    ip6_plen = 0;
    ip6_nxt = 0;
    ip6_hlim = 0;
    ip6_src = replicate 16 0;
    ip6_dst = replicate 16 0;
  };
  tail = [];
  modified = 0;
}

abbrev pub in6addr_loopback : List ℕ
in6addr_loopback = replicate 15 0 ++ (1 ∷ [])

abbrev pub set_dst : Option (List ℕ) → Ip6Data → Bool × Ip6Data
set_dst none d = (false, d)
set_dst (some addr) d =
    if length addr == 16
    then (true, record d { header = record d.header { ip6_dst = addr } })
    else (false, d)

-- `gethostbyname2` is that of AF_INET6.
abbrev pub set_addr : (List ℕ → Option (List ℕ)) → List ℕ → Ip6Data → Bool × Ip6Data
set_addr gethostbyname2 hostname d =
    let d' =
      if has d.modified ipv6_mod_src
      then d
      else record d { header = record d.header { ip6_src = in6addr_loopback } } in
    if has d.modified ipv6_mod_dst then (true, d') else set_dst (gethostbyname2 hostname) d'

-- `ip6_vfc` is the first byte of `ip6_flow`.
abbrev pub ip6_vfc : Ip6Header → ℕ
ip6_vfc h = h.ip6_flow % 256

abbrev pub put_vfc : ℕ → Ip6Header → Ip6Header
put_vfc c h = record h { ip6_flow = h.ip6_flow / 256 * 256 + c }

pub put_version : ℕ → Ip6Header → Ip6Header
put_version v h = put_vfc (bit_or (bit_and (ip6_vfc h) 0x0f) (u8 (bit_and v 0x0f * 2 ^ 4))) h

pub put_priority : ℕ → Ip6Header → Ip6Header
put_priority v h = put_vfc (bit_or (bit_and (ip6_vfc h) 0xf0) (u8 (bit_and v 0x0f))) h

-- `ip6_flow &= htonl(mask); ip6_flow |= htonl(bits);`
abbrev pub put_flow : ℕ → ℕ → Ip6Header → Ip6Header
put_flow mask bits h = record h { ip6_flow = bit_or (bit_and h.ip6_flow (htonl mask)) (htonl bits) }

-- A traffic class of six bits, an ECN of two, and a flow label of twenty.
pub put_class : ℕ → Ip6Header → Ip6Header
put_class v h = put_flow 0xf03fffff (bit_and (v * 2 ^ 2 % 2 ^ 32) 0xfc * 2 ^ 20) h

pub put_ecn : ℕ → Ip6Header → Ip6Header
put_ecn v h = put_flow 0xffcfffff (bit_and v 3 * 2 ^ 20) h

pub put_label : ℕ → Ip6Header → Ip6Header
put_label v h = put_flow 0xfff00000 (bit_and v 0x000fffff) h

abbrev pub marked : ℕ → Ip6Header → Ip6Data → Bool × Ip6Data
marked bit h d = (true, record { header = h; tail = d.tail; modified = mark d.modified bit })

-- `-6n`
pub set_nxt : Outcome ℕ → Ip6Data → Exec (Bool × Ip6Data)
set_nxt (done p) d w = done (marked ipv6_mod_nxt (record d.header { ip6_nxt = p }) d, w)
set_nxt fault d w = fault
set_nxt stuck d w = stuck
set_nxt exits d w = exits

-- An address that `inet_pton` refuses leaves the header as it is.
pub set_src : Option (List ℕ) → Ip6Data → Bool × Ip6Data
set_src none d = marked ipv6_mod_src d.header d
set_src (some addr) d = marked ipv6_mod_src (record d.header { ip6_src = addr }) d

pub set_dst_opt : Option (List ℕ) → Ip6Data → Bool × Ip6Data
set_dst_opt none d = marked ipv6_mod_dst d.header d
set_dst_opt (some addr) d = marked ipv6_mod_dst (record d.header { ip6_dst = addr }) d

-- `inet_pton6` gives the sixteen bytes of an address.
pub do_opt :
    Protocols → (List ℕ → Option (List ℕ)) → ℕ → List ℕ → List ℕ → Ip6Data → Exec (Bool × Ip6Data)
do_opt db inet_pton6 fuel opt arg d =
    let c = get_or opt 1 0 in
    if c == b'v'
    then (do
      v ← opt2intn fuel (some arg) 1
      pure (marked ipv6_mod_version (put_version v d.header) d))
    else if c == b'p'
    then (do
      v ← opt2intn fuel (some arg) 1
      pure (marked ipv6_mod_priority (put_priority v d.header) d))
    else if c == b't'
    then (do v ← opt2inth fuel (some arg) 1; pure (marked ipv6_mod_flow (put_class v d.header) d))
    else if c == b'e'
    then (do v ← opt2inth fuel (some arg) 1; pure (marked ipv6_mod_flow (put_ecn v d.header) d))
    else if c == b'f'
    then (do v ← opt2inth fuel (some arg) 4; pure (marked ipv6_mod_flow (put_label v d.header) d))
    else if c == b'l'
    then (do
      v ← opt2intn fuel (some arg) 2
      pure (marked ipv6_mod_plen (record d.header { ip6_plen = u16 v }) d))
    else if c == b'n'
    then set_nxt (name_to_proto db arg) d
    else if c == b'h'
    then (do
      v ← opt2intn fuel (some arg) 1
      pure (marked ipv6_mod_hlim (record d.header { ip6_hlim = u8 v }) d))
    else if c == b's'
    then pure (set_src (inet_pton6 arg) d)
    else if c == b'd'
    then pure (set_dst_opt (inet_pton6 arg) d)
    else pure (true, d)

pub fill_version : Ip6Data → Ip6Header
fill_version d =
    if has d.modified ipv6_mod_version
    then d.header
    else put_vfc (bit_or (bit_and (ip6_vfc d.header) 0x0f) (6 * 2 ^ 4)) d.header

-- `data_len` is `data->alloc_len`.
pub finalize : Frame → List ℕ → ℕ → ℕ → Ip6Data → Bool × Ip6Data
finalize f hdrs index data_len d =
    let h = fill_version d in
    (
      true,
      record d {
        header = record h {
          ip6_plen = if has d.modified ipv6_mod_plen then h.ip6_plen else htons (u16 data_len);
          ip6_nxt =
              if has d.modified ipv6_mod_nxt
              then h.ip6_nxt
              else header_type (next_hdr f hdrs index);
          ip6_hlim = if has d.modified ipv6_mod_hlim then h.ip6_hlim else 32;
        };
      },
    )
