-- ===== src/Icmp.antt =====
-- icmp.c: the ICMP module.
pub mod Finalize
pub mod InPlace
pub mod Options
use sendip.Base.{ℕ, ◌+◌, ◌*◌, ◌/◌, ◌%◌, List, [], ◌∷◌, ◌++◌, Option, none, some, Bool, true, false}
use sendip.Base.{◌==◌, if◌then◌else◌, length, get_or, get_elem?, set, u8, u16, u32, htonl}
use sendip.Base.Flags.{has, mark}
use sendip.World.{World, Outcome, done, fault, stuck, Exec, pure, ◌>>=◌}
use sendip.Csum.{csum}
use sendip.Headers.{ipproto_icmp, ipproto_icmpv6}
use sendip.Args.Number.{opt2intn}
use sendip.Pack.{SendipData, Pack, ip, IpHeader, Ip6Header, IcmpHeader, icmp_bytes, outer_ip}
use sendip.Pack.{claim_protocol, pseudo6, as_ip, as_ip6}
use sendip.Pack.{icmp_mod_type, icmp_mod_code, icmp_mod_check}

abbrev pub IcmpData : Type 0
IcmpData = SendipData IcmpHeader

abbrev pub icmp_data : IcmpData → List ℕ
icmp_data d = icmp_bytes d.header ++ d.tail

abbrev pub icmp6_echo_request : ℕ
icmp6_echo_request = 128

abbrev pub icmp_echo : ℕ
icmp_echo = 8

abbrev pub initialize : IcmpData
initialize = record { header = record { type = 0; code = 0; check = 0 }; tail = []; modified = 0 }

abbrev pub cleared : IcmpData → IcmpData
cleared d = record d { header = record d.header { check = 0 } }

abbrev pub with_check : ℕ → IcmpData → IcmpData
with_check c d = record d { header = record d.header { check = c } }

pub icmpcsum : IcmpData → List ℕ → IcmpData
icmpcsum d rest = let d' = cleared d in with_check (csum (icmp_data d' ++ rest)) d'

pub icmp6csum : Ip6Header → IcmpData → List ℕ → IcmpData
icmp6csum h d rest =
    let d' = cleared d in
    let len = length (icmp_data d') + length rest in
    with_check (csum (pseudo6 h (htonl (u32 len)) ipproto_icmpv6 ++ (icmp_data d' ++ rest))) d'

pub do_opt : ℕ → List ℕ → List ℕ → IcmpData → Exec (Bool × IcmpData)
do_opt fuel opt arg d =
    let c = get_or opt 1 0 in
    if c == b't'
    then (do
      v ← opt2intn fuel (some arg) 1
      pure (
        true,
        record {
          header = record d.header { type = u8 v };
          tail = d.tail;
          modified = mark d.modified icmp_mod_type;
        },
      ))
    else if c == b'd'
    then (do
      v ← opt2intn fuel (some arg) 1
      pure (
        true,
        record {
          header = record d.header { code = u8 v };
          tail = d.tail;
          modified = mark d.modified icmp_mod_code;
        },
      ))
    else if c == b'c'
    then (do
      v ← opt2intn fuel (some arg) 2
      pure (
        true,
        record {
          header = record d.header { check = u16 v };
          tail = d.tail;
          modified = mark d.modified icmp_mod_check;
        },
      ))
    else pure (true, d)

-- The type of an echo request of the given version, unless the user set one.
pub fill : ℕ → IcmpData → IcmpData
fill request d =
    if has d.modified icmp_mod_type
    then d
    else record d { header = record d.header { type = request } }

pub under_ip :
    ℕ → SendipData IpHeader → List Pack → IcmpData → List ℕ → Bool × (List Pack × IcmpData)
under_ip i h headers d rest =
    let d' = fill icmp_echo d in
    (
      true,
      (
        set headers i (ip (claim_protocol ipproto_icmp h)),
        if has d.modified icmp_mod_check then d' else icmpcsum d' rest,
      ),
    )

pub under_ip6 : SendipData Ip6Header → List Pack → IcmpData → List ℕ → Bool × (List Pack × IcmpData)
under_ip6 h headers d rest =
    let d' = fill icmp6_echo_request d in
    (true, (headers, if has d.modified icmp_mod_check then d' else icmp6csum h.header d' rest))

pub under_other : List Pack → IcmpData → List ℕ → Bool × (List Pack × IcmpData)
under_other headers d rest =
    let d' = fill icmp_echo d in
    (true, (headers, if has d.modified icmp_mod_check then d' else icmpcsum d' rest))

-- `rest` is the packet behind this header.
pub finalize : List ℕ → List Pack → ℕ → List ℕ → IcmpData → Outcome (Bool × (List Pack × IcmpData))
finalize hdrs headers index rest d = elim (outer_ip hdrs index) [
  | none ↦ done (false, (headers, d))
  | some i ↦
      if get_or hdrs i 0 == b'i'
      then elim (as_ip (get_elem? headers i)) [
        | none ↦ fault
        | some h ↦ done (under_ip i h headers d rest)
      ]
      else if get_or hdrs i 0 == b'6'
      then elim (as_ip6 (get_elem? headers i)) [
        | none ↦ fault
        | some h ↦ done (under_ip6 h headers d rest)
      ]
      else done (under_other headers d rest)
]
