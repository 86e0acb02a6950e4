-- ===== src/Udp.antt =====
-- udp.c: the UDP module.
pub mod Finalize
pub mod InPlace
pub mod Options
use sendip.Base.{ℕ, ◌+◌, ◌*◌, ◌/◌, ◌%◌, List, [], ◌∷◌, ◌++◌, Option, none, some, Bool, true, false}
use sendip.Base.{◌||◌, ◌==◌, if◌then◌else◌, length, get_or, get_elem?, set, u16, htons}
use sendip.Base.Flags.{has, mark}
use sendip.World.{World, Outcome, done, fault, stuck, Exec, pure, ◌>>=◌}
use sendip.Csum.{csum}
use sendip.Headers.{ipproto_udp}
use sendip.Args.Number.{opt2intn}
use sendip.Pack.{SendipData, Pack, ip, IpHeader, Ip6Header, UdpHeader, udp_bytes, Frame, outer_ip}
use sendip.Pack.{claim_protocol, pseudo4, pseudo6, as_ip, as_ip6}
use sendip.Pack.{udp_mod_source, udp_mod_dest, udp_mod_len, udp_mod_check}

abbrev pub UdpData : Type 0
UdpData = SendipData UdpHeader

abbrev pub udp_data : UdpData → List ℕ
udp_data d = udp_bytes d.header ++ d.tail

abbrev pub initialize : UdpData
initialize = record {
  header = record { source = 0; dest = 0; len = 0; check = 0 };
  tail = [];
  modified = 0;
}

-- `udp->check = 0`
abbrev pub cleared : UdpData → UdpData
cleared d = record d { header = record d.header { check = 0 } }

abbrev pub with_check : ℕ → UdpData → UdpData
with_check c d = record d { header = record d.header { check = c } }

pub udpcsum : IpHeader → UdpData → List ℕ → UdpData
udpcsum h d rest =
    let d' = cleared d in
    with_check (csum (pseudo4 h (length (udp_data d') + length rest) ++ (udp_data d' ++ rest))) d'

pub udp6csum : Ip6Header → UdpData → List ℕ → UdpData
udp6csum h d rest =
    let d' = cleared d in
    with_check (csum (pseudo6 h d'.header.len ipproto_udp ++ (udp_data d' ++ rest))) d'

-- The second character of the option decides.
unfoldable pub do_opt : ℕ → List ℕ → List ℕ → UdpData → Exec (Bool × UdpData)
do_opt fuel opt arg d =
    let c = get_or opt 1 0 in
    if c == b's'
    then (do
      v ← opt2intn fuel (some arg) 2
      pure (
        true,
        record {
          header = record d.header { source = u16 v };
          tail = d.tail;
          modified = mark d.modified udp_mod_source;
        },
      ))
    else if c == b'd'
    then (do
      v ← opt2intn fuel (some arg) 2
      pure (
        true,
        record {
          header = record d.header { dest = u16 v };
          tail = d.tail;
          modified = mark d.modified udp_mod_dest;
        },
      ))
    else if c == b'l'
    then (do
      v ← opt2intn fuel (some arg) 2
      pure (
        true,
        record {
          header = record d.header { len = u16 v };
          tail = d.tail;
          modified = mark d.modified udp_mod_len;
        },
      ))
    else if c == b'c'
    then (do
      v ← opt2intn fuel (some arg) 2
      pure (
        true,
        record {
          header = record d.header { check = u16 v };
          tail = d.tail;
          modified = mark d.modified udp_mod_check;
        },
      ))
    else pure (true, d)

-- `udp->len`, unless the user set it.
pub fill : ℕ → UdpData → UdpData
fill data_len d = if has d.modified udp_mod_len then d else record d {
  header = record d.header { len = htons (u16 (length (udp_data d) + data_len)) };
}

-- What `finalize` does under an IPv4 header at `i`.
pub under_ip : ℕ → SendipData IpHeader → List Pack → UdpData → List ℕ → Bool × (List Pack × UdpData)
under_ip i h headers d rest =
    let h' = claim_protocol ipproto_udp h in
    let d' = if has d.modified udp_mod_check then d else udpcsum h'.header d rest in
    (true, (set headers i (ip h'), d'))

pub under_ip6 : SendipData Ip6Header → List Pack → UdpData → List ℕ → Bool × (List Pack × UdpData)
under_ip6 h headers d rest =
    (true, (headers, if has d.modified udp_mod_check then d else udp6csum h.header d rest))

-- Without an enclosing header: "UDP checksum not defined when UDP is not embedded in IP".
pub alone : List Pack → UdpData → Bool × (List Pack × UdpData)
alone headers d = (has d.modified udp_mod_check, (headers, d))

-- The headers that `finalize` leaves and the pack. `rest` is the packet behind this header. Where
-- no IP header encloses it, the code reads `hdrs[-1]`, and follows `headers[-1]` if that says so.
pub finalize :
    Frame → List ℕ → List Pack → ℕ → List ℕ → UdpData → Outcome (Bool × (List Pack × UdpData))
finalize f hdrs headers index rest d =
    let d' = fill (length rest) d in
    elim (outer_ip hdrs index) [
      | none ↦ if f.before == b'i' || f.before == b'6' then fault else done (alone headers d')
      | some i ↦
          if get_or hdrs i 0 == b'i'
          then elim (as_ip (get_elem? headers i)) [
            | none ↦ fault
            | some h ↦ done (under_ip i h headers d' rest)
          ]
          else if get_or hdrs i 0 == b'6'
          then elim (as_ip6 (get_elem? headers i)) [
            | none ↦ fault
            | some h ↦ done (under_ip6 h headers d' rest)
          ]
          else done (alone headers d')
    ]
