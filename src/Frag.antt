-- ===== src/Frag.antt =====
-- frag.c: the IPv6 fragment header.
pub mod Fields
pub mod Options
use sendip.Base.{
  ℕ, ◌+◌, ◌-◌, ◌*◌, ◌/◌, ◌%◌, ◌^◌, List, [], ◌∷◌, Option, none, some, Bool, true, false,
}
use sendip.Base.{◌==◌, ltb, if◌then◌else◌, get_or, u8, u16, u32, htons, bit_and, bit_or}
use sendip.Base.Flags.{has, mark}
use sendip.World.{World, Outcome, done, fault, stuck, exits, Exec, pure, ◌>>=◌}
use sendip.Headers.{header_type}
use sendip.Protoname.{Protocols, name_to_proto}
use sendip.Args.Number.{opt2intn, opt2inth}
use sendip.Pack.{SendipData, FragHeader, Frame, next_hdr}
use sendip.Pack.{frag_mod_nexthdr, frag_mod_resv, frag_mod_offset, frag_mod_flags, frag_mod_id}

abbrev pub FragData : Type 0
FragData = SendipData FragHeader

abbrev pub ipv6_frag_flags : ℕ
ipv6_frag_flags = 7

abbrev pub ipv6_frag_maxoffset : ℕ
ipv6_frag_maxoffset = 2 ^ 13 - 1

abbrev pub octet_max : ℕ
octet_max = 255

abbrev pub initialize : FragData
initialize = record {
  header = record { nexthdr = 0; reserved = 0; frag_off = 0; identification = 0 };
  tail = [];
  modified = 0;
}

-- `frag_off` is kept in network order, and `~IPV6_FRAG_FLAGS` is cut to 16 bits.
pub frag_setoffset : ℕ → FragHeader → FragHeader
frag_setoffset offset h =
    let kept = bit_and (htons h.frag_off) ipv6_frag_flags in
    record h { frag_off = htons (u16 (bit_or kept (offset * 2 ^ 3))) }

pub frag_getoffset : FragHeader → ℕ
frag_getoffset h = bit_and (htons h.frag_off) (2 ^ 16 - 1 - ipv6_frag_flags) / 2 ^ 3

pub frag_setflags : ℕ → FragHeader → FragHeader
frag_setflags flags h =
    let kept = bit_and (htons h.frag_off) (2 ^ 16 - 1 - ipv6_frag_flags) in
    record h { frag_off = htons (bit_or kept flags) }

pub frag_getflags : FragHeader → ℕ
frag_getflags h = bit_and (htons h.frag_off) ipv6_frag_flags

-- The bit is marked before the value is checked.
abbrev pub marked : ℕ → FragData → FragData
marked bit d = record d { modified = mark d.modified bit }

abbrev pub set_resv : ℕ → FragData → Bool × FragData
set_resv v d =
    if ltb octet_max v
    then (false, d)
    else (true, record d { header = record d.header { reserved = v } })

abbrev pub set_offset : ℕ → FragData → Bool × FragData
set_offset v d =
    if ltb ipv6_frag_maxoffset v
    then (false, d)
    else (true, record d { header = frag_setoffset v d.header })

abbrev pub set_flags : ℕ → FragData → Bool × FragData
set_flags v d =
    if ltb ipv6_frag_flags v
    then (false, d)
    else (true, record d { header = frag_setflags v d.header })

-- `-Fn`
pub set_nexthdr : Outcome ℕ → FragData → Exec (Bool × FragData)
set_nexthdr (done p) d w =
    done
      ((true, marked frag_mod_nexthdr (record d { header = record d.header { nexthdr = p } })), w)
set_nexthdr fault d w = fault
set_nexthdr stuck d w = stuck
set_nexthdr exits d w = exits

pub do_opt : Protocols → ℕ → List ℕ → List ℕ → FragData → Exec (Bool × FragData)
do_opt db fuel opt arg d =
    let c = get_or opt 1 0 in
    if c == b'n'
    then set_nexthdr (name_to_proto db arg) d
    else if c == b'r'
    then (do v ← opt2inth fuel (some arg) 2; pure (set_resv (u16 v) (marked frag_mod_resv d)))
    else if c == b'o'
    then (do v ← opt2inth fuel (some arg) 2; pure (set_offset (u16 v) (marked frag_mod_offset d)))
    else if c == b'f'
    then (do v ← opt2inth fuel (some arg) 2; pure (set_flags (u16 v) (marked frag_mod_flags d)))
    else if c == b'i'
    then (do
      v ← opt2intn fuel (some arg) 4
      pure (
        true,
        marked frag_mod_id (record d { header = record d.header { identification = u32 v } }),
      ))
    else pure (true, d)

pub finalize : Frame → List ℕ → ℕ → FragData → Bool × FragData
finalize f hdrs index d = if has d.modified frag_mod_nexthdr then (true, d) else (
  true,
  record d { header = record d.header { nexthdr = header_type (next_hdr f hdrs index) } },
)
