-- ===== src/Hop.antt =====
-- hop.c: the hop-by-hop and the destination options header.
pub mod Space
pub mod Kinds
pub mod Options
pub mod Finalize
use sendip.Base.{
  ℕ, ◌+◌, ◌-◌, ◌*◌, ◌/◌, ◌%◌, ◌^◌, List, [], ◌∷◌, ◌++◌, Option, none, some, Bool, true, false, not,
  ◌==◌, ltb, if◌then◌else◌, length, get_or, set, take, drop, replicate, write_bytes, grown, u8, u16,
  u32, bytes16, bytes32,
}
use sendip.Base.Flags.{has, mark}
use sendip.World.{World, Outcome, done, fault, stuck, exits, Exec, pure, ◌>>=◌}
use sendip.Libc.{split_at}
use sendip.Headers.{header_type}
use sendip.Protoname.{Protocols, name_to_proto}
use sendip.Args.Number.{opt2intn, opt2inth}
use sendip.Args.Stream.{Val}
use sendip.Args.Value.{opt2val}
use sendip.Pack.{Frame, next_hdr}

-- The bytes of the header: `nexthdr`, `hdrlen` and the options. While options are added, `hdrlen` is
-- the count of bytes used, divided by 8, and the low three bits of `modified` are the remainder.
pub record HopPack : Type 0 where
  pub data' : List ℕ
  pub modified : ℕ

abbrev pub hdr_alloc : ℕ
hdr_alloc = 8

abbrev pub octet_max : ℕ
octet_max = 255

-- BUFSIZ of the C library.
abbrev pub bufsiz : ℕ
bufsiz = 8192

abbrev pub tlv_padn : ℕ
tlv_padn = 1

abbrev pub tlv_routeralert : ℕ
tlv_routeralert = 5

abbrev pub tlv_jumbo : ℕ
tlv_jumbo = 194

abbrev pub tlv_hao : ℕ
tlv_hao = 201

abbrev pub hop_mod_nexthdr : ℕ
hop_mod_nexthdr = 2 ^ 3

abbrev pub hop_mod_pad0 : ℕ
hop_mod_pad0 = 2 ^ 4

abbrev pub hop_mod_padn : ℕ
hop_mod_padn = 2 ^ 5

abbrev pub hop_mod_ra : ℕ
hop_mod_ra = 2 ^ 6

abbrev pub hop_mod_jumbo : ℕ
hop_mod_jumbo = 2 ^ 7

abbrev pub hop_mod_hao : ℕ
hop_mod_hao = 2 ^ 8

abbrev pub hop_mod_tlv : ℕ
hop_mod_tlv = 2 ^ 9

abbrev pub initialize : HopPack
initialize = record { data' = replicate 8 0; modified = 2 }

-- `hop->hdrlen * HDR_ALLOC + (pack->modified & (HDR_ALLOC - 1))`
abbrev pub hoplen : HopPack → ℕ
hoplen d = get_or d.data' 1 0 * hdr_alloc + d.modified % hdr_alloc

-- `struct ipv6_hopopt`, with the bytes of its `hopt_data` that were allocated.
pub record HopOpt : Type 0 where
  pub hopt_type : ℕ
  pub hopt_len : ℕ
  pub hopt_data : List ℕ

-- The `optlen` bytes that are stored; none where they go past those of the option. NULL and the type
-- 0 give the one byte of Pad1.
abbrev pub stored : Option HopOpt → Option (List ℕ)
stored none = some (0 ∷ [])
stored (some o) =
    if o.hopt_type == 0
    then some (0 ∷ [])
    else if ltb (length o.hopt_data) o.hopt_len
    then none
    else some (o.hopt_type ∷ o.hopt_len ∷ take o.hopt_len o.hopt_data)

-- The size of the block for `used` bytes: one that is too small grows to the next multiple of 8
-- above.
abbrev pub new_size : ℕ → ℕ → ℕ
new_size used alloclen = if ltb alloclen used then (1 + used / hdr_alloc) * hdr_alloc else alloclen

-- The bytes go to `hoplen`, and the length that is used goes to `hdrlen` and `modified`.
unfoldable pub append : (ℕ → ℕ) → List ℕ → HopPack → HopPack
append heap bytes d =
    let used = hoplen d + length bytes in
    let block = grown heap (new_size used (length d.data')) d.data' in
    record {
      data' = set (write_bytes (hoplen d) bytes block) 1 (u8 (used / hdr_alloc));
      modified = d.modified / hdr_alloc * hdr_alloc + used % hdr_alloc;
    }

unfoldable pub addopt : (ℕ → ℕ) → Option HopOpt → HopPack → Outcome HopPack
addopt heap opt d = elim (stored opt) [ none ↦ fault | some bytes ↦ done (append heap bytes d) ]

abbrev pub marked : ℕ → HopPack → HopPack
marked bit d = record d { modified = mark d.modified bit }

-- `addopt` always succeeds.
abbrev pub added : Outcome HopPack → Exec (Bool × HopPack)
added (done d) w = done ((true, d), w)
added fault w = fault
added stuck w = stuck
added exits w = exits

abbrev pub option_of : ℕ → List ℕ → Option HopOpt
option_of type value =
    some (record { hopt_type = type; hopt_len = length value; hopt_data = value })

-- `-Hn`
abbrev pub set_nexthdr : Outcome ℕ → HopPack → Exec (Bool × HopPack)
set_nexthdr (done p) d w =
    done ((true, marked hop_mod_nexthdr (record d { data' = set d.data' 0 p })), w)
set_nexthdr fault d w = fault
set_nexthdr stuck d w = stuck
set_nexthdr exits d w = exits

-- `-Hp`, for `n` bytes of padding.
unfoldable pub pad_n : (ℕ → ℕ) → ℕ → HopPack → Exec (Bool × HopPack)
pad_n heap n d =
    if ltb n 2
    then pure (false, d)
    else if ltb (octet_max + 2) n
    then pure (false, d)
    else added (addopt heap (option_of tlv_padn (replicate (n - 2) 0)) d)

-- `-Hh`
unfoldable pub home_address : (ℕ → ℕ) → Option (List ℕ) → HopPack → Exec (Bool × HopPack)
home_address heap none d = pure (false, d)
home_address heap (some addr) d =
    added (addopt heap (option_of tlv_hao addr) (marked hop_mod_hao d))

-- `index(arg, '.')`: the text from the first dot on, or NULL.
unfoldable pub from_dot : Option (List ℕ) → Option (List ℕ)
from_dot none = none
from_dot (some s) = elim (split_at b'.' s) [ none ↦ none | some (front, back) ↦ some (b'.' ∷ back) ]

-- `++arg`, unless the pointer is NULL.
abbrev pub behind_dot : Option (List ℕ) → Option (List ℕ)
behind_dot none = none
behind_dot (some []) = none
behind_dot (some (c ∷ s)) = some s

-- The value in `temp`: reading more of it than it has is past its end.
abbrev pub with_value : (ℕ → ℕ) → ℕ → ℕ → HopPack → Val → Exec (Bool × HopPack)
with_value heap type len d v =
    if ltb bufsiz v.count
    then (λ w. fault)
    else added (
        addopt heap
          (some (record { hopt_type = type; hopt_len = len; hopt_data = take v.count v.written }))
          d)

-- The second `index` starts from the dot that the first one found, and faults where it found none.
unfoldable pub value_behind :
    (ℕ → ℕ) → ℕ → ℕ → ℕ → Option (List ℕ) → HopPack → Exec (Bool × HopPack)
value_behind heap fuel type len none d w = fault
value_behind heap fuel type len (some dot) d w =
    (opt2val fuel (behind_dot (from_dot (some dot))) bufsiz >>= with_value heap type len d) w

-- `-Ha`
unfoldable pub arbitrary : (ℕ → ℕ) → ℕ → List ℕ → HopPack → Exec (Bool × HopPack)
arbitrary heap fuel arg d = (do
  type ← opt2inth fuel (some arg) 2
  if ltb octet_max (u16 type) then pure (false, d) else (do
    len ← opt2inth fuel (from_dot (some arg)) 2
    (if ltb octet_max (u16 len)
        then pure (false, d)
        else value_behind heap fuel (u16 type) (u16 len) (from_dot (some arg)) d)))

-- `inet_pton6` gives the sixteen bytes of an address.
unfoldable pub do_opt :
    Protocols
    → (List ℕ → Option (List ℕ))
    → (ℕ → ℕ)
    → ℕ
    → List ℕ
    → List ℕ
    → HopPack
    → Exec (Bool × HopPack)
do_opt db inet_pton6 heap fuel opt arg d =
    let c = get_or opt 1 0 in
    if c == b'n'
    then set_nexthdr (name_to_proto db arg) d
    else if c == b'0'
    then added (addopt heap none (marked hop_mod_pad0 d))
    else if c == b'p'
    then (do v ← opt2inth fuel (some arg) 2; pad_n heap (u16 v) (marked hop_mod_padn d))
    else if c == b'r'
    then (do
      v ← opt2intn fuel (some arg) 2
      added (addopt heap (option_of tlv_routeralert (bytes16 v)) (marked hop_mod_ra d)))
    else if c == b'j'
    then (do
      v ← opt2intn fuel (some arg) 4
      added (addopt heap (option_of tlv_jumbo (bytes32 v)) (marked hop_mod_jumbo d)))
    else if c == b'h'
    then home_address heap (inet_pton6 arg) d
    else if c == b'a'
    then arbitrary heap fuel arg (marked hop_mod_tlv d)
    else pure (true, d)

-- Where the block is not full, the rest is zeroed and `hdrlen` is set.
abbrev pub close : HopPack → HopPack
close d =
    let alloclen = length d.data' in
    let zeroed = write_bytes (hoplen d) (replicate (alloclen - hoplen d) 0) d.data' in
    if hoplen d == alloclen
    then d
    else record d { data' = set zeroed 1 (u8 (alloclen / hdr_alloc - 1)) }

-- `hoplen` is taken before `nexthdr` is set, which it does not depend on.
pub finalize : Frame → List ℕ → ℕ → HopPack → Bool × HopPack
finalize f hdrs index d =
    let p = header_type (next_hdr f hdrs index) in
    if has d.modified hop_mod_nexthdr
    then (true, close d)
    else (true, close (record d { data' = set d.data' 0 p }))
