-- ===== src/Routing.antt =====
-- route.c: the IPv6 routing header.
pub mod Addresses
use sendip.Base.{
  ℕ, suc, ◌+◌, ◌-◌, ◌*◌, ◌/◌, ◌%◌, ◌^◌, List, [], ◌∷◌, ◌++◌, Option, none, some, Bool, true, false,
  ◌==◌, ltb, if◌then◌else◌, length, get_or, take, write_bytes, grown, u8, u16, u32, bytes32,
}
use sendip.Base.Flags.{has, mark}
use sendip.World.{World, Outcome, done, fault, stuck, exits, Exec, pure, ◌>>=◌}
use sendip.Headers.{header_type}
use sendip.Protoname.{Protocols, name_to_proto}
use sendip.Args.Number.{opt2intn, opt2inth}
use sendip.Args.Split.{parsenargs}
use sendip.Args.Split.Words.{read_args}
use sendip.Pack.{SendipData, Frame, next_hdr}

-- `struct rt0_hdr`; the addresses are the tail.
pub record RouteHeader : Type 0 where
  pub nexthdr : ℕ
  pub hdrlen : ℕ
  pub type : ℕ
  pub segments_left : ℕ
  pub reserved : ℕ

abbrev pub RouteData : Type 0
RouteData = SendipData RouteHeader

abbrev pub route_data : RouteData → List ℕ
route_data d =
    d.header.nexthdr
      ∷ d.header.hdrlen
      ∷ d.header.type
      ∷ d.header.segments_left
      ∷ bytes32 d.header.reserved
    ++ d.tail

abbrev pub route_mod_nexthdr : ℕ
route_mod_nexthdr = 1

abbrev pub route_mod_type : ℕ
route_mod_type = 2 ^ 1

abbrev pub route_mod_segments : ℕ
route_mod_segments = 2 ^ 2

abbrev pub route_mod_resv : ℕ
route_mod_resv = 2 ^ 3

abbrev pub route_mod_addrlist : ℕ
route_mod_addrlist = 2 ^ 4

abbrev pub octet_max : ℕ
octet_max = 255

abbrev pub addrmax : ℕ
addrmax = octet_max / 2

abbrev pub initialize : RouteData
initialize = record {
  header = record { nexthdr = 0; hdrlen = 0; type = 0; segments_left = 0; reserved = 0 };
  tail = [];
  modified = 0;
}

-- `parsenargs(args, addrs, ADDRMAX, ", ")`, as the strings that the pointers lead to.
abbrev pub address_texts : List ℕ → List (List ℕ)
address_texts arg = read_args (parsenargs (some (b',' ∷ b' ' ∷ [])) addrmax arg)

-- The loop over the addresses from the one at `i` on.
unfoldable pub put_addrs : (List ℕ → Option (List ℕ)) → ℕ → List (List ℕ) → List ℕ → Bool × List ℕ
put_addrs inet_pton6 i [] tail = (true, tail)
put_addrs inet_pton6 i (text ∷ texts) tail = elim (inet_pton6 text) [
  | none ↦ (false, tail)
  | some addr ↦ put_addrs inet_pton6 (i + 1) texts (write_bytes (16 * i) addr tail)
]

-- The block is cut or grown first. `hdrlen` is set last.
unfoldable pub readaddrs :
    (List ℕ → Option (List ℕ)) → (ℕ → ℕ) → List ℕ → RouteData → Bool × RouteData
readaddrs inet_pton6 heap arg d =
    let texts = address_texts arg in
    let size = 16 * length texts in
    let (ok, tail) = put_addrs inet_pton6 0 texts (take size (grown heap size d.tail)) in
    let d' : RouteData = record d { tail = tail } in
    if ok
    then (true, record d' { header = record d.header { hdrlen = u8 (length texts * 2 ^ 2) } })
    else (false, d')

abbrev pub marked : ℕ → RouteData → RouteData
marked bit d = record d { modified = mark d.modified bit }

-- The list is marked only where it could be read.
abbrev pub list_marked : Bool × RouteData → Bool × RouteData
list_marked (ok, d) = if ok then (true, marked route_mod_addrlist d) else (false, d)

abbrev pub set_type : ℕ → RouteData → Bool × RouteData
set_type v d =
    if ltb octet_max v
    then (false, d)
    else (true, marked route_mod_type (record d { header = record d.header { type = u8 v } }))

abbrev pub set_segments : ℕ → RouteData → Bool × RouteData
set_segments v d = if ltb octet_max v then (false, d) else (
  true,
  marked route_mod_segments (record d { header = record d.header { segments_left = u8 v } }),
)

-- `-on`
abbrev pub set_nexthdr : Outcome ℕ → RouteData → Exec (Bool × RouteData)
set_nexthdr (done p) d w =
    done
      ((true, marked route_mod_nexthdr (record d { header = record d.header { nexthdr = p } })), w)
set_nexthdr fault d w = fault
set_nexthdr stuck d w = stuck
set_nexthdr exits d w = exits

-- `inet_pton6` gives the sixteen bytes of an address.
unfoldable pub do_opt :
    Protocols
    → (List ℕ → Option (List ℕ))
    → (ℕ → ℕ)
    → ℕ
    → List ℕ
    → List ℕ
    → RouteData
    → Exec (Bool × RouteData)
do_opt db inet_pton6 heap fuel opt arg d =
    let c = get_or opt 1 0 in
    if c == b'n'
    then set_nexthdr (name_to_proto db arg) d
    else if c == b't'
    then (do v ← opt2inth fuel (some arg) 1; pure (set_type (u16 v) d))
    else if c == b's'
    then (do v ← opt2inth fuel (some arg) 1; pure (set_segments (u16 v) d))
    else if c == b'r'
    then (do
      v ← opt2intn fuel (some arg) 4
      pure (
        true,
        marked route_mod_resv (record d { header = record d.header { reserved = u32 v } }),
      ))
    else if c == b'a'
    then pure (list_marked (readaddrs inet_pton6 heap arg d))
    else pure (true, d)

unfoldable pub finalize : Frame → List ℕ → ℕ → RouteData → Bool × RouteData
finalize f hdrs index d = if has d.modified route_mod_nexthdr then (true, d) else (
  true,
  record d { header = record d.header { nexthdr = header_type (next_hdr f hdrs index) } },
)
