-- ===== src/Ah.antt =====
-- ah.c: the authentication header.
pub mod Length
use sendip.Base.{
  ℕ, ◌+◌, ◌-◌, ◌/◌, ◌%◌, ◌^◌, List, [], ◌∷◌, ◌++◌, Option, none, some, Bool, true, false, ◌==◌, ltb,
  if◌then◌else◌, length, get_or, take, write_bytes, grown, u8, bytes16, bytes32,
}
use sendip.Base.Flags.{has, mark}
use sendip.World.{World, Outcome, done, fault, stuck, exits, Exec, pure, ◌>>=◌}
use sendip.Headers.{header_type, ipproto_ah}
use sendip.Protoname.{Protocols, name_to_proto}
use sendip.Args.Number.{opt2intn}
use sendip.Args.Stream.{Val}
use sendip.Args.Value.{opt2val}
use sendip.Pack.{Frame, next_hdr}

-- `struct ip_auth_hdr` up to the authentication data.
pub record AhHeader : Type 0 where
  pub nexthdr : ℕ
  pub hdrlen : ℕ
  pub reserved : ℕ
  pub spi : ℕ
  pub seq_no : ℕ

-- `ah_private`, with the bytes of the key, `keylen` of them.
pub record AhPrivate : Type 0 where
  pub type : ℕ
  pub key : List ℕ

pub record AhPack : Type 0 where
  pub header : AhHeader
  pub auth_data : List ℕ
  pub modified : ℕ
  pub private : AhPrivate

-- `crypto_module`, code that is loaded at run time. `cryptomod` gets the bytes from the header to
-- the end of the packet, and may change them.
pub record CryptoModule : Type 0 where
  pub cryptoinit : Option (AhPack → Bool × AhPack)
  pub cryptomod : Option (AhPrivate → List ℕ → Bool × List ℕ)

-- The pack with `cryptoah`.
pub record AhState : Type 0 where
  pub pack : AhPack
  pub cryptoah : Option CryptoModule

abbrev pub ah_mod_spi : ℕ
ah_mod_spi = 1

abbrev pub ah_mod_sequence : ℕ
ah_mod_sequence = 2 ^ 1

abbrev pub ah_mod_authdata : ℕ
ah_mod_authdata = 2 ^ 2

abbrev pub ah_mod_nexthdr : ℕ
ah_mod_nexthdr = 2 ^ 3

abbrev pub ah_mod_key : ℕ
ah_mod_key = 2 ^ 4

abbrev pub bufsiz : ℕ
bufsiz = 8192

abbrev pub ah_data : AhPack → List ℕ
ah_data d =
    d.header.nexthdr ∷ d.header.hdrlen ∷ bytes16 d.header.reserved
    ++ (bytes32 d.header.spi ++ (bytes32 d.header.seq_no ++ d.auth_data))

abbrev pub initialize : AhPack
initialize = record {
  header = record { nexthdr = 0; hdrlen = 1; reserved = 0; spi = 0; seq_no = 0 };
  auth_data = [];
  modified = 0;
  private = record { type = ipproto_ah; key = [] };
}

abbrev pub marked : ℕ → AhPack → AhPack
marked bit d = record d { modified = mark d.modified bit }

-- `-ad`: the block is cut or grown to the length, and the bytes stored.
unfoldable pub put_auth_data : (ℕ → ℕ) → AhPack → Val → Exec (Bool × AhPack)
put_auth_data heap d v =
    if ltb bufsiz v.count
    then (λ w. fault)
    else pure (
      true,
      marked ah_mod_authdata (record d {
        header = record d.header { hdrlen = u8 (1 + v.count / 4) };
        auth_data =
            write_bytes 0 (take v.count v.written) (take v.count (grown heap v.count d.auth_data));
      }),
    )

-- `-ak`
unfoldable pub put_key : AhPack → Val → Exec (Bool × AhPack)
put_key d v =
    if ltb bufsiz v.count
    then (λ w. fault)
    else pure (
      true,
      marked ah_mod_key (record d { private = record d.private { key = take v.count v.written } }),
    )

-- `-an`
unfoldable pub set_nexthdr : Outcome ℕ → AhPack → Exec (Bool × AhPack)
set_nexthdr (done p) d w =
    done ((true, marked ah_mod_nexthdr (record d { header = record d.header { nexthdr = p } })), w)
set_nexthdr fault d w = fault
set_nexthdr stuck d w = stuck
set_nexthdr exits d w = exits

-- The options that change the pack alone.
unfoldable pub pack_opt : Protocols → (ℕ → ℕ) → ℕ → List ℕ → List ℕ → AhPack → Exec (Bool × AhPack)
pack_opt db heap fuel opt arg d =
    let c = get_or opt 1 0 in
    if c == b's'
    then (do
      v ← opt2intn fuel (some arg) 4
      pure (true, marked ah_mod_spi (record d { header = record d.header { spi = v } })))
    else if c == b'q'
    then (do
      v ← opt2intn fuel (some arg) 4
      pure (true, marked ah_mod_sequence (record d { header = record d.header { seq_no = v } })))
    else if c == b'd'
    then (opt2val fuel (some arg) bufsiz >>= put_auth_data heap d)
    else if c == b'k'
    then (opt2val fuel (some arg) bufsiz >>= put_key d)
    else if c == b'n'
    then set_nexthdr (name_to_proto db arg) d
    else pure (true, d)

abbrev pub with_pack : AhState → Bool × AhPack → Bool × AhState
with_pack s (ok, d) = (ok, record s { pack = d })

-- `-am`, with what `load_crypto_module` finds.
abbrev pub put_module : Option CryptoModule → AhState → Bool × AhState
put_module none s = (false, record s { cryptoah = none })
put_module (some m) s =
    let s' : AhState = record s { cryptoah = some m } in
    elim m.cryptoinit [ none ↦ (true, s') | some cryptoinit ↦ with_pack s' (cryptoinit s.pack) ]

unfoldable pub do_opt :
    Protocols
    → (List ℕ → Option CryptoModule)
    → (ℕ → ℕ)
    → ℕ
    → List ℕ
    → List ℕ
    → AhState
    → Exec (Bool × AhState)
do_opt db load_crypto_module heap fuel opt arg s =
    if get_or opt 1 0 == b'm'
    then pure (put_module (load_crypto_module arg) s)
    else (do r ← pack_opt db heap fuel opt arg s.pack; pure (with_pack s r))

-- The type of the next header, unless the user set it.
abbrev pub fill_nexthdr : Frame → List ℕ → ℕ → AhPack → AhPack
fill_nexthdr f hdrs index d =
    if has d.modified ah_mod_nexthdr
    then d
    else record d { header = record d.header { nexthdr = header_type (next_hdr f hdrs index) } }

abbrev pub module_run : Option CryptoModule → AhPrivate → List ℕ → Bool × List ℕ
module_run none private bytes = (true, bytes)
module_run (some m) private bytes = elim m.cryptomod [
  | none ↦ (true, bytes)
  | some cryptomod ↦ cryptomod private bytes
]

-- The bytes from the header to the end of the packet.
unfoldable pub finalize : Frame → List ℕ → ℕ → List ℕ → AhState → Bool × List ℕ
finalize f hdrs index rest s =
    let d = fill_nexthdr f hdrs index s.pack in module_run s.cryptoah d.private (ah_data d ++ rest)
