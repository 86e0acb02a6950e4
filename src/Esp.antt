-- ===== src/Esp.antt =====
-- esp.c: the ESP header, whose trailer moves behind the data.
pub mod Finalize
pub mod Layout
pub mod Xor
use sendip.Base.{
  ℕ, ◌+◌, ◌-◌, ◌*◌, ◌/◌, ◌%◌, ◌^◌, List, [], ◌∷◌, ◌++◌, Option, none, some, Bool, true, false, ◌==◌,
  ltb, if◌then◌else◌, length, get_or, set, take, drop, replicate, write_bytes, grown, u8, bytes32,
}
use sendip.Base.Flags.{has, mark}
use sendip.World.{World, Outcome, done, fault, stuck, exits, Exec, pure, ◌>>=◌}
use sendip.Headers.{header_type, ipproto_esp}
use sendip.Protoname.{Protocols, name_to_proto}
use sendip.Args.Number.{opt2intn, opt2inth}
use sendip.Args.Stream.{Val}
use sendip.Args.Value.{opt2val}
use sendip.Pack.{Frame, next_hdr}

-- `esp_private`, with the bytes of the key, `keylen` of them.
pub record EspPrivate : Type 0 where
  pub type : ℕ
  pub ivlen : ℕ
  pub icvlen : ℕ
  pub key : List ℕ

-- The bytes of the pack: `spi` and `seq_no`, then `padlen` and `nexthdr`, two bytes that align, and
-- from the twelfth on `ivicv`.
pub record EspPack : Type 0 where
  pub data' : List ℕ
  pub modified : ℕ
  pub private : EspPrivate

-- `crypto_module`, code that is loaded at run time. `cryptomod` gets the bytes from the ESP header
-- to the end of the packet, and may change them.
pub record CryptoModule : Type 0 where
  pub cryptoinit : Option (EspPack → Bool × EspPack)
  pub cryptomod : Option (EspPrivate → List ℕ → Bool × List ℕ)

-- The pack with `authesp` and `cryptoesp`.
pub record EspState : Type 0 where
  pub pack : EspPack
  pub authesp : Option CryptoModule
  pub cryptoesp : Option CryptoModule

abbrev pub esp_mod_spi : ℕ
esp_mod_spi = 1

abbrev pub esp_mod_sequence : ℕ
esp_mod_sequence = 2 ^ 1

abbrev pub esp_mod_padding : ℕ
esp_mod_padding = 2 ^ 2

abbrev pub esp_mod_nexthdr : ℕ
esp_mod_nexthdr = 2 ^ 3

abbrev pub esp_mod_iv : ℕ
esp_mod_iv = 2 ^ 4

abbrev pub esp_mod_icv : ℕ
esp_mod_icv = 2 ^ 5

abbrev pub esp_mod_key : ℕ
esp_mod_key = 2 ^ 6

abbrev pub esp_mod_auth : ℕ
esp_mod_auth = 2 ^ 7

abbrev pub esp_mod_crypt : ℕ
esp_mod_crypt = 2 ^ 8

abbrev pub esp_min_padding : ℕ
esp_min_padding = 4

abbrev pub octet_max : ℕ
octet_max = 255

abbrev pub bufsiz : ℕ
bufsiz = 8192

-- `&esp->tail.ivicv[i]`, which counts `i` in words of four bytes.
abbrev pub ivicv : ℕ → ℕ
ivicv i = 12 + 4 * i

abbrev pub initialize : EspPack
initialize = record {
  data' = replicate 16 0;
  modified = 0;
  private = record { type = ipproto_esp; ivlen = 0; icvlen = 0; key = [] };
}

abbrev pub marked : ℕ → EspPack → EspPack
marked bit d = record d { modified = mark d.modified bit }

abbrev pub stored : ℕ → List ℕ → EspPack → EspPack
stored i bytes d = record d { data' = write_bytes i bytes d.data' }

abbrev pub enlarged : (ℕ → ℕ) → ℕ → EspPack → EspPack
enlarged heap n d = record d { data' = grown heap (length d.data' + n) d.data' }

-- `-ep`
abbrev pub put_padding : (ℕ → ℕ) → ℕ → EspPack → Bool × EspPack
put_padding heap n d =
    let d' = stored 8 (u8 n ∷ []) d in
    if ltb octet_max n
    then (false, d)
    else if ltb esp_min_padding n
    then (true, marked esp_mod_padding (enlarged heap (n - esp_min_padding) d'))
    else (true, marked esp_mod_padding d')

-- A copy into the pack that ends behind it is a fault.
unfoldable pub copied : ℕ → List ℕ → EspPack → Exec EspPack
copied i bytes d w =
    if ltb (length d.data') (i + length bytes) then fault else done (stored i bytes d, w)

abbrev pub with_ivlen : ℕ → EspPack → EspPack
with_ivlen n d = record d { private = record d.private { ivlen = n } }

abbrev pub with_icvlen : ℕ → EspPack → EspPack
with_icvlen n d = record d { private = record d.private { icvlen = n } }

-- The ICV goes on by the length of the IV.
abbrev pub shoved : EspPack → Exec EspPack
shoved d =
    let n = d.private.icvlen in
    if n == 0 then pure d else copied (ivicv d.private.ivlen) (take n (drop 12 d.data')) d

-- `-ei`
unfoldable pub put_iv : (ℕ → ℕ) → EspPack → Val → Exec (Bool × EspPack)
put_iv heap d v = if ltb bufsiz v.count then (λ w. fault) else (do
  d₁ ← shoved (enlarged heap v.count (with_ivlen v.count d))
  d₂ ← copied (ivicv 0) (take v.count v.written) d₁
  pure (true, marked esp_mod_iv d₂))

-- `-eI`
unfoldable pub put_icv : (ℕ → ℕ) → EspPack → Val → Exec (Bool × EspPack)
put_icv heap d v = if ltb bufsiz v.count then (λ w. fault) else (do
  d₁ ←
      copied (ivicv d.private.ivlen) (take v.count v.written)
        (enlarged heap v.count (with_icvlen v.count d))
  pure (true, marked esp_mod_icv d₁))

-- `-ek`
abbrev pub put_key : EspPack → Val → Exec (Bool × EspPack)
put_key d v =
    if ltb bufsiz v.count
    then (λ w. fault)
    else pure (
      true,
      marked esp_mod_key (record d { private = record d.private { key = take v.count v.written } }),
    )

-- `-en`
abbrev pub set_nexthdr : Outcome ℕ → EspPack → Exec (Bool × EspPack)
set_nexthdr (done p) d w = done ((true, marked esp_mod_nexthdr (stored 9 (p ∷ []) d)), w)
set_nexthdr fault d w = fault
set_nexthdr stuck d w = stuck
set_nexthdr exits d w = exits

abbrev pub with_pack : EspState → Bool × EspPack → Bool × EspState
with_pack s (ok, d) = (ok, record s { pack = d })

-- The options that change the pack alone.
unfoldable pub pack_opt :
    Protocols → (ℕ → ℕ) → ℕ → List ℕ → List ℕ → EspPack → Exec (Bool × EspPack)
pack_opt db heap fuel opt arg d =
    let c = get_or opt 1 0 in
    if c == b's'
    then (do
      v ← opt2intn fuel (some arg) 4
      pure (true, marked esp_mod_spi (stored 0 (bytes32 v) d)))
    else if c == b'q'
    then (do
      v ← opt2intn fuel (some arg) 4
      pure (true, marked esp_mod_sequence (stored 4 (bytes32 v) d)))
    else if c == b'p'
    then (do v ← opt2inth fuel (some arg) 1; pure (put_padding heap v d))
    else if c == b'i'
    then (opt2val fuel (some arg) bufsiz >>= put_iv heap d)
    else if c == b'I'
    then (opt2val fuel (some arg) bufsiz >>= put_icv heap d)
    else if c == b'k'
    then (opt2val fuel (some arg) bufsiz >>= put_key d)
    else if c == b'n'
    then set_nexthdr (name_to_proto db arg) d
    else pure (true, d)
