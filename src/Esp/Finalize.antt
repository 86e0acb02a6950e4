-- ===== src/Esp/Finalize.antt =====
-- esp.c: the crypto modules, and finalize.
use sendip.Base.{
  ℕ, ◌+◌, ◌-◌, ◌%◌, List, [], ◌∷◌, ◌++◌, Option, none, some, Bool, true, false, not, ◌&&◌, ◌==◌,
  ltb, if◌then◌else◌, length, get_or, take, drop, replicate, write_bytes,
}
use sendip.Base.Flags.{has}
use sendip.World.{Outcome, done, fault, stuck, exits, Exec, pure, ◌>>=◌}
use sendip.Headers.{header_type}
use sendip.Protoname.{Protocols}
use sendip.Pack.{Frame, next_hdr}
use sendip.Esp.{
  EspPack, EspPrivate, EspState, CryptoModule, esp_mod_padding, esp_mod_nexthdr, esp_mod_auth,
  esp_mod_crypt, ivicv, marked, stored, pack_opt, with_pack,
}

abbrev pub initialized : CryptoModule → EspState → Bool × EspState
initialized m s = elim m.cryptoinit [
  | none ↦ (true, s)
  | some cryptoinit ↦ with_pack s (cryptoinit s.pack)
]

-- `-ea`, with what `load_crypto_module` finds.
abbrev pub put_auth : Option CryptoModule → EspState → Bool × EspState
put_auth none s = (false, record s { authesp = none })
put_auth (some m) s =
    initialized m (record s { pack = marked esp_mod_auth s.pack; authesp = some m })

-- `-ec`
abbrev pub put_crypt : Option CryptoModule → EspState → Bool × EspState
put_crypt none s = (false, record s { cryptoesp = none })
put_crypt (some m) s =
    initialized m (record s { pack = marked esp_mod_crypt s.pack; cryptoesp = some m })

unfoldable pub do_opt :
    Protocols
    → (List ℕ → Option CryptoModule)
    → (ℕ → ℕ)
    → ℕ
    → List ℕ
    → List ℕ
    → EspState
    → Exec (Bool × EspState)
do_opt db load_crypto_module heap fuel opt arg s =
    let c = get_or opt 1 0 in
    if c == b'a'
    then pure (put_auth (load_crypto_module arg) s)
    else if c == b'c'
    then pure (put_crypt (load_crypto_module arg) s)
    else (do r ← pack_opt db heap fuel opt arg s.pack; pure (with_pack s r))

-- The type of the next header, unless the user set it.
abbrev pub fill_nexthdr : Frame → List ℕ → ℕ → EspPack → EspPack
fill_nexthdr f hdrs index d =
    if has d.modified esp_mod_nexthdr
    then d
    else stored 9 (header_type (next_hdr f hdrs index) ∷ []) d

-- `(6 - ((data->alloc_len + priv->ivlen) & 03)) & 03`
abbrev pub padding_for : ℕ → ℕ
padding_for n = (6 - n % 4) % 4

abbrev pub fill_padding : ℕ → EspPack → EspPack
fill_padding data_len d =
    if has d.modified esp_mod_padding
    then d
    else stored 8 (padding_for (data_len + d.private.ivlen) ∷ []) d

abbrev pub padlen : EspPack → ℕ
padlen d = get_or d.data' 8 0

abbrev pub nexthdr : EspPack → ℕ
nexthdr d = get_or d.data' 9 0

-- What stands behind the data in the end.
abbrev pub trailer : EspPack → List ℕ → List ℕ
trailer d icv = replicate (padlen d) 0 ++ (padlen d ∷ nexthdr d ∷ icv)

-- The ICV as it is read, before anything moves; without one, nothing is read.
abbrev pub icv_of : EspPack → List ℕ → List ℕ
icv_of d block = take d.private.icvlen (drop (ivicv d.private.ivlen) block)

-- The length from the header on in the end.
abbrev pub final_length : EspPack → ℕ → ℕ
final_length d data_len = 8 + (d.private.ivlen + (data_len + (padlen d + (2 + d.private.icvlen))))

-- The moves, one after the other, in the bytes of the pack and the data behind it.
abbrev pub moved : EspPack → List ℕ → List ℕ
moved d rest =
    let block = d.data' ++ rest in
    let iv = take d.private.ivlen (drop (ivicv 0) block) in
    let with_iv = write_bytes 8 iv block in
    let where_data = 8 + d.private.ivlen in
    let with_data = write_bytes where_data (drop (length d.data') with_iv) with_iv in
    take (final_length d (length rest))
      (write_bytes (where_data + length rest) (trailer d (icv_of d block)) with_data)

-- A read of the ICV or a write of the trailer behind the packet is a fault.
unfoldable pub rearrange : EspPack → List ℕ → Outcome (List ℕ)
rearrange d rest =
    let size = length d.data' + length rest in
    if not (d.private.icvlen == 0) && ltb size (ivicv d.private.ivlen + d.private.icvlen)
    then fault
    else if ltb size (final_length d (length rest))
    then fault
    else done (moved d rest)

abbrev pub module_run : Option CryptoModule → EspPrivate → Bool × List ℕ → Bool × List ℕ
module_run none private r = r
module_run (some m) private (ok, bytes) = elim m.cryptomod [
  | none ↦ (ok, bytes)
  | some cryptomod ↦ if ok then cryptomod private bytes else (ok, bytes)
]

abbrev pub run_modules : EspState → EspPrivate → Outcome (List ℕ) → Outcome (Bool × List ℕ)
run_modules s private (done bytes) =
    done (module_run s.cryptoesp private (module_run s.authesp private (true, bytes)))
run_modules s private fault = fault
run_modules s private stuck = stuck
run_modules s private exits = exits

-- The bytes from the ESP header to the end, of which eight are the header's in the end.
unfoldable pub finalize : Frame → List ℕ → ℕ → List ℕ → EspState → Outcome (Bool × List ℕ)
finalize f hdrs index rest s =
    let d = fill_padding (length rest) (fill_nexthdr f hdrs index s.pack) in
    run_modules s d.private (rearrange d rest)
