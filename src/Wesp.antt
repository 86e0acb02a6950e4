-- ===== src/Wesp.antt =====
-- wesp.c: the wrapped ESP header.
pub mod Private
use sendip.Base.{
  ℕ, ◌+◌, ◌-◌, ◌*◌, ◌^◌, List, [], ◌∷◌, ◌++◌, Option, none, some, Bool, true, false, not, ◌&&◌,
  ◌||◌, ◌==◌, ltb, if◌then◌else◌, length, get_or, u8, u16,
}
use sendip.Base.Flags.{has, mark}
use sendip.World.{World, Outcome, done, fault, stuck, exits, Exec, pure, ◌>>=◌}
use sendip.Headers.{header_type}
use sendip.Protoname.{Protocols, name_to_proto}
use sendip.Args.Number.{opt2inth}
use sendip.Pack.{SendipData, Frame, next_hdr}
use sendip.Esp.{EspPrivate}

-- `wesp_header`; the padding is the tail.
pub record WespHeader : Type 0 where
  pub nexthdr : ℕ
  pub hdrlen : ℕ
  pub trlrlen : ℕ
  pub reserved : ℕ
  pub padded : ℕ
  pub encrypted : ℕ
  pub version : ℕ

abbrev pub WespData : Type 0
WespData = SendipData WespHeader

abbrev pub wesp_mod_version : ℕ
wesp_mod_version = 1

abbrev pub wesp_mod_encrypted : ℕ
wesp_mod_encrypted = 2 ^ 1

abbrev pub wesp_mod_padded : ℕ
wesp_mod_padded = 2 ^ 2

abbrev pub wesp_mod_reserved : ℕ
wesp_mod_reserved = 2 ^ 3

abbrev pub wesp_mod_hdrlen : ℕ
wesp_mod_hdrlen = 2 ^ 4

abbrev pub wesp_mod_trlrlen : ℕ
wesp_mod_trlrlen = 2 ^ 5

abbrev pub wesp_mod_nexthdr : ℕ
wesp_mod_nexthdr = 2 ^ 6

abbrev pub duo_max : ℕ
duo_max = 3

abbrev pub quartet_max : ℕ
quartet_max = 15

abbrev pub octet_max : ℕ
octet_max = 255

-- The bit fields of the flags from the lowest bit on.
abbrev pub wesp_data : WespData → List ℕ
wesp_data d =
    d.header.nexthdr
    ∷ d.header.hdrlen
    ∷ d.header.trlrlen
    ∷ (d.header.reserved
        + (16 * d.header.padded + (32 * d.header.encrypted + 64 * d.header.version)))
    ∷ d.tail

abbrev pub initialize : WespData
initialize = record {
  header = record {
    nexthdr = 0;
    hdrlen = 0;
    trlrlen = 0;
    reserved = 0;
    padded = 0;
    encrypted = 0;
    version = 0;
  };
  tail = [];
  modified = 0;
}

-- The four bytes that realloc adds are cleared as the first word of the padding.
abbrev pub addpadding : WespData → WespData
addpadding d = record d { tail = 0 ∷ 0 ∷ 0 ∷ 0 ∷ [] }

abbrev pub marked : ℕ → WespData → WespData
marked bit d = record d { modified = mark d.modified bit }

-- A field that takes values up to `most`. The mark is set where the value is refused, too.
abbrev pub limited : ℕ → ℕ → (ℕ → WespHeader → WespHeader) → ℕ → WespData → Bool × WespData
limited bit most put value d =
    if ltb most value
    then (false, marked bit d)
    else (true, marked bit (record d { header = put value d.header }))

abbrev pub put_version : ℕ → WespHeader → WespHeader
put_version v h = record h { version = v }

abbrev pub put_encrypted : ℕ → WespHeader → WespHeader
put_encrypted v h = record h { encrypted = v }

abbrev pub put_reserved : ℕ → WespHeader → WespHeader
put_reserved v h = record h { reserved = v }

abbrev pub put_hdrlen : ℕ → WespHeader → WespHeader
put_hdrlen v h = record h { hdrlen = v }

abbrev pub put_trlrlen : ℕ → WespHeader → WespHeader
put_trlrlen v h = record h { trlrlen = v }

-- `-wp`. The flag is stored through the pointer from before addpadding: where realloc has moved the
-- block, which `moves` tells, it is a write to freed memory.
unfoldable pub put_padded : Bool → ℕ → WespData → Exec (Bool × WespData)
put_padded moves value d w =
    let grows = not (value == 0) && not (has d.modified wesp_mod_padded) in
    let d' = if grows then addpadding d else d in
    if ltb 1 value
    then done ((false, d), w)
    else if grows && moves
    then fault
    else done (
      (true, marked wesp_mod_padded (record d' { header = record d'.header { padded = value } })),
      w,
    )

-- `-wn`
unfoldable pub set_nexthdr : Outcome ℕ → WespData → Exec (Bool × WespData)
set_nexthdr (done p) d w =
    done
      ((true, marked wesp_mod_nexthdr (record d { header = record d.header { nexthdr = p } })), w)
set_nexthdr fault d w = fault
set_nexthdr stuck d w = stuck
set_nexthdr exits d w = exits

unfoldable pub do_opt : Protocols → Bool → ℕ → List ℕ → List ℕ → WespData → Exec (Bool × WespData)
do_opt db moves fuel opt arg d =
    let c = get_or opt 1 0 in
    let svalue : Exec ℕ = (do v ← opt2inth fuel (some arg) 2; pure (u16 v)) in
    if c == b'v'
    then (do v ← svalue; pure (limited wesp_mod_version duo_max put_version v d))
    else if c == b'e'
    then (do v ← svalue; pure (limited wesp_mod_encrypted 1 put_encrypted v d))
    else if c == b'p'
    then (do v ← svalue; put_padded moves v d)
    else if c == b'r'
    then (do v ← svalue; pure (limited wesp_mod_reserved quartet_max put_reserved v d))
    else if c == b'h'
    then (do v ← svalue; pure (limited wesp_mod_hdrlen octet_max put_hdrlen v d))
    else if c == b't'
    then (do v ← svalue; pure (limited wesp_mod_trlrlen octet_max put_trlrlen v d))
    else if c == b'n'
    then set_nexthdr (name_to_proto db arg) d
    else pure (true, d)

-- `headers[index + 1]`: NULL, the pack of an ESP header, or another pack, whose private data is none
-- of an ESP header.
pub data Behind : Type 0 where
  null : Behind
  esp : EspPrivate → Behind
  other : Behind

abbrev pub is_there : Behind → Bool
is_there null = false
is_there (esp p) = true
is_there other = true

-- The type of the header behind ESP; 0 for a payload that is encrypted or not ESP's.
abbrev pub fill_nexthdr : Frame → List ℕ → ℕ → Behind → WespData → WespData
fill_nexthdr f hdrs index behind d =
    let nextesp = is_there behind && next_hdr f hdrs index == b'e' in
    if has d.modified wesp_mod_nexthdr
    then d
    else if not (d.header.encrypted == 0) || not nextesp
    then record d { header = record d.header { nexthdr = 0 } }
    else record d {
      header = record d.header { nexthdr = header_type (next_hdr f hdrs (index + 1)) };
    }

-- A field of the private data, read where it is needed only.
abbrev pub fill_length :
    ℕ → (EspPrivate → ℕ) → (ℕ → WespHeader → WespHeader) → Behind → WespData → Outcome WespData
fill_length bit read put behind d =
    if has d.modified bit
    then done d
    else if not (d.header.encrypted == 0)
    then done (record d { header = put 0 d.header })
    else elim behind [
      | null ↦ fault
      | esp p ↦ done (record d { header = put (u8 (read p)) d.header })
      | other ↦ fault
    ]

abbrev pub then_fill : Outcome WespData → (WespData → Outcome WespData) → Outcome WespData
then_fill (done d) f = f d
then_fill fault f = fault
then_fill stuck f = stuck
then_fill exits f = exits

unfoldable pub finalize : Frame → List ℕ → ℕ → Behind → WespData → Outcome WespData
finalize f hdrs index behind d =
    let d₁ = fill_nexthdr f hdrs index behind d in
    then_fill
      (fill_length wesp_mod_hdrlen (λ p. length (wesp_data d) + (8 + p.ivlen)) put_hdrlen behind d₁)
      (fill_length wesp_mod_trlrlen (λ p. p.icvlen) put_trlrlen behind)
