-- ===== src/Gre.antt =====
-- gre.c: the GRE header, whose optional words move as options are added.
pub mod Layout
pub mod Words
pub mod Options
pub mod Finalize
use sendip.Base.{
  ℕ, zero, suc, ◌+◌, ◌-◌, ◌*◌, ◌/◌, ◌%◌, ◌^◌, List, [], ◌∷◌, ◌++◌, Option, none, some, Bool, true,
  false,
}
use sendip.Base.{
  ◌&&◌, not, ◌==◌, ltb, leb, if◌then◌else◌, length, get_or, set, grown, u16, u32, htons, htonl,
  bytes16, bytes32, bit_and, bit_or,
}
use sendip.Base.Flags.{has, mark}
use sendip.World.{World, Outcome, done, fault, stuck, exits, Exec, pure, ◌>>=◌}
use sendip.Csum.{csumv}
use sendip.Headers.{Scan, found, absent, off_end, inner_header}
use sendip.Args.Number.{opt2intn, opt2inth}
use sendip.Pack.{SendipData, Frame}

-- `gre_info` is kept as its 32-bit words.
pub record GreHeader : Type 0 where
  pub gre_flag : ℕ
  pub gre_protocol : ℕ
  pub gre_info : List ℕ

abbrev pub GreData : Type 0
GreData = SendipData GreHeader

abbrev pub word_bytes : List ℕ → List ℕ
word_bytes [] = []
word_bytes (v ∷ words) = bytes32 v ++ word_bytes words

abbrev pub gre_data : GreData → List ℕ
gre_data d =
    bytes16 d.header.gre_flag ++ (bytes16 d.header.gre_protocol ++ word_bytes d.header.gre_info)

-- The flags as they stand in memory, `htons(GRE_CSUM)` and so on.
abbrev pub gre_csum : ℕ
gre_csum = htons (2 ^ 15)

abbrev pub gre_routing : ℕ
gre_routing = htons (2 ^ 14)

abbrev pub gre_key : ℕ
gre_key = htons (2 ^ 13)

abbrev pub gre_seq : ℕ
gre_seq = htons (2 ^ 12)

abbrev pub gre_strict : ℕ
gre_strict = htons (2 ^ 11)

abbrev pub gre_rec : ℕ
gre_rec = htons 1792

abbrev pub gre_version : ℕ
gre_version = htons 7

abbrev pub gre_max_rec : ℕ
gre_max_rec = 7

abbrev pub gre_max_version : ℕ
gre_max_version = 7

abbrev pub gre_rec_shift : ℕ
gre_rec_shift = 3

abbrev pub eth_p_ip : ℕ
eth_p_ip = 2048

abbrev pub eth_p_ipv6 : ℕ
eth_p_ipv6 = 34525

abbrev pub gre_mod_checksum : ℕ
gre_mod_checksum = 1

abbrev pub gre_mod_routing : ℕ
gre_mod_routing = 2 ^ 1

abbrev pub gre_mod_key : ℕ
gre_mod_key = 2 ^ 2

abbrev pub gre_mod_sequence : ℕ
gre_mod_sequence = 2 ^ 3

abbrev pub gre_mod_strict : ℕ
gre_mod_strict = 2 ^ 4

abbrev pub gre_mod_recursion : ℕ
gre_mod_recursion = 2 ^ 5

abbrev pub gre_mod_version : ℕ
gre_mod_version = 2 ^ 6

abbrev pub gre_mod_protocol : ℕ
gre_mod_protocol = 2 ^ 7

abbrev pub gre_mod_offset : ℕ
gre_mod_offset = 2 ^ 8

abbrev pub initialize : GreData
initialize = record {
  header = record { gre_flag = 0; gre_protocol = 0; gre_info = 0 ∷ [] };
  tail = [];
  modified = 0;
}

-- The word of `gre_info` for a flag.
unfoldable pub gre_where : ℕ → ℕ → ℕ
gre_where flags addflag =
    if addflag == gre_csum
    then 0
    else if addflag == gre_key
    then (if has flags gre_csum then 1 else 0)
    else if addflag == gre_seq
    then (if has flags gre_csum then 1 else 0) + (if has flags gre_key then 1 else 0)
    else if addflag == gre_routing
    then (if has flags gre_key then 2 else 1) + (if has flags gre_seq then 1 else 0)
    else 0

-- `size`: sizeof(gre_header), which counts one word of `gre_info`, and a word for each flag.
unfoldable pub wanted_size : ℕ → ℕ
wanted_size newflags =
    8
    + (if has newflags gre_csum then 4 else 0)
    + (if has newflags gre_key then 4 else 0)
    + (if has newflags gre_seq then 4 else 0)
    + (if has newflags gre_routing then (if has newflags gre_csum then 4 else 8) else 0)

-- `while (--endspot > ourspot)`, for an `endspot` that was just decremented.
unfoldable pub shove : ℕ → ℕ → List ℕ → List ℕ
shove zero ourspot info = info
shove (suc e) ourspot info =
    let rest = shove e ourspot (set info (suc e) (get_or info e 0)) in
    if ltb ourspot (suc e) then rest else info

abbrev pub with_info : List ℕ → GreData → GreData
with_info info d = record d { header = record d.header { gre_info = info } }

-- The space for `size` bytes, with the new word at `ourspot` zeroed.
unfoldable pub make_room : (ℕ → ℕ) → ℕ → ℕ → GreData → GreData
make_room heap size ourspot d =
    let info = d.header.gre_info in
    let larger = grown heap ((size - 4) / 4) info in
    if leb size (4 + 4 * length info)
    then d
    else with_info (set (shove ((size - 8) / 4 - 1) ourspot larger) ourspot 0) d

-- `gre_resize(pack, flags, htons(GRE_CSUM))`, which does not call itself.
unfoldable pub resize_csum : (ℕ → ℕ) → ℕ → GreData → GreData
resize_csum heap flags d =
    let newflags = bit_or flags gre_csum in
    if newflags == flags
    then d
    else make_room heap (wanted_size newflags) (gre_where flags gre_csum) d

-- With a routing field the space for checksum and offset is made first.
unfoldable pub gre_resize : (ℕ → ℕ) → ℕ → ℕ → GreData → GreData
gre_resize heap flags addflag d =
    let newflags = bit_or flags addflag in
    let first =
      if has newflags gre_routing && not (has newflags gre_csum)
      then resize_csum heap flags d
      else d in
    if newflags == flags
    then d
    else make_room heap (wanted_size newflags) (gre_where flags addflag) first

abbrev pub with_flag : ℕ → GreData → GreData
with_flag flag d = record d { header = record d.header { gre_flag = flag } }

abbrev pub marked : ℕ → GreData → GreData
marked bit d = record d { modified = mark d.modified bit }

-- `gre_info.sixteen[GRE_CHECKSUM_FIELD]` and `gre_info.sixteen[GRE_OFFSET_FIELD]`: the halves of
-- the first word.
abbrev pub put_checksum : ℕ → GreData → GreData
put_checksum v d =
    let info = d.header.gre_info in
    with_info (set info 0 (get_or info 0 0 / 2 ^ 16 * 2 ^ 16 + u16 v)) d

abbrev pub put_offset : ℕ → GreData → GreData
put_offset v d =
    let info = d.header.gre_info in
    with_info (set info 0 (get_or info 0 0 % 2 ^ 16 + u16 v * 2 ^ 16)) d

abbrev pub add_flag : ℕ → GreData → GreData
add_flag flag d = with_flag (bit_or d.header.gre_flag flag) d

-- `-gr`, `-gk` and `-gs`: the word of a flag. The value is stored before the flag is set.
unfoldable pub put_word : (ℕ → ℕ) → ℕ → ℕ → ℕ → GreData → GreData
put_word heap flag bit v d =
    let room = gre_resize heap d.header.gre_flag flag d in
    marked bit (
      add_flag flag
        (with_info (set room.header.gre_info (gre_where room.header.gre_flag flag) (u32 v)) room))

-- The space for a checksum with its flag, `-gC`.
unfoldable pub put_csum : (ℕ → ℕ) → GreData → GreData
put_csum heap d = add_flag gre_csum (gre_resize heap d.header.gre_flag gre_csum d)

-- `-ge`
unfoldable pub put_recursion : ℕ → GreData → Bool × GreData
put_recursion v d =
    let flag = bit_and d.header.gre_flag (65535 - gre_rec) in
    if ltb gre_max_rec v then (false, d) else (
      true,
      marked gre_mod_recursion
          (with_flag (bit_or flag (bit_and gre_rec (htons (u16 (v * 2 ^ gre_rec_shift))))) d),
    )

-- `-gv`
unfoldable pub put_version : ℕ → GreData → Bool × GreData
put_version v d =
    let flag = bit_and d.header.gre_flag (65535 - gre_version) in
    if ltb gre_max_version v
    then (false, d)
    else (true, marked gre_mod_version (with_flag (bit_or flag (bit_and gre_version (htons v))) d))

abbrev pub with_protocol : ℕ → GreData → GreData
with_protocol v d = record d { header = record d.header { gre_protocol = v } }

unfoldable pub do_opt : (ℕ → ℕ) → ℕ → List ℕ → List ℕ → GreData → Exec (Bool × GreData)
do_opt heap fuel opt arg d =
    let c = get_or opt 1 0 in
    if c == b'c'
    then (if has d.header.gre_flag gre_csum then pure (false, d) else (do
      v ← opt2intn fuel (some arg) 2
      pure (true, marked gre_mod_checksum (put_checksum v (put_csum heap d)))))
    else if c == b'C'
    then (if has d.header.gre_flag gre_csum then pure (false, d) else pure (true, put_csum heap d))
    else if c == b'r'
    then (do
      v ← opt2intn fuel (some arg) 4
      pure (true, put_word heap gre_routing gre_mod_routing v d))
    else if c == b'k'
    then (do v ← opt2intn fuel (some arg) 4; pure (true, put_word heap gre_key gre_mod_key v d))
    else if c == b's'
    then (do
      v ← opt2intn fuel (some arg) 4
      pure (true, put_word heap gre_seq gre_mod_sequence v d))
    else if c == b'S'
    then pure (true, marked gre_mod_strict (add_flag gre_strict d))
    else if c == b'e'
    then (do v ← opt2inth fuel (some arg) 2; pure (put_recursion (u16 v) d))
    else if c == b'v'
    then (do v ← opt2intn fuel (some arg) 2; pure (put_version (u16 v) d))
    else if c == b'p'
    then (do
      v ← opt2intn fuel (some arg) 2
      pure (true, marked gre_mod_protocol (with_protocol (u16 v) d)))
    else if c == b'o'
    then (do
      v ← opt2inth fuel (some arg) 2
      pure (
        true,
        marked gre_mod_offset
            (put_offset (htonl (u32 v)) (gre_resize heap d.header.gre_flag gre_csum d)),
      ))
    else pure (true, d)

abbrev pub by_header : ℕ → GreData → GreData
by_header c d =
    if c == b'i'
    then with_protocol (htons eth_p_ip) d
    else if c == b'6'
    then with_protocol (htons eth_p_ipv6) d
    else d

-- `gre_protocol` by the next IP header within; `hdrs[-1]` where there is none.
unfoldable pub infer_protocol : Frame → List ℕ → ℕ → GreData → Outcome GreData
infer_protocol f hdrs index d =
    if has d.modified gre_mod_protocol
    then done d
    else elim (inner_header hdrs index (b'i' ∷ b'6' ∷ [])) [
      | found i ↦ done (by_header (get_or hdrs i 0) d)
      | absent ↦ done (by_header f.before d)
      | off_end ↦ fault
    ]

unfoldable pub sum_up : List ℕ → GreData → GreData
sum_up rest d =
    if has d.header.gre_flag gre_csum && not (has d.modified gre_mod_checksum)
    then put_checksum (csumv (gre_data d ∷ rest ∷ [] ∷ [])) d
    else d

unfoldable pub finalize : Frame → List ℕ → ℕ → List ℕ → GreData → Outcome (Bool × GreData)
finalize f hdrs index rest d = elim (infer_protocol f hdrs index d) [
  | done d' ↦ done (true, sum_up rest d')
  | fault ↦ fault
  | stuck ↦ stuck
  | exits ↦ exits
]
