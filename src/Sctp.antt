-- ===== src/Sctp.antt =====
-- sctp.c: SCTP, whose chunks grow one at a time.
pub mod Options
pub mod Chunks
pub mod Checksum
use sendip.Base.{
  ℕ, zero, suc, ◌+◌, ◌-◌, ◌*◌, ◌/◌, ◌%◌, ◌^◌, List, [], ◌∷◌, ◌++◌, Option, none, some, Bool, true,
  false, ◌==◌, ltb, if◌then◌else◌, length, get_or, take, replicate, write_bytes, grown, u16, u32,
  htons, htonl, bytes16, bytes32, from_bytes,
}
use sendip.Base.Flags.{has, mark}
use sendip.World.{World, Outcome, done, fault, stuck, exits, Exec, pure, ◌>>=◌}
use sendip.Libc.{atoi}
use sendip.Crc.{crc32}
use sendip.Args.Number.{opt2intn, opt2inth}
use sendip.Args.Stream.{Val}
use sendip.Args.Value.{opt2val}
use sendip.Args.Split.{parsenargs}
use sendip.Args.Split.Words.{read_args}

-- The bytes of the pack: `source`, `dest`, `vtag` and `checksum` in the first twelve, then chunks.
-- `currentchunk`, a static variable of do_opt, is the offset of a chunk header, or NULL.
pub record SctpPack : Type 0 where
  pub data' : List ℕ
  pub modified : ℕ
  pub currentchunk : Option ℕ

abbrev pub sctp_mod_source : ℕ
sctp_mod_source = 1

abbrev pub sctp_mod_dest : ℕ
sctp_mod_dest = 2 ^ 1

abbrev pub sctp_mod_vtag : ℕ
sctp_mod_vtag = 2 ^ 2

abbrev pub sctp_mod_checksum : ℕ
sctp_mod_checksum = 2 ^ 3

abbrev pub octet_max : ℕ
octet_max = 255

abbrev pub bufsiz : ℕ
bufsiz = 8192

abbrev pub cid_init : ℕ
cid_init = 1

abbrev pub initialize : SctpPack
initialize = record { data' = replicate 12 0; modified = 0; currentchunk = none }

abbrev pub marked : ℕ → SctpPack → SctpPack
marked bit d = record d { modified = mark d.modified bit }

abbrev pub stored : ℕ → List ℕ → SctpPack → SctpPack
stored i bytes d = record d { data' = write_bytes i bytes d.data' }

-- `currentchunk = add_chunk(pack, type)`: a header of type, flags 0 and length 4.
abbrev pub add_chunk : ℕ → SctpPack → SctpPack
add_chunk type d = record d {
  data' = d.data' ++ (type ∷ 0 ∷ bytes16 (htons 4));
  currentchunk = some (length d.data');
}

-- `ntohs(chunk->length)`
abbrev pub chunk_length : ℕ → List ℕ → ℕ
chunk_length chunk block = get_or block (chunk + 2) 0 * 256 + get_or block (chunk + 3) 0

-- `memcpy(chunk + i, data, length)` counts `i` in chunk headers, which are four bytes.
abbrev pub copied : ℕ → ℕ → List ℕ → List ℕ → Outcome (List ℕ)
copied chunk i bytes block =
    if ltb (length block) (chunk + 4 * i + length bytes)
    then fault
    else done (write_bytes (chunk + 4 * i) bytes block)

-- The block with room for `length` bytes more, and the new length in the chunk's header.
abbrev pub with_room : (ℕ → ℕ) → ℕ → ℕ → List ℕ → List ℕ
with_room heap chunk more block =
    let larger = grown heap (length block + more) block in
    write_bytes (chunk + 2) (bytes16 (htons (u16 (chunk_length chunk larger + more)))) larger

abbrev pub grown_to : ℕ → SctpPack → Outcome (List ℕ) → Outcome SctpPack
grown_to chunk d (done block) = done (record d { data' = block; currentchunk = some chunk })
grown_to chunk d fault = fault
grown_to chunk d stuck = stuck
grown_to chunk d exits = exits

-- The length is the count of the bytes. NULL is followed.
unfoldable pub grow_chunk : (ℕ → ℕ) → List ℕ → SctpPack → Outcome SctpPack
grow_chunk heap bytes d = elim d.currentchunk [
  | none ↦ fault
  | some chunk ↦ grown_to chunk d (
      copied chunk (chunk_length chunk d.data') bytes (with_room heap chunk (length bytes) d.data'))
]

abbrev pub round2 : ℕ → ℕ
round2 number = if number % 2 == 0 then number else number + 1

abbrev pub round4 : ℕ → ℕ
round4 number = if number % 4 == 0 then number else number + 4 - number % 4

-- The zeros behind the bytes, at a place that is counted in chunk headers too.
abbrev pub then_zeroed : ℕ → ℕ → ℕ → Outcome (List ℕ) → Outcome (List ℕ)
then_zeroed chunk i n (done block) = copied chunk i (replicate n 0) block
then_zeroed chunk i n fault = fault
then_zeroed chunk i n stuck = stuck
then_zeroed chunk i n exits = exits

unfoldable pub grow_chunk_round4 : (ℕ → ℕ) → List ℕ → SctpPack → Outcome SctpPack
grow_chunk_round4 heap bytes d =
    let roundup = u16 (round4 (length bytes)) in
    if roundup == length bytes then grow_chunk heap bytes d else elim d.currentchunk [
      | none ↦ fault
      | some chunk ↦
          let i = chunk_length chunk d.data' in
          grown_to chunk d (
            then_zeroed chunk (i + length bytes) (roundup - length bytes)
              (copied chunk i bytes (with_room heap chunk roundup d.data')))
    ]

abbrev pub grown_ok : Outcome SctpPack → Exec (Bool × SctpPack)
grown_ok (done d) w = done ((true, d), w)
grown_ok fault w = fault
grown_ok stuck w = stuck
grown_ok exits w = exits

-- `if (!currentchunk) currentchunk = add_chunk(pack, 0);`
abbrev pub with_chunk : SctpPack → SctpPack
with_chunk d = elim d.currentchunk [ none ↦ add_chunk 0 d | some chunk ↦ d ]

-- A write into the header of the current chunk.
abbrev pub chunk_stored : ℕ → List ℕ → SctpPack → SctpPack
chunk_stored i bytes d = elim d.currentchunk [ none ↦ d | some chunk ↦ stored (chunk + i) bytes d ]

-- The checksum is taken over the pack alone, as it stands.
unfoldable pub finalize : SctpPack → Bool × SctpPack
finalize d =
    if has d.modified sctp_mod_checksum
    then (true, d)
    else (true, stored 8 (bytes32 (crc32 d.data')) d)
