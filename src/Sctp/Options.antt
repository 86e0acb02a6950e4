-- ===== src/Sctp/Options.antt =====
-- sctp.c: the options of do_opt.
use sendip.Base.{
  ℕ, ◌+◌, ◌-◌, ◌*◌, List, [], ◌∷◌, ◌++◌, Option, none, some, Bool, true, false, ◌==◌, ltb,
  if◌then◌else◌, length, get_or, take, replicate, u16, htons, htonl, bytes16, bytes32,
}
use sendip.Base.Flags.{has}
use sendip.World.{Outcome, done, fault, stuck, exits, Exec, pure, ◌>>=◌}
use sendip.Libc.{atoi}
use sendip.Args.Number.{opt2intn, opt2inth}
use sendip.Args.Stream.{Val}
use sendip.Args.Value.{opt2val}
use sendip.Args.Split.{parsenargs}
use sendip.Args.Split.Words.{read_args}
use sendip.Sctp.{
  SctpPack, sctp_mod_source, sctp_mod_dest, sctp_mod_vtag, sctp_mod_checksum, octet_max, bufsiz,
  cid_init, marked, stored, add_chunk, grow_chunk, grow_chunk_round4, round2, grown_ok, with_chunk,
  chunk_stored,
}

-- `memcpy(&sctp->vtag, temp, …)`: four bytes at most, and zeros where there are fewer.
abbrev pub put_vtag : Val → SctpPack → SctpPack
put_vtag v d =
    let bytes = take (if ltb v.count 4 then v.count else 4) v.written in
    stored 4 (bytes ++ replicate (4 - length bytes) 0) d

-- `-sT`
abbrev pub put_type : ℕ → SctpPack → Bool × SctpPack
put_type v d =
    let d' = add_chunk v d in
    let vtag = bytes32 (if v == cid_init then 0 else 1) in
    if ltb octet_max v
    then (false, d)
    else if has d.modified sctp_mod_vtag
    then (true, d')
    else (true, stored 4 vtag d')

-- `-sF`
abbrev pub put_flags : ℕ → SctpPack → Bool × SctpPack
put_flags v d =
    if ltb octet_max v then (false, d) else (true, chunk_stored 1 (v ∷ []) (with_chunk d))

-- `-sD`: the length is cut to 16 bits, and reading past the end of `temp` faults.
abbrev pub put_data : (ℕ → ℕ) → SctpPack → Val → Exec (Bool × SctpPack)
put_data heap d v =
    let n = u16 v.count in
    if v.count == 0
    then pure (true, d)
    else if ltb bufsiz n
    then (λ w. fault)
    else grown_ok (grow_chunk heap (take n v.written) (with_chunk d))

-- The separators " ,:.|"
abbrev pub field_texts : ℕ → List ℕ → List (List ℕ)
field_texts limit arg =
    read_args (parsenargs (some (b' ' ∷ b',' ∷ b':' ∷ b'.' ∷ b'|' ∷ [])) limit arg)

-- A field of `-sI` that was given, read behind those that follow it.
abbrev pub field_or : ℕ → ℕ → ℕ → List (List ℕ) → ℕ → Exec ℕ
field_or fuel i size texts default w =
    if ltb i (length texts)
    then opt2intn fuel (some (get_or texts i [])) size w
    else done (default, w)

-- `-sI`
unfoldable pub put_init : (ℕ → ℕ) → ℕ → List ℕ → SctpPack → Exec (Bool × SctpPack)
put_init heap fuel arg d = (do
  initial_tsn ← field_or fuel 4 4 (field_texts 5 arg) (htonl 1)
  num_inbound_streams ← field_or fuel 3 2 (field_texts 5 arg) (htons 1)
  num_outbound_streams ← field_or fuel 2 2 (field_texts 5 arg) (htons 1)
  a_rwnd ← field_or fuel 1 4 (field_texts 5 arg) (htonl 4096)
  init_tag ← field_or fuel 0 4 (field_texts 5 arg) (htonl 1)
  grown_ok (
      grow_chunk heap
        (bytes32 init_tag
          ++ (bytes32 a_rwnd
              ++ (bytes16 num_outbound_streams
                  ++ (bytes16 num_inbound_streams ++ bytes32 initial_tsn))))
        (add_chunk cid_init d)))

-- A parameter of type and length in front of its value.
abbrev pub param : ℕ → ℕ → List ℕ → List ℕ
param type size value = bytes16 (htons type) ++ (bytes16 (htons size) ++ value)

abbrev pub put_address : (ℕ → ℕ) → ℕ → ℕ → Option (List ℕ) → SctpPack → Exec (Bool × SctpPack)
put_address heap type size none d = pure (false, d)
put_address heap type size (some addr) d = grown_ok (grow_chunk heap (param type size addr) d)

abbrev pub then_grown : Outcome SctpPack → (SctpPack → Outcome SctpPack) → Outcome SctpPack
then_grown (done d) f = f d
then_grown fault f = fault
then_grown stuck f = stuck
then_grown exits f = exits

-- `-sH`: the name is stored with its '\0'.
abbrev pub put_hostname : (ℕ → ℕ) → List ℕ → SctpPack → Exec (Bool × SctpPack)
put_hostname heap arg d = grown_ok (
    then_grown (grow_chunk heap (param 11 (u16 (4 + length arg + 1)) []) d)
      (grow_chunk_round4 heap (arg ++ (0 ∷ []))))

-- The types as 16-bit numbers, one zero behind them if their count is odd.
abbrev pub address_types : List (List ℕ) → List ℕ
address_types [] = []
address_types (text ∷ texts) = bytes16 (htons (u16 (atoi text))) ++ address_types texts

-- `-sA`
abbrev pub put_types : (ℕ → ℕ) → List ℕ → SctpPack → Exec (Bool × SctpPack)
put_types heap arg d =
    let texts = field_texts 8 arg in
    let types = address_types texts in
    grown_ok (
      then_grown (grow_chunk heap (param 12 (4 + 2 * length texts) []) d)
        (grow_chunk heap (types ++ replicate (2 * round2 (length texts) - length types) 0)))

-- `inet_aton` and `inet_pton6` give the four and the sixteen bytes of an address.
unfoldable pub do_opt :
    (List ℕ → Option (List ℕ))
    → (List ℕ → Option (List ℕ))
    → (ℕ → ℕ)
    → ℕ
    → List ℕ
    → List ℕ
    → SctpPack
    → Exec (Bool × SctpPack)
do_opt inet_aton inet_pton6 heap fuel opt arg d =
    let c = get_or opt 1 0 in
    if c == b's'
    then (do
      v ← opt2intn fuel (some arg) 2
      pure (true, stored 0 (bytes16 v) (marked sctp_mod_source d)))
    else if c == b'd'
    then (do
      v ← opt2intn fuel (some arg) 2
      pure (true, stored 2 (bytes16 v) (marked sctp_mod_dest d)))
    else if c == b'v'
    then (do v ← opt2val fuel (some arg) bufsiz; pure (true, put_vtag v (marked sctp_mod_vtag d)))
    else if c == b'c'
    then (do
      v ← opt2intn fuel (some arg) 4
      pure (true, stored 2 (bytes16 (u16 v)) (marked sctp_mod_checksum d)))
    else if c == b'T'
    then (do v ← opt2inth fuel (some arg) 2; pure (put_type (u16 v) d))
    else if c == b'F'
    then (do v ← opt2inth fuel (some arg) 2; pure (put_flags (u16 v) d))
    else if c == b'L'
    then (do v ← opt2intn fuel (some arg) 2; pure (true, chunk_stored 2 (bytes16 v) (with_chunk d)))
    else if c == b'D'
    then (opt2val fuel (some arg) bufsiz >>= put_data heap d)
    else if c == b'I'
    then put_init heap fuel arg d
    else if c == b'4'
    then put_address heap 5 8 (inet_aton arg) d
    else if c == b'6'
    then put_address heap 6 20 (inet_pton6 arg) d
    else if c == b'C'
    then (do v ← opt2intn fuel (some arg) 4; grown_ok (grow_chunk heap (param 7 8 (bytes32 v)) d))
    else if c == b'H'
    then put_hostname heap arg d
    else if c == b'A'
    then put_types heap arg d
    else if c == b'E'
    then grown_ok (grow_chunk heap (param 32768 4 []) d)
    else if c == b'W'
    then grown_ok (grow_chunk heap (param 49152 4 []) d)
    else if c == b'Y'
    then (do
      v ← opt2intn fuel (some arg) 4
      grown_ok (grow_chunk heap (param 49158 8 (bytes32 v)) d))
    else pure (true, d)
