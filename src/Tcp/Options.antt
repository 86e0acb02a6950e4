-- ===== src/Tcp/Options.antt =====
-- tcp.c: the TCP options of `do_opt`, `-to…`.
pub mod Fits
use sendip.Base.{
  ℕ, zero, suc, ◌+◌, ◌-◌, ◌%◌, List, [], ◌∷◌, ◌++◌, Option, none, some, Bool, true, false,
}
use sendip.Base.{
  ◌&&◌, ◌||◌, ◌==◌, ltb, if◌then◌else◌, length, take, drop, get_or, u8, u16, bytes16, bytes32,
  htonl,
}
use sendip.Libc.{codes, streq, first_char, rest_of, has_char, scan_unsigned}
use sendip.World.{World, Outcome, done, fault, stuck, Exec, pure, ◌>>=◌}
use sendip.Args.Stream.{Val, str2val}
use sendip.Args.Number.{opt2intn, opt2inth}
use sendip.Pack.{SendipData, TcpHeader}

abbrev pub TcpData : Type 0
TcpData = SendipData TcpHeader

-- None is a write behind the buffer, for a `len` of 0, or a read behind the data.
pub addoption : ℕ → ℕ → List ℕ → TcpData → Option TcpData
addoption opt len data' d =
    if len == 0
    then none
    else if len == 1
    then some (record d { tail = d.tail ++ (opt ∷ []) })
    else if ltb (length data') (len - 2)
    then none
    else some (record d { tail = d.tail ++ (opt ∷ len ∷ take (len - 2) data') })

-- The option is added, and `do_opt` returns TRUE.
abbrev pub added : Option TcpData → Exec (Bool × TcpData)
added none w = fault
added (some d) w = done ((true, d), w)

-- The size of the pointer `dst`, which `-tonum` hands to str2val for that of its buffer.
abbrev pub sizeof_dst : ℕ
sizeof_dst = 8

-- `-tonum`: the argument in hex, its first byte the kind.
pub num_option : List ℕ → TcpData → Exec (Bool × TcpData)
num_option arg d w =
    let val = str2val (b'0' ∷ b'x' ∷ arg) sizeof_dst in
    let kind = get_or val.written 0 (w.junk % 256) in
    if val.count == 1
    then added (addoption kind 1 [] d) w
    else added (addoption kind (val.count + 1) (drop 1 val.written) d) w

-- `-tosack`: at the first ':' or ',' the loop sets the pointer `q` to NULL, and reads through the
-- next address after it. Without them the argument is the right edge, and the left one is 0; for
-- an empty argument the bytes are junk.
pub sack_option : ℕ → List ℕ → TcpData → Exec (Bool × TcpData)
sack_option fuel [] d w = added (addoption 5 10 (bytes32 w.junk ++ bytes32 w.junk) d) w
sack_option fuel (c ∷ s) d w =
    if has_char (c ∷ s) b':' || has_char (c ∷ s) b','
    then fault
    else (do
      re ← opt2intn fuel (some (c ∷ s)) 4
      added (addoption 5 10 (bytes32 0 ++ bytes32 re) d))
        w

-- `-tots`: two numbers with a colon between, each stored in network order.
pub ts_tail : ℕ → List ℕ → TcpData → Exec (Bool × TcpData)
ts_tail tsval s d w =
    if first_char s == b':'
    then elim (scan_unsigned (rest_of s)) [
      | none ↦ done ((false, d), w)
      | some (tsecr, _) ↦
          added (addoption 8 10 (bytes32 (htonl tsval) ++ bytes32 (htonl tsecr)) d) w
    ]
    else done ((false, d), w)

pub ts_option : List ℕ → TcpData → Exec (Bool × TcpData)
ts_option arg d w = elim (scan_unsigned arg) [
  | none ↦ done ((false, d), w)
  | some (tsval, s) ↦ ts_tail tsval s d w
]

-- `name` is `opt + 2`.
pub tcp_option : ℕ → List ℕ → List ℕ → TcpData → Exec (Bool × TcpData)
tcp_option fuel name arg d =
    if streq name (codes "num")
    then num_option arg d
    else if streq name (codes "eol")
    then added (addoption 0 1 [] d)
    else if streq name (codes "nop")
    then added (addoption 1 1 [] d)
    else if streq name (codes "mss")
    then (do mss ← opt2intn fuel (some arg) 2; added (addoption 2 4 (bytes16 (u16 mss)) d))
    else if streq name (codes "wscale")
    then (do wscale ← opt2inth fuel (some arg) 1; added (addoption 3 3 (u8 wscale ∷ []) d))
    else if streq name (codes "sackok")
    then added (addoption 4 2 [] d)
    else if streq name (codes "sack")
    then sack_option fuel arg d
    else if streq name (codes "ts")
    then ts_option arg d
    else pure (false, d)
