-- ===== src/Tcp.antt =====
-- tcp.c: the TCP module.
pub mod Options
pub mod Finalize
pub mod InPlace
pub mod Flags
use sendip.Base.{ℕ, ◌+◌, ◌*◌, ◌/◌, ◌%◌, List, [], ◌∷◌, ◌++◌, Option, none, some, Bool, true, false}
use sendip.Base.{
  ◌||◌, ◌==◌, if◌then◌else◌, length, get_or, get_elem?, set, drop, u8, u16, u32, htons,
}
use sendip.Base.Flags.{has, mark}
use sendip.Libc.{first_char}
use sendip.World.{World, Outcome, done, fault, stuck, exits, Exec, pure, ◌>>=◌, rand, rand_drawn}
use sendip.Csum.{csum}
use sendip.Headers.{ipproto_tcp}
use sendip.Args.Number.{opt2intn}
use sendip.Pack.{SendipData, Pack, ip, IpHeader, Ip6Header, TcpHeader, tcp_bytes, Frame, outer_ip}
use sendip.Pack.{claim_protocol, pseudo4, pseudo6, as_ip, as_ip6}
use sendip.Pack.{
  tcp_mod_source, tcp_mod_dest, tcp_mod_seq, tcp_mod_ackseq, tcp_mod_res, tcp_mod_off,
}
use sendip.Pack.{tcp_mod_fin, tcp_mod_syn, tcp_mod_rst, tcp_mod_psh, tcp_mod_ack, tcp_mod_urg}
use sendip.Pack.{tcp_mod_ecn, tcp_mod_cwr, tcp_mod_window, tcp_mod_check, tcp_mod_urgptr}
use Options.{TcpData, tcp_option}

abbrev pub tcp_data : TcpData → List ℕ
tcp_data d = tcp_bytes d.header ++ d.tail

abbrev pub initialize : TcpData
initialize = record {
  header = record {
    source = 0;
    dest = 0;
    seq = 0;
    ack_seq = 0;
    res = 0;
    off = 0;
    fin = 0;
    syn = 0;
    rst = 0;
    psh = 0;
    ack = 0;
    urg = 0;
    cwr = 0;
    ecn = 0;
    window = 0;
    check = 0;
    urg_ptr = 0;
  };
  tail = [];
  modified = 0;
}

abbrev pub cleared : TcpData → TcpData
cleared d = record d { header = record d.header { check = 0 } }

abbrev pub with_check : ℕ → TcpData → TcpData
with_check c d = record d { header = record d.header { check = c } }

pub tcpcsum : IpHeader → TcpData → List ℕ → TcpData
tcpcsum h d rest =
    let d' = cleared d in
    with_check (csum (pseudo4 h (length (tcp_data d') + length rest) ++ (tcp_data d' ++ rest))) d'

-- The protocol number is stored as the length, and there is no next header.
pub tcp6csum : Ip6Header → TcpData → List ℕ → TcpData
tcp6csum h d rest =
    let d' = cleared d in with_check (csum (pseudo6 h ipproto_tcp 0 ++ (tcp_data d' ++ rest))) d'

-- The header with one field set, and its bit of `modified`.
abbrev pub marked : TcpHeader → ℕ → TcpData → TcpData
marked h bit d = record { header = h; tail = d.tail; modified = mark d.modified bit }

-- `tcp->ack = 1` and `tcp->urg = 1`, unless the user set the flag.
abbrev pub imply_ack : TcpData → TcpData
imply_ack d =
    if has d.modified tcp_mod_ack then d else marked (record d.header { ack = 1 }) tcp_mod_ack d

abbrev pub imply_urg : TcpData → TcpData
imply_urg d =
    if has d.modified tcp_mod_urg then d else marked (record d.header { urg = 1 }) tcp_mod_urg d

-- `-tf…`: the lowest bit of the argument's first character.
unfoldable pub flag_opt : ℕ → ℕ → TcpData → Bool × TcpData
flag_opt c v d =
    let h = d.header in
    if c == b'e'
    then (true, marked (record h { ecn = v }) tcp_mod_ecn d)
    else if c == b'c'
    then (true, marked (record h { cwr = v }) tcp_mod_cwr d)
    else if c == b'u'
    then (true, marked (record h { urg = v }) tcp_mod_urg d)
    else if c == b'a'
    then (true, marked (record h { ack = v }) tcp_mod_ack d)
    else if c == b'p'
    then (true, marked (record h { psh = v }) tcp_mod_psh d)
    else if c == b'r'
    then (true, marked (record h { rst = v }) tcp_mod_rst d)
    else if c == b's'
    then (true, marked (record h { syn = v }) tcp_mod_syn d)
    else if c == b'f'
    then (true, marked (record h { fin = v }) tcp_mod_fin d)
    else (false, d)

unfoldable pub do_opt : ℕ → List ℕ → List ℕ → TcpData → Exec (Bool × TcpData)
do_opt fuel opt arg d =
    let c = get_or opt 1 0 in
    let h = d.header in
    if c == b's'
    then (do
      v ← opt2intn fuel (some arg) 2
      pure (true, marked (record h { source = u16 v }) tcp_mod_source d))
    else if c == b'd'
    then (do
      v ← opt2intn fuel (some arg) 2
      pure (true, marked (record h { dest = u16 v }) tcp_mod_dest d))
    else if c == b'n'
    then (do
      v ← opt2intn fuel (some arg) 4
      pure (true, marked (record h { seq = u32 v }) tcp_mod_seq d))
    else if c == b'a'
    then (do
      v ← opt2intn fuel (some arg) 4
      pure (true, imply_ack (marked (record h { ack_seq = u32 v }) tcp_mod_ackseq d)))
    else if c == b't'
    then (do
      v ← opt2intn fuel (some arg) 1
      pure (true, marked (record h { off = v % 16 }) tcp_mod_off d))
    else if c == b'r'
    then (do
      v ← opt2intn fuel (some arg) 1
      pure (true, marked (record h { res = v % 16 }) tcp_mod_res d))
    else if c == b'f'
    then pure (flag_opt (get_or opt 2 0) (first_char arg % 2) d)
    else if c == b'w'
    then (do
      v ← opt2intn fuel (some arg) 2
      pure (true, marked (record h { window = u16 v }) tcp_mod_window d))
    else if c == b'c'
    then (do
      v ← opt2intn fuel (some arg) 2
      pure (true, marked (record h { check = u16 v }) tcp_mod_check d))
    else if c == b'u'
    then (do
      v ← opt2intn fuel (some arg) 2
      pure (true, imply_urg (marked (record h { urg_ptr = u16 v }) tcp_mod_urgptr d)))
    else if c == b'o'
    then tcp_option fuel (drop 2 opt) arg d
    else pure (false, d)

-- The fields that the user left alone; `random` is the result of `rand()`.
pub fill : ℕ → TcpData → TcpData
fill random d =
    let h = d.header in
    record d {
      header = record h {
        seq = if has d.modified tcp_mod_seq then h.seq else u32 random;
        off =
            if has d.modified tcp_mod_off then h.off else u16 ((length (tcp_data d) + 3) / 4) % 16;
        syn = if has d.modified tcp_mod_syn then h.syn else 1;
        window = if has d.modified tcp_mod_window then h.window else htons 65535;
      };
    }

pub under_ip : ℕ → SendipData IpHeader → List Pack → TcpData → List ℕ → Bool × (List Pack × TcpData)
under_ip i h headers d rest =
    let h' = claim_protocol ipproto_tcp h in
    let d' = if has d.modified tcp_mod_check then d else tcpcsum h'.header d rest in
    (true, (set headers i (ip h'), d'))

pub under_ip6 : SendipData Ip6Header → List Pack → TcpData → List ℕ → Bool × (List Pack × TcpData)
under_ip6 h headers d rest =
    (true, (headers, if has d.modified tcp_mod_check then d else tcp6csum h.header d rest))

-- "TCP checksum not defined when TCP is not embedded in IP".
pub alone : List Pack → TcpData → Bool × (List Pack × TcpData)
alone headers d = (has d.modified tcp_mod_check, (headers, d))

-- `finalize` behind the fields that it fills.
pub finish :
    Frame → List ℕ → List Pack → ℕ → List ℕ → TcpData → Outcome (Bool × (List Pack × TcpData))
finish f hdrs headers index rest d = elim (outer_ip hdrs index) [
  | none ↦ if f.before == b'i' || f.before == b'6' then fault else done (alone headers d)
  | some i ↦
      if get_or hdrs i 0 == b'i'
      then elim (as_ip (get_elem? headers i)) [
        | none ↦ fault
        | some h ↦ done (under_ip i h headers d rest)
      ]
      else if get_or hdrs i 0 == b'6'
      then elim (as_ip6 (get_elem? headers i)) [
        | none ↦ fault
        | some h ↦ done (under_ip6 h headers d rest)
      ]
      else done (alone headers d)
]

abbrev pub in_world : {A : Type 0} → World → Outcome A → Outcome (A × World)
in_world w (done a) = done (a, w)
in_world w fault = fault
in_world w stuck = stuck
in_world w exits = exits

pub finalize :
    Frame → List ℕ → List Pack → ℕ → List ℕ → TcpData → Exec (Bool × (List Pack × TcpData))
finalize f hdrs headers index rest d w =
    if has d.modified tcp_mod_seq
    then in_world w (finish f hdrs headers index rest (fill 0 d))
    else in_world (rand_drawn w) (finish f hdrs headers index rest (fill (rand w) d))
