-- ===== src/Ipv4/Options.antt =====
-- ipv4.c: the options of the IPv4 module.
pub mod Fits
use sendip.Base.{
  ℕ, ◌+◌, ◌*◌, ◌/◌, ◌%◌, List, [], ◌∷◌, ◌++◌, Option, none, some, Bool, true, false, ◌==◌,
}
use sendip.Base.{if◌then◌else◌, drop, get_or, u8, u16, u32, bytes16}
use sendip.Base.Flags.{mark}
use sendip.Libc.{codes, streq, first_char}
use sendip.World.{World, Outcome, done, fault, stuck, exits, Exec, pure, ◌>>=◌}
use sendip.Args.Stream.{Val, str2val}
use sendip.Args.Number.{opt2intn, opt2inth}
use sendip.Args.Address.{opt2v4}
use sendip.Pack.{SendipData, IpHeader}
use sendip.Pack.{
  ip_mod_headerlen, ip_mod_version, ip_mod_tos, ip_mod_totlen, ip_mod_id, ip_mod_res, ip_mod_df,
}
use sendip.Pack.{
  ip_mod_mf, ip_mod_fragoff, ip_mod_ttl, ip_mod_protocol, ip_mod_check, ip_mod_saddr, ip_mod_daddr,
}
use sendip.Ipv4.{IpData, addoption}
use sendip.Ipv4.Route.{strdup, buildroute, timestamps}

-- The option is added, and `do_opt` returns TRUE.
abbrev pub added : Option IpData → Exec (Bool × IpData)
added none w = fault
added (some d) w = done ((true, d), w)

abbrev pub sizeof_dst : ℕ
sizeof_dst = 8

-- `-ionum`: the argument in hex. Of its first byte the bits for copy, class and number are taken.
pub num_option : List ℕ → IpData → Exec (Bool × IpData)
num_option arg d w =
    let val = str2val (b'0' ∷ b'x' ∷ arg) sizeof_dst in
    let kind = get_or val.written 0 (w.junk % 256) in
    added
      (addoption (kind / 128) (kind / 32 % 4) (kind % 32) (u8 (u8 val.count + 1))
        (drop 1 val.written) d)
      w

-- `-iorr`, `-iossr` and `-iolsr`
pub route_option : ℕ → ℕ → ℕ → List ℕ → IpData → Exec (Bool × IpData)
route_option fuel copy num arg d = (do
  r ← buildroute fuel (strdup arg)
  if r.1 == 0 then pure (false, d) else added (addoption copy 0 num (u8 (r.1 + 2)) r.0 d))

pub stamp_option : ℕ → List ℕ → IpData → Exec (Bool × IpData)
stamp_option fuel arg d = (do
  r ← timestamps fuel (strdup arg)
  elim r [ none ↦ pure (false, d) | some (buf, n) ↦ added (addoption 0 2 4 (u8 (n + 2)) buf d) ])

-- `name` is `opt + 2`.
pub ip_option : ℕ → List ℕ → List ℕ → IpData → Exec (Bool × IpData)
ip_option fuel name arg d =
    if streq name (codes "num")
    then num_option arg d
    else if streq name (codes "eol")
    then added (addoption 0 0 0 1 [] d)
    else if streq name (codes "nop")
    then added (addoption 0 0 1 1 [] d)
    else if streq name (codes "rr")
    then route_option fuel 0 7 arg d
    else if streq name (codes "ssr")
    then route_option fuel 1 9 arg d
    else if streq name (codes "lsr")
    then route_option fuel 1 3 arg d
    else if streq name (codes "ts")
    then stamp_option fuel arg d
    else if streq name (codes "sid")
    then (do sid ← opt2intn fuel (some arg) 2; added (addoption 1 0 8 4 (bytes16 (u16 sid)) d))
    else pure (false, d)

abbrev pub marked : IpHeader → ℕ → IpData → IpData
marked h bit d = record { header = h; tail = d.tail; modified = mark d.modified bit }

-- `-ifr`, `-ifd` and `-ifm`
pub flag_opt : ℕ → ℕ → IpData → IpData
flag_opt c v d =
    let h = d.header in
    if c == b'r'
    then marked (record h { res = v }) ip_mod_res d
    else if c == b'd'
    then marked (record h { df = v }) ip_mod_df d
    else if c == b'm'
    then marked (record h { mf = v }) ip_mod_mf d
    else d

-- The macro IP_SET_FRAGOFF evaluates its argument twice, once for each part of the offset.
unfoldable pub do_opt : ℕ → List ℕ → List ℕ → IpData → Exec (Bool × IpData)
do_opt fuel opt arg d =
    let c = get_or opt 1 0 in
    let h = d.header in
    if c == b's'
    then (do v ← opt2v4 fuel arg; pure (true, marked (record h { saddr = u32 v }) ip_mod_saddr d))
    else if c == b'd'
    then (do v ← opt2v4 fuel arg; pure (true, marked (record h { daddr = u32 v }) ip_mod_daddr d))
    else if c == b'h'
    then (do
      v ← opt2inth fuel (some arg) 1
      pure (true, marked (record h { header_len = v % 16 }) ip_mod_headerlen d))
    else if c == b'v'
    then (do
      v ← opt2inth fuel (some arg) 1
      pure (true, marked (record h { version = v % 16 }) ip_mod_version d))
    else if c == b'y'
    then (do
      v ← opt2inth fuel (some arg) 1
      pure (true, marked (record h { tos = u8 v }) ip_mod_tos d))
    else if c == b'l'
    then (do
      v ← opt2intn fuel (some arg) 2
      pure (true, marked (record h { tot_len = u16 v }) ip_mod_totlen d))
    else if c == b'i'
    then (do
      v ← opt2intn fuel (some arg) 2
      pure (true, marked (record h { id = u16 v }) ip_mod_id d))
    else if c == b'f'
    then (if get_or opt 2 0 == 0
        then (do
          v₁ ← opt2inth fuel (some arg) 4
          v₂ ← opt2inth fuel (some arg) 4
          pure (
            true,
            marked (record h { frag_off1 = v₁ / 256 % 32; frag_off2 = v₂ % 256 }) ip_mod_fragoff d,
          ))
        else pure (true, flag_opt (get_or opt 2 0) (first_char arg % 2) d))
    else if c == b't'
    then (do
      v ← opt2intn fuel (some arg) 1
      pure (true, marked (record h { ttl = u8 v }) ip_mod_ttl d))
    else if c == b'p'
    then (do
      v ← opt2intn fuel (some arg) 1
      pure (true, marked (record h { protocol = u8 v }) ip_mod_protocol d))
    else if c == b'c'
    then (do
      v ← opt2intn fuel (some arg) 2
      pure (true, marked (record h { check = u16 v }) ip_mod_check d))
    else if c == b'o'
    then ip_option fuel (drop 2 opt) arg d
    else pure (false, d)
