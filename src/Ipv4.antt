-- ===== src/Ipv4.antt =====
-- ipv4.c: the IPv4 module.
pub mod Finalize
pub mod Route
pub mod Options
use sendip.Base.{
  ℕ, zero, suc, ◌+◌, ◌-◌, ◌*◌, ◌/◌, ◌%◌, ◌^◌, List, [], ◌∷◌, ◌++◌, Option, none, some,
}
use sendip.Base.{Bool, true, false, ◌&&◌, ◌||◌, ◌==◌, ltb, leb, if◌then◌else◌, length, take, get_or}
use sendip.Base.{u8, u16, u32, htons, from_bytes}
use sendip.Base.Flags.{has, mark}
use sendip.World.{World, Outcome, done, fault, stuck, Exec, rand, rand_drawn}
use sendip.Csum.{csum}
use sendip.Headers.{header_type}
use sendip.Pack.{SendipData, IpHeader, ip_bytes}
use sendip.Pack.{ip_mod_headerlen, ip_mod_version, ip_mod_totlen, ip_mod_id, ip_mod_ttl}
use sendip.Pack.{ip_mod_protocol, ip_mod_check, ip_mod_saddr, ip_mod_daddr}

abbrev pub IpData : Type 0
IpData = SendipData IpHeader

abbrev pub ip_data : IpData → List ℕ
ip_data d = ip_bytes d.header ++ d.tail

-- `memset(ip, 0, sizeof(ip_header))`
abbrev pub zeroed : IpHeader
zeroed = record {
  header_len = 0;
  version = 0;
  tos = 0;
  tot_len = 0;
  id = 0;
  frag_off1 = 0;
  mf = 0;
  df = 0;
  res = 0;
  frag_off2 = 0;
  ttl = 0;
  protocol = 0;
  check = 0;
  saddr = 0;
  daddr = 0;
}

abbrev pub initialize : IpData
initialize = record { header = zeroed; tail = []; modified = 0 }

pub ipcsum : IpData → IpData
ipcsum d =
    let d' = record d { header = record d.header { check = 0 } } in
    record d' { header = record d'.header { check = csum (ip_data d') } }

-- `copy`, `class` and `num` in one byte.
abbrev pub option_byte : ℕ → ℕ → ℕ → ℕ
option_byte copy class num = copy % 2 * 128 + class % 4 * 32 + num % 32

-- `len` is a `u_int8_t`. None is a write behind the buffer, for `len` 0, or a read behind `data`.
abbrev pub addoption : ℕ → ℕ → ℕ → ℕ → List ℕ → IpData → Option IpData
addoption copy class num len data' d =
    let opt = option_byte copy class num in
    if len == 0
    then none
    else if len == 1
    then some (record d { tail = d.tail ++ (opt ∷ []) })
    else if ltb (length data') (len - 2)
    then none
    else some (record d { tail = d.tail ++ (opt ∷ len ∷ take (len - 2) data') })

-- `gethostbyname2(hostname, AF_INET)`: none, or `h_addr` with its `h_length` bytes.
abbrev pub Lookup : Type 0
Lookup = List ℕ → Option (List ℕ)

abbrev pub localhost : ℕ
localhost = 0x0100007f

abbrev pub set_daddr : Option (List ℕ) → IpData → Bool × IpData
set_daddr none d = (false, d)
set_daddr (some addr) d =
    if length addr == 4
    then (true, record d { header = record d.header { daddr = from_bytes addr } })
    else (false, d)

abbrev pub set_addr : Lookup → List ℕ → IpData → Bool × IpData
set_addr gethostbyname2 hostname d =
    let d' =
      if has d.modified ip_mod_saddr
      then d
      else record d { header = record d.header { saddr = localhost } } in
    if has d.modified ip_mod_daddr then (true, d') else set_daddr (gethostbyname2 hostname) d'

-- The fields that `finalize` fills before the checksum, unless the user set them. `data_len` is
-- `data->alloc_len`, and `random` the result of `rand()`.
pub fill : ℕ → ℕ → IpData → IpHeader
fill data_len random d =
    let h = d.header in
    let len = length (ip_data d) in
    record h {
      version = if has d.modified ip_mod_version then h.version else 4;
      header_len = if has d.modified ip_mod_headerlen then h.header_len else (len + 3) / 4 % 16;
      tot_len = if has d.modified ip_mod_totlen then h.tot_len else htons (u16 (len + data_len));
      id = if has d.modified ip_mod_id then h.id else u16 random;
      ttl = if has d.modified ip_mod_ttl then h.ttl else 255;
    }

-- `next` is the character `hdrs[index + 1]`.
pub finish : ℕ → ℕ → ℕ → IpData → IpData
finish next data_len random d =
    let d₁ = record d { header = fill data_len random d } in
    let d₂ = if has d.modified ip_mod_check then d₁ else ipcsum d₁ in
    if has d.modified ip_mod_protocol
    then d₂
    else record d₂ { header = record d₂.header { protocol = header_type next } }

pub finalize : ℕ → List ℕ → IpData → Exec (Bool × IpData)
finalize next rest d w =
    if has d.modified ip_mod_id
    then done ((true, finish next (length rest) 0 d), w)
    else done ((true, finish next (length rest) (rand w) d), rand_drawn w)
