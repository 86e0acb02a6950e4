-- ===== src/Ipv4/Finalize.antt =====
-- The header that `finalize` leaves: its checksum, and the fields that describe the packet.
use sendip.Base.{ℕ, ◌*◌, ◌^◌, ◌≤◌, ◌<◌, ◌≡◌, ◌≢◌, arith}
use sendip.Base.{List, ◌++◌, true, false, length, All, All-append, IsByte}
use sendip.Base.Flags.{has}
use sendip.Csum.{csum}
use sendip.Csum.Sum.{IsBlock, csum_residue}
use sendip.Csum.Verify.{csum_completes, csum_fails}
use sendip.Headers.{header_type}
use sendip.Headers.Search.{header_type-lt}
use sendip.Pack.{IpHeader, IsIp, ip_bytes, pseudo4}
use sendip.Pack.{ip_mod_id}
use sendip.Pack.{ip_mod_protocol, ip_mod_check}
use sendip.Ipv4.{IpData, ip_data, ipcsum, fill, finish, finalize}
use sendip.World.{World, done, rand, rand_drawn}
use sendip.Base.{Bool-cases, inl, inr}

-- Options are bytes, and the header with them is a block.
abbrev pub IsIpData : IpData → Type 0
IsIpData d = IsIp d.header × All IsByte d.tail × (length d.tail ≤ 2 ^ 30)

ip_data-IsBlock : (h : IpHeader) (d : IpData) → IsIp h → IsIpData d → IsBlock (ip_bytes h ++ d.tail)
ip_data-IsBlock h d wide (w, bytes, short) =
    (All-append IsByte (ip_bytes h) d.tail (omega arith) bytes, omega arith)

-- The bytes sum up to a header of checksum 0.
ipcsum-valid : (d : IpData) → IsIpData d → csum (ip_data (ipcsum d)) ≡ 0
unfolding ipcsum
ipcsum-valid d h =
    let cleared = record d.header { check = 0 } in
    let c = csum (ip_bytes cleared ++ d.tail) in
    let plain = ip_data-IsBlock cleared d (omega (arith, h.0)) h in
    let r = csum_residue (ip_bytes cleared ++ d.tail) plain in
    csum_completes (ip_bytes cleared ++ d.tail) (ip_bytes (record d.header { check = c }) ++ d.tail)
      plain (ip_data-IsBlock (record d.header { check = c }) d (omega (arith, h.0, r.0)) h)
      (omega (arith, r.0))

fill-IsIp : (data_len random : ℕ) (d : IpData) → IsIpData d → IsIp (fill data_len random d)
unfolding fill
fill-IsIp data_len random d (w, bytes, short) = ground (arith, w)

-- The protocol number is stored after the checksum was taken.
ipcsum-protocol :
    (d : IpData) (p : ℕ)
    → IsIpData d
    → d.header.protocol ≡ 0
    → p ≢ 0
    → p < 256
    → csum (ip_data (record (ipcsum d) { header = record (ipcsum d).header { protocol = p } })) ≢ 0
unfolding ipcsum
ipcsum-protocol d p h unset ne lt =
    let cleared = record d.header { check = 0 } in
    let c = csum (ip_bytes cleared ++ d.tail) in
    let plain = ip_data-IsBlock cleared d (omega (arith, h.0)) h in
    let r = csum_residue (ip_bytes cleared ++ d.tail) plain in
    csum_fails (ip_bytes cleared ++ d.tail)
      (ip_bytes (record d.header { check = c; protocol = p }) ++ d.tail) (p * 256) plain
      (ip_data-IsBlock (record d.header { check = c; protocol = p }) d (omega (arith, h.0, r.0)) h)
      (omega (arith, r.0)) (omega arith)

filled : ℕ → ℕ → IpData → IpData
filled data_len random d = record d { header = fill data_len random d }

filled-IsIpData :
    (data_len random : ℕ) (d : IpData) → IsIpData d → IsIpData (filled data_len random d)
unfolding filled
filled-IsIpData data_len random d h = (fill-IsIp data_len random d h, h.1, h.2)

-- Where an inner header or the user has stored the protocol, and the user has not set the
-- checksum, the header that `finalize` leaves passes a receiver's check: its checksum is 0. Its
-- fields fit their widths, and at most 2 ^ 30 bytes of options follow it.
pub finish-valid :
    (next data_len random : ℕ) (d : IpData)
    → IsIpData d
    → has d.modified ip_mod_check ≡ false
    → has d.modified ip_mod_protocol ≡ true
    → csum (ip_data (finish next data_len random d)) ≡ 0
unfolding finish
finish-valid next data_len random d h unset marked =
    rw (unset, marked)
      (unfold filled in
        ipcsum-valid (filled data_len random d) (filled-IsIpData data_len random d h))

-- Where nobody has stored the protocol, `finalize` stores that of the next header after it took the
-- checksum: unless that protocol is 0, the header then fails a receiver's check.
pub finish-invalid :
    (next data_len random : ℕ) (d : IpData)
    → IsIpData d
    → d.header.protocol ≡ 0
    → has d.modified ip_mod_check ≡ false
    → has d.modified ip_mod_protocol ≡ false
    → header_type next ≢ 0
    → csum (ip_data (finish next data_len random d)) ≢ 0
unfolding finish
finish-invalid next data_len random d h zero_protocol unset unmarked ne =
    rw (unset, unmarked)
      (unfold filled fill in
        ipcsum-protocol (filled data_len random d) (header_type next)
          (filled-IsIpData data_len random d h) zero_protocol ne (header_type-lt next))

-- Options keep their places, and are as many as before.
pub finalize-tail :
    (next : ℕ) (rest : List ℕ) (d : IpData) (w : World)
    → (d' : IpData) × (w' : World) × (finalize next rest d w ≡ done ((true, d'), w'))
      × (d'.tail ≡ d.tail)
unfolding finalize finish ipcsum
finalize-tail next rest d w = elim (Bool-cases (has d.modified ip_mod_id)) [
  | inl given ↦ (finish next (length rest) 0 d, w, ground arith, ground arith)
  | inr random ↦ (finish next (length rest) (rand w) d, rand_drawn w, ground arith, ground arith)
]

-- `finalize` is `finish` with some random number.
pub finalize-finish :
    (next : ℕ) (rest : List ℕ) (d : IpData) (w : World)
    → (random : ℕ) × (w' : World) × (finalize next rest d w
        ≡ done ((true, finish next (length rest) random d), w'))
unfolding finalize
finalize-finish next rest d w = elim (Bool-cases (has d.modified ip_mod_id)) [
  | inl given ↦ (0, w, ground arith)
  | inr random ↦ (rand w, rand_drawn w, ground arith)
]

-- What the pseudo header of an inner module reads stays as it is.
pub finish-pseudo4 :
    (next data_len random len : ℕ) (d : IpData)
    → has d.modified ip_mod_protocol ≡ true
    → (pseudo4 (finish next data_len random d).header len ≡ pseudo4 d.header len)
      × ((finish next data_len random d).modified ≡ d.modified)
unfolding finish fill ipcsum
finish-pseudo4 next data_len random len d marked = (ground arith, ground arith)
