-- ===== src/Tcp/Finalize.antt =====
-- The TCP checksum that `finalize` leaves, against the pseudo headers of RFC 793 and RFC 8200.
use sendip.Base.{ℕ, ◌+◌, ◌*◌, ◌/◌, ◌%◌, ◌^◌, ◌≤◌, ◌<◌, ◌≡◌, ◌≢◌, refl, arith}
use sendip.Base.{List, [], ◌∷◌, ◌++◌, true, false, length, length-append, All, All-append, IsByte}
use sendip.Base.{bytes32, some, get_elem?, get_or, set, Bool-cases, inl, inr}
use sendip.Base.{get_elem?-set_self}
use sendip.Base.Flags.{has}
use sendip.World.{World, done, rand, rand_drawn}
use sendip.Csum.{csum}
use sendip.Csum.Sum.{IsBlock, csum_residue}
use sendip.Csum.Verify.{csum_completes, csum_fails}
use sendip.Headers.{ipproto_tcp}
use sendip.Pseudo.{rfc_pseudo6, word_sum-pseudo6, pseudo6-IsBlock}
use sendip.Pack.{
  SendipData, Pack, ip, IpHeader, IsIp, Ip6Header, IsIp6, TcpHeader, IsTcp, tcp_bytes, pseudo4,
}
use sendip.Pack.{as_ip-some, claim_protocol-marked, claim_protocol-IsIp}
use sendip.Pack.{
  claim_protocol, as_ip, outer_ip, Frame, tcp_mod_check, tcp_mod_seq, ip_mod_protocol,
}
use sendip.Tcp.Options.{TcpData}
use sendip.Tcp.{tcp_data, tcpcsum, tcp6csum, cleared, with_check, fill, under_ip, finish, finalize}

-- A segment: fields that fit, options and data that are bytes, at most 2 ^ 30 of them.
abbrev pub IsSegment : TcpData → List ℕ → Type 0
IsSegment d rest =
    IsTcp d.header × All IsByte d.tail × All IsByte rest × (length d.tail + length rest ≤ 2 ^ 30)

segment-IsByte :
    (h : TcpHeader) (tail rest : List ℕ)
    → IsTcp h
    → All IsByte tail
    → All IsByte rest
    → All IsByte ((tcp_bytes h ++ tail) ++ rest)
segment-IsByte h tail rest w ht hr =
    All-append IsByte (tcp_bytes h ++ tail) rest
      (All-append IsByte (tcp_bytes h) tail (omega arith) ht) hr

pseudo4-IsBlock :
    (h : IpHeader) (len : ℕ) (t : TcpHeader) (tail rest : List ℕ)
    → IsIp h
    → IsTcp t
    → All IsByte tail
    → All IsByte rest
    → length tail + length rest ≤ 2 ^ 30
    → IsBlock (pseudo4 h len ++ ((tcp_bytes t ++ tail) ++ rest))
pseudo4-IsBlock h len t tail rest wi wt ht hr short = (
  All-append IsByte (pseudo4 h len) ((tcp_bytes t ++ tail) ++ rest) (omega arith)
      (segment-IsByte t tail rest wt ht hr),
  omega (arith, length-append tail rest),
)

-- The checksum of tcpcsum passes the check over the same pseudo header.
pub tcpcsum-valid :
    (h : IpHeader) (d : TcpData) (rest : List ℕ)
    → IsIp h
    → IsSegment d rest
    → let e = tcpcsum h d rest in
      csum (pseudo4 h (length (tcp_data e) + length rest) ++ (tcp_data e ++ rest)) ≡ 0
unfolding tcpcsum
tcpcsum-valid h d rest wi (wt, ht, hr, short) =
    let len = length (tcp_data d) + length rest in
    let zeroed = pseudo4 h len ++ (tcp_data (cleared d) ++ rest) in
    let plain =
      pseudo4-IsBlock h len (record d.header { check = 0 }) d.tail rest wi (omega (arith, wt)) ht hr
        short in
    let r = csum_residue zeroed plain in
    csum_completes zeroed (pseudo4 h len ++ (tcp_data (with_check (csum zeroed) d) ++ rest)) plain
      (pseudo4-IsBlock h len (record d.header { check = csum zeroed }) d.tail rest wi
        (omega (arith, wt, r.0)) ht hr short)
      (omega (arith, r.0))

-- Under IPv6 the number of the protocol is stored where the length belongs, and no next header is
-- stored. So the segment fails the check over the pseudo header of RFC 8200, at every length below
-- 2 ^ 16 but 1530, whatever the addresses, the header and the data.
pub tcp6csum-invalid :
    (h : Ip6Header) (d : TcpData) (rest : List ℕ)
    → IsIp6 h
    → IsSegment d rest
    → length (tcp_data d) + length rest < 2 ^ 16
    → length (tcp_data d) + length rest ≢ 1530
    → let e = tcp6csum h d rest in
      csum (rfc_pseudo6 h (length (tcp_data e) + length rest) ipproto_tcp ++ (tcp_data e ++ rest))
      ≢ 0
unfolding tcp6csum
tcp6csum-invalid h d rest w (wt, ht, hr, short) small ne =
    let len = length (tcp_data d) + length rest in
    let own : List ℕ = bytes32 ipproto_tcp ++ (0 ∷ 0 ∷ 0 ∷ 0 ∷ []) in
    let rfc : List ℕ =
      len / 16777216 % 256 ∷ len / 65536 % 256 ∷ len / 256 % 256 ∷ len % 256 ∷ 0 ∷ 0 ∷ 0 ∷ 6 ∷ [] in
    let c = csum ((h.ip6_src ++ (h.ip6_dst ++ own)) ++ (tcp_data (cleared d) ++ rest)) in
    let plain =
      pseudo6-IsBlock h own (tcp_data (cleared d) ++ rest) w refl (omega arith)
        (segment-IsByte (record d.header { check = 0 }) d.tail rest (omega (arith, wt)) ht hr)
        (omega (arith, length-append d.tail rest)) in
    let r =
      csum_residue ((h.ip6_src ++ (h.ip6_dst ++ own)) ++ (tcp_data (cleared d) ++ rest)) plain in
    csum_fails ((h.ip6_src ++ (h.ip6_dst ++ own)) ++ (tcp_data (cleared d) ++ rest))
      ((h.ip6_src ++ (h.ip6_dst ++ rfc)) ++ (tcp_data (with_check c d) ++ rest))
      (len / 256 + len % 256 * 256 + 1530) plain
      (pseudo6-IsBlock h rfc (tcp_data (with_check c d) ++ rest) w refl (omega arith)
        (segment-IsByte (record d.header { check = c }) d.tail rest (omega (arith, wt, r.0)) ht hr)
        (omega (arith, length-append d.tail rest)))
      (omega (
        arith,
        r.0,
        word_sum-pseudo6 h own (tcp_data (cleared d) ++ rest) w refl,
        word_sum-pseudo6 h rfc (tcp_data (with_check c d) ++ rest) w refl,
      ))
      (swapped_length len small ne)
  where
    swapped_length :
        (len : ℕ) → len < 2 ^ 16 → len ≢ 1530 → (len / 256 + len % 256 * 256 + 1530) % 65535 ≢ 0
    swapped_length len small ne = omega arith

fill-IsSegment :
    (random : ℕ) (d : TcpData) (rest : List ℕ) → IsSegment d rest → IsSegment (fill random d) rest
unfolding fill
fill-IsSegment random d rest (w, ht, hr, short) = (ground (arith, w), ht, hr, short)

fill-modified : (random : ℕ) (d : TcpData) → (fill random d).modified ≡ d.modified
unfolding fill
fill-modified random d = refl

-- What a receiver checks: the checksum over the pseudo header of the IPv4 header at `i`, the
-- segment and its data.
abbrev pub PassesTcp4 : List Pack → ℕ → TcpData → List ℕ → Type 0
PassesTcp4 headers i d rest =
    (h : SendipData IpHeader) × (as_ip (get_elem? headers i) ≡ some h)
    × (has h.modified ip_mod_protocol ≡ true)
    × (csum (pseudo4 h.header (length (tcp_data d) + length rest) ++ (tcp_data d ++ rest)) ≡ 0)

finish-PassesTcp4 :
    (f : Frame) (hdrs : List ℕ) (headers : List Pack) (index i : ℕ) (rest : List ℕ) (d : TcpData)
    (h : SendipData IpHeader)
    → outer_ip hdrs index ≡ some i
    → get_or hdrs i 0 ≡ b'i'
    → as_ip (get_elem? headers i) ≡ some h
    → IsIp h.header
    → IsSegment d rest
    → has d.modified tcp_mod_check ≡ false
    → (headers' : List Pack) × (d' : TcpData) × (finish f hdrs headers index rest d
        ≡ done (true, (headers', d')))
      × PassesTcp4 headers' i d' rest
unfolding finish under_ip
finish-PassesTcp4 f hdrs headers index i rest d h outer is_ip cast wi wd unset =
    let h' = claim_protocol ipproto_tcp h in
    (
      set headers i (ip h'),
      tcpcsum h'.header d rest,
      ground arith,
      (
        h',
        rw (get_elem?-set_self headers i (ip h') (as_ip-some (get_elem? headers i) cast)) refl,
        claim_protocol-marked ipproto_tcp h,
        tcpcsum-valid h'.header d rest (claim_protocol-IsIp ipproto_tcp h (omega arith) wi) wd,
      ),
    )

-- Under a nearest IP header that is IPv4, with a checksum that the user left alone, `finalize`
-- succeeds, draws at most one random number, marks the IPv4 header as having its protocol, and the
-- segment passes the check over the pseudo header of the IPv4 header as it now stands. The fields
-- fit their widths, and options and data are at most 2 ^ 30 bytes.
pub finalize-PassesTcp4 :
    (f : Frame) (hdrs : List ℕ) (headers : List Pack) (index i : ℕ) (rest : List ℕ) (d : TcpData)
    (h : SendipData IpHeader) (w : World)
    → outer_ip hdrs index ≡ some i
    → get_or hdrs i 0 ≡ b'i'
    → as_ip (get_elem? headers i) ≡ some h
    → IsIp h.header
    → IsSegment d rest
    → has d.modified tcp_mod_check ≡ false
    → (headers' : List Pack) × (d' : TcpData) × (w' : World) × (finalize f hdrs headers index rest d
          w
        ≡ done ((true, (headers', d')), w'))
      × (w'.drawn ≤ w.drawn + 1)
      × PassesTcp4 headers' i d' rest
unfolding finalize
finalize-PassesTcp4 f hdrs headers index i rest d h w outer is_ip cast wi wd unset =
    elim (Bool-cases (has d.modified tcp_mod_seq)) [
      | inl given ↦
          let (headers', d', e, passes) =
            finish-PassesTcp4 f hdrs headers index i rest (fill 0 d) h outer is_ip cast wi
              (fill-IsSegment 0 d rest wd) (rw (fill-modified 0 d) unset) in
          (headers', d', w, rw (given, e) refl, omega arith, passes)
      | inr random ↦
          let (headers', d', e, passes) =
            finish-PassesTcp4 f hdrs headers index i rest (fill (rand w) d) h outer is_ip cast wi
              (fill-IsSegment (rand w) d rest wd) (rw (fill-modified (rand w) d) unset) in
          (headers', d', rand_drawn w, rw (random, e) refl, omega arith, passes)
    ]
