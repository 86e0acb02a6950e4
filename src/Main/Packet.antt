-- ===== src/Main/Packet.antt =====
-- sendip.c: a whole packet, UDP in IPv4.
use sendip.Base.{
  ℕ, ◌+◌, ◌<◌, ◌≡◌, refl, arith, ap, ◌∙◌, inl, inr, Bool-cases, List, [], ◌∷◌, ◌++◌, true, false,
  length,
}
use sendip.Base.Flags.{has}
use sendip.World.{World, done}
use sendip.Csum.{csum}
use sendip.Headers.{ipproto_udp, outer_header}
use sendip.Libc.{has_char}
use sendip.Pack.{Pack, ip, udp, Frame, next_hdr, claim_protocol}
use sendip.Pack.{
  claim_protocol-marked, claim_protocol-check, ip_mod_check, ip_mod_protocol, udp_mod_check,
}
use sendip.Pack.Shape.{packs_bytes, hdrs_of}
use sendip.Ipv4.{IpData, ip_data, finish}
use sendip.Ipv4.Finalize.{IsIpData, finish-valid, finalize-finish, finish-pseudo4}
use sendip.Udp.{UdpData, udp_data, udpcsum, fill}
use sendip.Udp.Finalize.{IsDatagram, PassesUdp4, finalize-under_ip, fill-IsDatagram, udpcsum-valid}
use sendip.Main.Length.{finalize_from_step}
use sendip.Main.{finalize_pack, finalize_from, finalize_all}

claim-IsIpData : (p : ℕ) (d : IpData) → p < 256 → IsIpData d → IsIpData (claim_protocol p d)
claim-IsIpData p d lt (w, bytes, short) = elim (Bool-cases (has d.modified ip_mod_protocol)) [
  | inl kept ↦ rw kept (w, bytes, short)
  | inr claimed ↦ rw claimed (omega (arith, w), bytes, short)
]

udp_step :
    (f : Frame) (d : IpData) (u : UdpData) (data' : List ℕ) (w : World)
    → has u.modified udp_mod_check ≡ false
    → let h = claim_protocol ipproto_udp d in
      let u' = udpcsum h.header (fill (length data') u) data' in
      finalize_pack f (b'i' ∷ b'u' ∷ []) (ip d ∷ udp u ∷ []) 1 data' (udp u) w
      ≡ done ((true, ip h ∷ udp u' ∷ []), w)
unfolding finalize_pack outer_header has_char
udp_step f d u data' w unset =
    let e =
      finalize-under_ip f (b'i' ∷ b'u' ∷ []) (ip d ∷ udp u ∷ []) 1 0 data' u d refl refl refl
        unset in
    cc

ip_step :
    (f : Frame) (h : IpData) (p : Pack) (rest : List ℕ) (hdrs : List ℕ) (w : World)
    → (random : ℕ) × (w' : World) × (finalize_pack f hdrs (ip h ∷ p ∷ []) 0 rest (ip h) w
        ≡ done ((true, ip (finish (next_hdr f hdrs 0) (length rest) random h) ∷ p ∷ []), w'))
unfolding finalize_pack
ip_step f h p rest hdrs w =
    let (random, w', e) = finalize-finish (next_hdr f hdrs 0) rest h w in (random, w', cc)

-- An IPv4 and a UDP module, with data behind them, whose checksums the user left alone: the loop of
-- `main` ends, and it leaves an IPv4 header of checksum 0 and a datagram that passes the check over
-- the pseudo header of that IPv4 header. The fields fit their widths, and options and data are at
-- most 2 ^ 30 bytes.
pub finalize_all-valid :
    (f : Frame) (d : IpData) (u : UdpData) (data' : List ℕ) (w : World)
    → IsIpData d
    → IsDatagram u data'
    → has d.modified ip_mod_check ≡ false
    → has u.modified udp_mod_check ≡ false
    → (d' : IpData) × (u' : UdpData) × (w' : World) × (finalize_all f (ip d ∷ udp u ∷ []) data' w
        ≡ done (ip d' ∷ udp u' ∷ [], w'))
      × (csum (ip_data d') ≡ 0)
      × PassesUdp4 (ip d' ∷ udp u' ∷ []) 0 u' data'
unfolding finalize_all finalize_from hdrs_of packs_bytes
finalize_all-valid f d u data' w wd wu d_unset u_unset =
    let h = claim_protocol ipproto_udp d in
    let u₁ = fill (length data') u in
    let u' = udpcsum h.header u₁ data' in
    let rest = packs_bytes (udp u' ∷ []) ++ data' in
    let wh = claim-IsIpData ipproto_udp d (omega arith) wd in
    let marked = claim_protocol-marked ipproto_udp d in
    let (random, w', e) = ip_step f h (udp u') rest (b'i' ∷ b'u' ∷ []) w in
    let d' = finish (next_hdr f (b'i' ∷ b'u' ∷ []) 0) (length rest) random h in
    let kept =
      finish-pseudo4 (next_hdr f (b'i' ∷ b'u' ∷ []) 0) (length rest) random
        (length (udp_data u') + length data') h marked in
    (
      d',
      u',
      w',
      finalize_from_step f (b'i' ∷ b'u' ∷ []) 1 (ip d ∷ udp u ∷ []) (ip h ∷ udp u' ∷ []) data' w w
            (udp u) true refl (udp_step f d u data' w u_unset)
          ∙ finalize_from_step f (b'i' ∷ b'u' ∷ []) 0 (ip h ∷ udp u' ∷ []) (ip d' ∷ udp u' ∷ [])
              data' w w' (ip h) true refl e,
      finish-valid (next_hdr f (b'i' ∷ b'u' ∷ []) 0) (length rest) random h wh
          (claim_protocol-check ipproto_udp d ∙ d_unset) marked,
      (
        d',
        refl,
        ap (λ m. has m ip_mod_protocol) kept.1 ∙ marked,
        ap (λ ps. csum (ps ++ (udp_data u' ++ data'))) kept.0
            ∙ udpcsum-valid h.header u₁ data' wh.0 (fill-IsDatagram (length data') u data' wu),
      ),
    )
