-- ===== src/Main/Length.antt =====
-- The loop of sendip.c that finalizes: its end, and the places of the packs.
use sendip.Base.{ℕ, zero, suc, ◌≤◌, ◌<◌, ◌≡◌, ◌≢◌, refl, arith, List, [], ◌∷◌, ◌++◌, some}
use sendip.Base.{Bool, true, length, length-append, get_elem?, set, drop}
use sendip.Base.{ap, sym, ◌∙◌}
use sendip.World.{World, done}
use sendip.Pack.{
  Pack, ip, ip6, icmp, tcp, udp, frag, optchar, alloc_len, pack_bytes, Frame, next_hdr,
}
use sendip.Pack.Shape.{packs_bytes, hdrs_of, lens, SameShape, set-SameShape}
use sendip.Main.{packet_bytes, finalize_pack, finalize_from, finalize_all}
use sendip.Ipv4.Finalize.{finalize-tail}
use sendip.Ipv6
use sendip.Ipv6.Finalize.{finalize-alloc_len}
use sendip.Icmp.InPlace as IcmpInPlace
use sendip.Tcp.InPlace as TcpInPlace
use sendip.Udp.InPlace as UdpInPlace
use sendip.Frag
use sendip.Frag.Fields as FragFields

SameShape-trans : (a b c : List Pack) → SameShape a b → SameShape b c → SameShape a c
SameShape-trans a b c ab bc = (cc, cc)

-- The packs behind one another are as long as their lengths say.
bytes-SameShape :
    (a b : List Pack) → SameShape a b → length (packs_bytes b) ≡ length (packs_bytes a)
unfolding packs_bytes lens hdrs_of
bytes-SameShape [] [] same = refl
bytes-SameShape [] (q ∷ b) same = cc
bytes-SameShape (p ∷ a) [] same = cc
bytes-SameShape (p ∷ a) (q ∷ b) (hdrs, sizes) =
    let rest = bytes-SameShape a b (cc, cc) in
    let first : alloc_len q ≡ alloc_len p = cc in
    omega (
      arith,
      rest,
      first,
      length-append (pack_bytes p) (packs_bytes a),
      length-append (pack_bytes q) (packs_bytes b),
    )

-- A pack stays at its place after its own `finalize`, which changed other packs.
placed-SameShape :
    (packs packs' : List Pack) (i : ℕ) (p q : Pack)
    → get_elem? packs i ≡ some p
    → SameShape packs packs'
    → optchar q ≡ optchar p
    → alloc_len q ≡ alloc_len p
    → SameShape packs (set packs' i q)
unfolding lens hdrs_of
placed-SameShape [] packs' i p q e same c l = cc
placed-SameShape (r ∷ packs) [] i p q e same c l = cc
placed-SameShape (r ∷ packs) (s ∷ packs') zero p q e (hdrs, sizes) c l = (cc, cc)
placed-SameShape (r ∷ packs) (s ∷ packs') (suc i) p q e (hdrs, sizes) c l =
    let (hdrs', sizes') = placed-SameShape packs packs' i p q e (cc, cc) c l in (cc, cc)

finalize_pack-in_place :
    (f : Frame) (packs : List Pack) (i : ℕ) (rest : List ℕ) (p : Pack) (w : World)
    → f.before ≢ b'i'
    → f.before ≢ b'6'
    → get_elem? packs i ≡ some p
    → (ok : Bool) × (packs' : List Pack) × (w' : World) × (finalize_pack f
          (hdrs_of packs)
          packs
          i
          rest
          p
          w
        ≡ done ((ok, packs'), w'))
      × SameShape packs packs'
unfolding finalize_pack
finalize_pack-in_place f packs i rest (ip d) w no_ip no_ip6 e =
    let (d', w', e', l) = finalize-tail (next_hdr f (hdrs_of packs) i) rest d w in
    (
      true,
      set packs i (ip d'),
      w',
      cc,
      set-SameShape packs i (ip d) (ip d') e refl (ground (arith, ap length l)),
    )
finalize_pack-in_place f packs i rest (ip6 d) w no_ip no_ip6 e =
    let r = Ipv6.finalize f (hdrs_of packs) i (length rest) d in
    (
      r.0,
      set packs i (ip6 r.1),
      w,
      refl,
      set-SameShape packs i (ip6 d) (ip6 r.1) e refl
          (finalize-alloc_len f (hdrs_of packs) i (length rest) d),
    )
finalize_pack-in_place f packs i rest (icmp d) w no_ip no_ip6 e =
    let (ok, packs', d', e', same, l) = IcmpInPlace.finalize-in_place packs i rest d in
    (
      ok,
      set packs' i (icmp d'),
      w,
      cc,
      placed-SameShape packs packs' i (icmp d) (icmp d') e same refl (ground (arith, l)),
    )
finalize_pack-in_place f packs i rest (tcp d) w no_ip no_ip6 e =
    let (ok, packs', d', w', e', same, l) =
      TcpInPlace.finalize-in_place f packs i rest d w no_ip no_ip6 in
    (
      ok,
      set packs' i (tcp d'),
      w',
      cc,
      placed-SameShape packs packs' i (tcp d) (tcp d') e same refl (ground (arith, l)),
    )
finalize_pack-in_place f packs i rest (udp d) w no_ip no_ip6 e =
    let (ok, packs', d', e', same, l) =
      UdpInPlace.finalize-in_place f packs i rest d no_ip no_ip6 in
    (
      ok,
      set packs' i (udp d'),
      w,
      cc,
      placed-SameShape packs packs' i (udp d) (udp d') e same refl (ground (arith, l)),
    )
finalize_pack-in_place f packs i rest (frag d) w no_ip no_ip6 e =
    let r = Frag.finalize f (hdrs_of packs) i d in
    (
      r.0,
      set packs i (frag r.1),
      w,
      refl,
      set-SameShape packs i (frag d) (frag r.1) e refl
          (FragFields.finalize-alloc_len f (hdrs_of packs) i d),
    )

get_elem?-lt :
    (packs : List Pack) (i : ℕ) → i < length packs → (p : Pack) × (get_elem? packs i ≡ some p)
get_elem?-lt [] i lt = absurd (omega arith)
get_elem?-lt (p ∷ packs) zero lt = (p, refl)
get_elem?-lt (p ∷ packs) (suc i) lt = get_elem?-lt packs i (omega arith)

length-SameShape : (a b : List Pack) → SameShape a b → length b ≡ length a
unfolding hdrs_of lens
length-SameShape [] [] same = refl
length-SameShape [] (q ∷ b) same = cc
length-SameShape (p ∷ a) [] same = cc
length-SameShape (p ∷ a) (q ∷ b) (hdrs, sizes) = ap suc (length-SameShape a b (cc, cc))

-- One round of the loop.
pub finalize_from_step :
    (f : Frame) (hdrs : List ℕ) (i : ℕ) (packs packs₁ : List Pack) (data' : List ℕ) (w w₁ : World)
    (p : Pack) (ok : Bool)
    → get_elem? packs i ≡ some p
    → finalize_pack f hdrs packs i (packs_bytes (drop (suc i) packs) ++ data') p w
      ≡ done ((ok, packs₁), w₁)
    → finalize_from f hdrs (suc i) packs data' w ≡ finalize_from f hdrs i packs₁ data' w₁
unfolding finalize_from
finalize_from_step f hdrs i packs packs₁ data' w w₁ p ok e e₁ = cc

finalize_from-in_place :
    (f : Frame) (n : ℕ) (packs : List Pack) (data' : List ℕ) (w : World)
    → f.before ≢ b'i'
    → f.before ≢ b'6'
    → n ≤ length packs
    → (packs' : List Pack) × (w' : World) × (finalize_from f (hdrs_of packs) n packs data' w
        ≡ done (packs', w'))
      × SameShape packs packs'
unfolding finalize_from
finalize_from-in_place f zero packs data' w no_ip no_ip6 le = (packs, w, refl, (refl, refl))
finalize_from-in_place f (suc i) packs data' w no_ip no_ip6 le =
    let (p, e) = get_elem?-lt packs i (omega arith) in
    let (ok, packs₁, w₁, e₁, same₁) =
      finalize_pack-in_place f packs i (packs_bytes (drop (suc i) packs) ++ data') p w no_ip no_ip6
        e in
    let (packs', w', e', same) =
      finalize_from-in_place f i packs₁ data' w₁ no_ip no_ip6
        (omega (arith, length-SameShape packs packs₁ same₁)) in
    (
      packs',
      w',
      finalize_from_step f (hdrs_of packs) i packs packs₁ data' w w₁ p ok e e₁
          ∙ (ap (λ hdrs. finalize_from f hdrs i packs₁ data' w₁) (sym same₁.0) ∙ e'),
      SameShape-trans packs packs₁ packs' same₁ same,
    )

-- For packs of the IPv4, IPv6, ICMP, TCP, UDP and fragment modules, in any number and order, and any
-- data, the loop of `main` runs to its end without a fault, if the byte in memory before the array
-- `hdrs` names no IP header. No pack moves: each module has the length that it had, and the packet
-- is as long as before.
pub finalize_all-in_place :
    (f : Frame) (packs : List Pack) (data' : List ℕ) (w : World)
    → f.before ≢ b'i'
    → f.before ≢ b'6'
    → (packs' : List Pack) × (w' : World) × (finalize_all f packs data' w ≡ done (packs', w'))
      × SameShape packs packs'
      × (length (packet_bytes packs' data') ≡ length (packet_bytes packs data'))
unfolding finalize_all packet_bytes
finalize_all-in_place f packs data' w no_ip no_ip6 =
    let (packs', w', e, same) =
      finalize_from-in_place f (length packs) packs data' w no_ip no_ip6 (omega arith) in
    (
      packs',
      w',
      e,
      same,
      omega (
        arith,
        bytes-SameShape packs packs' same,
        length-append (packs_bytes packs) data',
        length-append (packs_bytes packs') data',
      ),
    )
