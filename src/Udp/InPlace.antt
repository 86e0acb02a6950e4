-- ===== src/Udp/InPlace.antt =====
-- udp.c: the places of the packs, after `finalize`.
use sendip.Base.{ℕ, ◌≡◌, ◌≢◌, arith, List, Bool, false, ◌||◌, ◌==◌, length, inl, inr, refl}
use sendip.Base.Flags.{has}
use sendip.World.{done}
use sendip.Headers.{ipproto_udp}
use sendip.Pack.{Pack, Frame, udp_mod_check}
use sendip.Pack.Shape.{hdrs_of, SameShape, before-safe, outer_ip-cases, claim-SameShape}
use sendip.Udp.{UdpData, finalize, alone, under_ip, under_ip6, fill, udpcsum, udp6csum}

-- Where the byte before `hdrs` names no IP header, `finalize` never faults.
pub finalize-in_place :
    (f : Frame) (packs : List Pack) (i : ℕ) (rest : List ℕ) (d : UdpData)
    → f.before ≢ b'i'
    → f.before ≢ b'6'
    → (ok : Bool) × (packs' : List Pack) × (d' : UdpData) × (finalize f
          (hdrs_of packs)
          packs
          i
          rest
          d
        ≡ done (ok, (packs', d')))
      × SameShape packs packs'
      × (length d'.tail ≡ length d.tail)
unfolding finalize alone under_ip under_ip6 fill udpcsum udp6csum
finalize-in_place f packs i rest d no_ip no_ip6 =
    let d₁ = fill (length rest) d in
    let safe : (f.before == b'i' || f.before == b'6') ≡ false = before-safe f no_ip no_ip6 in
    elim (outer_ip-cases packs i) [
      | inl e ↦ (
        has d₁.modified udp_mod_check,
        packs,
        d₁,
        rw (e, safe, finalize) refl,
        (refl, refl),
        ground arith,
      )
      | inr (j, e, inl (c, (h, found))) ↦
          let r = under_ip j h packs d₁ rest in
          (
            r.0,
            r.1.0,
            r.1.1,
            ground arith,
            claim-SameShape packs j ipproto_udp h found,
            ground arith,
          )
      | inr (j, e, inr (inl (c, (h, found)))) ↦
          let r = under_ip6 h packs d₁ rest in
          (r.0, r.1.0, r.1.1, ground arith, (refl, refl), ground arith)
      | inr (j, e, inr (inr (c, c6))) ↦
          (has d₁.modified udp_mod_check, packs, d₁, ground arith, (refl, refl), ground arith)
    ]
