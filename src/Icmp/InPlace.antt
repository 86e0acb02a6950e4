-- ===== src/Icmp/InPlace.antt =====
-- icmp.c: the places of the packs, after `finalize`.
use sendip.Base.{ℕ, ◌≡◌, arith, List, Bool, false, length, inl, inr, refl}
use sendip.World.{done}
use sendip.Headers.{ipproto_icmp}
use sendip.Pack.{Pack}
use sendip.Pack.Shape.{hdrs_of, SameShape, outer_ip-cases, claim-SameShape}
use sendip.Icmp.{IcmpData, finalize, under_ip, under_ip6, under_other, fill, icmpcsum, icmp6csum}

-- `finalize` never faults.
pub finalize-in_place :
    (packs : List Pack) (i : ℕ) (rest : List ℕ) (d : IcmpData)
    → (ok : Bool) × (packs' : List Pack) × (d' : IcmpData) × (finalize
          (hdrs_of packs)
          packs
          i
          rest
          d
        ≡ done (ok, (packs', d')))
      × SameShape packs packs'
      × (length d'.tail ≡ length d.tail)
unfolding finalize under_ip under_ip6 under_other fill icmpcsum icmp6csum
finalize-in_place packs i rest d = elim (outer_ip-cases packs i) [
  | inl e ↦ (false, packs, d, ground arith, (refl, refl), refl)
  | inr (j, e, inl (c, (h, found))) ↦
      let r = under_ip j h packs d rest in
      (r.0, r.1.0, r.1.1, ground arith, claim-SameShape packs j ipproto_icmp h found, ground arith)
  | inr (j, e, inr (inl (c, (h, found)))) ↦
      let r = under_ip6 h packs d rest in
      (r.0, r.1.0, r.1.1, ground arith, (refl, refl), ground arith)
  | inr (j, e, inr (inr (c, c6))) ↦
      let r = under_other packs d rest in
      (r.0, r.1.0, r.1.1, ground arith, (refl, refl), ground arith)
]
