-- ===== src/Tcp/InPlace.antt =====
-- tcp.c: the places of the packs, after `finalize`.
use sendip.Base.{
  ℕ, ◌≡◌, ◌≢◌, arith, List, Bool, false, ◌||◌, ◌==◌, length, inl, inr, refl, ap, ◌∙◌, Bool-cases,
}
use sendip.Base.Flags.{has}
use sendip.World.{World, done, rand, rand_drawn}
use sendip.Headers.{ipproto_tcp}
use sendip.Pack.{Pack, Frame, tcp_mod_check, tcp_mod_seq}
use sendip.Pack.Shape.{hdrs_of, SameShape, before-safe, outer_ip-cases, claim-SameShape}
use sendip.Tcp.Options.{TcpData}
use sendip.Tcp.{finalize, finish, alone, under_ip, under_ip6, fill, tcpcsum, tcp6csum}

finish-in_place :
    (f : Frame) (packs : List Pack) (i : ℕ) (rest : List ℕ) (d : TcpData)
    → f.before ≢ b'i'
    → f.before ≢ b'6'
    → (ok : Bool) × (packs' : List Pack) × (d' : TcpData) × (finish f (hdrs_of packs) packs i rest d
        ≡ done (ok, (packs', d')))
      × SameShape packs packs'
      × (length d'.tail ≡ length d.tail)
unfolding finish alone under_ip under_ip6 tcpcsum tcp6csum
finish-in_place f packs i rest d no_ip no_ip6 =
    let safe : (f.before == b'i' || f.before == b'6') ≡ false = before-safe f no_ip no_ip6 in
    elim (outer_ip-cases packs i) [
      | inl e ↦
          (has d.modified tcp_mod_check, packs, d, rw (e, safe, finish) refl, (refl, refl), refl)
      | inr (j, e, inl (c, (h, found))) ↦
          let r = under_ip j h packs d rest in
          (
            r.0,
            r.1.0,
            r.1.1,
            ground arith,
            claim-SameShape packs j ipproto_tcp h found,
            ground arith,
          )
      | inr (j, e, inr (inl (c, (h, found)))) ↦
          let r = under_ip6 h packs d rest in
          (r.0, r.1.0, r.1.1, ground arith, (refl, refl), ground arith)
      | inr (j, e, inr (inr (c, c6))) ↦
          (has d.modified tcp_mod_check, packs, d, ground arith, (refl, refl), refl)
    ]

fill-tail : (random : ℕ) (d : TcpData) → (fill random d).tail ≡ d.tail
unfolding fill
fill-tail random d = refl

-- Where the byte before `hdrs` names no IP header, `finalize` never faults.
pub finalize-in_place :
    (f : Frame) (packs : List Pack) (i : ℕ) (rest : List ℕ) (d : TcpData) (w : World)
    → f.before ≢ b'i'
    → f.before ≢ b'6'
    → (ok : Bool) × (packs' : List Pack) × (d' : TcpData) × (w' : World) × (finalize f
          (hdrs_of packs)
          packs
          i
          rest
          d
          w
        ≡ done ((ok, (packs', d')), w'))
      × SameShape packs packs'
      × (length d'.tail ≡ length d.tail)
unfolding finalize
finalize-in_place f packs i rest d w no_ip no_ip6 = elim (Bool-cases (has d.modified tcp_mod_seq)) [
  | inl given ↦
      let (ok, packs', d', e, same, l) = finish-in_place f packs i rest (fill 0 d) no_ip no_ip6 in
      (ok, packs', d', w, rw (given, e) refl, same, l ∙ ap length (fill-tail 0 d))
  | inr random ↦
      let (ok, packs', d', e, same, l) =
        finish-in_place f packs i rest (fill (rand w) d) no_ip no_ip6 in
      (
        ok,
        packs',
        d',
        rand_drawn w,
        rw (random, e) refl,
        same,
        l ∙ ap length (fill-tail (rand w) d),
      )
]
