-- ===== src/Main/Dispatch/Reach.antt =====
-- sendip.c: what the options leave, however many there are.
use sendip.Base.{
  ℕ, zero, suc, ◌≡◌, refl, arith, ap, ◌∙◌, List, [], ◌∷◌, Option, none, some, Bool, true, false,
  All,
}
use sendip.Base.{get_elem?, set, inl, inr, ◌⊎◌, if◌then◌else◌, Option-cases}
use sendip.World.{World, done, bind-done}
use sendip.Protoname.{Protocols}
use sendip.Pack.{Pack, ip, ip6, icmp, tcp, udp, frag, optchar, IsIp, IsIcmp, IsTcp, IsUdp}
use sendip.Pack.Shape.{hdrs_of}
use sendip.Ipv4.Options as Ip4Options
use sendip.Ipv4.Options.Fits.{do_opt-IsIp}
use sendip.Ipv6
use sendip.Icmp
use sendip.Icmp.Options.{do_opt-IsIcmp}
use sendip.Tcp
use sendip.Tcp.Flags.{do_opt-IsTcp}
use sendip.Udp
use sendip.Udp.Options.{do_opt-IsUdp}
use sendip.Frag
use sendip.Main.Dispatch.{
  Scanned, next_module, builtin, missing_argument, not_recognized, module_option, Options, do_opt,
}
use sendip.Main.Dispatch.{
  argument, random_argument, advance, select_module, apply_option, step, parse,
}

-- The fields of IPv4, ICMP, TCP and UDP headers fit their widths.
abbrev pub IsPack : Pack → Type 0
IsPack (ip d) = IsIp d.header
IsPack (ip6 d) = Unit
IsPack (icmp d) = IsIcmp d.header
IsPack (tcp d) = IsTcp d.header
IsPack (udp d) = IsUdp d.header
IsPack (frag d) = Unit

-- What one option does to its pack.
abbrev pub Kept : Pack → Pack → Type 0
Kept p q = IsPack q × (optchar q ≡ optchar p)

do_opt-Kept :
    (db : Protocols) (inet_pton6 : List ℕ → Option (List ℕ)) (fuel : ℕ) (name arg : List ℕ)
    (p q : Pack) (ok : Bool) (w w' : World)
    → IsPack p
    → do_opt db inet_pton6 fuel name arg p w ≡ done ((ok, q), w')
    → Kept p q
unfolding do_opt
do_opt-Kept db inet_pton6 fuel name arg (ip d) q ok w w' h e =
    let (r, w₁, e₁, e₂) = bind-done (Ip4Options.do_opt fuel name arg d) _ w w' (ok, q) e in
    let q_is : q ≡ ip r.1 = cc in rw q_is ((do_opt-IsIp fuel name arg d r.1 r.0 w w₁ h e₁).0, refl)
do_opt-Kept db inet_pton6 fuel name arg (ip6 d) q ok w w' h e =
    let (r, w₁, e₁, e₂) = bind-done (Ipv6.do_opt db inet_pton6 fuel name arg d) _ w w' (ok, q) e in
    let q_is : q ≡ ip6 r.1 = cc in rw q_is (h, refl)
do_opt-Kept db inet_pton6 fuel name arg (icmp d) q ok w w' h e =
    let (r, w₁, e₁, e₂) = bind-done (Icmp.do_opt fuel name arg d) _ w w' (ok, q) e in
    let q_is : q ≡ icmp r.1 = cc in
    rw q_is ((do_opt-IsIcmp fuel name arg d r.1 r.0 w w₁ h e₁).0, refl)
do_opt-Kept db inet_pton6 fuel name arg (tcp d) q ok w w' h e =
    let (r, w₁, e₁, e₂) = bind-done (Tcp.do_opt fuel name arg d) _ w w' (ok, q) e in
    let q_is : q ≡ tcp r.1 = cc in
    rw q_is ((do_opt-IsTcp fuel name arg d r.1 r.0 w w₁ h e₁).0, refl)
do_opt-Kept db inet_pton6 fuel name arg (udp d) q ok w w' h e =
    let (r, w₁, e₁, e₂) = bind-done (Udp.do_opt fuel name arg d) _ w w' (ok, q) e in
    let q_is : q ≡ udp r.1 = cc in
    rw q_is ((do_opt-IsUdp fuel name arg d r.1 r.0 w w₁ h e₁).0, refl)
do_opt-Kept db inet_pton6 fuel name arg (frag d) q ok w w' h e =
    let (r, w₁, e₁, e₂) = bind-done (Frag.do_opt db fuel name arg d) _ w w' (ok, q) e in
    let q_is : q ≡ frag r.1 = cc in rw q_is (h, refl)

All-get :
    (packs : List Pack) (i : ℕ) (p : Pack)
    → All IsPack packs
    → get_elem? packs i ≡ some p
    → IsPack p
All-get [] i p h e = cc
All-get (r ∷ packs) zero p h e = let same : p ≡ r = cc in rw same h.0
All-get (r ∷ packs) (suc i) p h e = All-get packs i p h.1 e

set-Kept :
    (packs : List Pack) (i : ℕ) (p q : Pack)
    → All IsPack packs
    → get_elem? packs i ≡ some p
    → Kept p q
    → All IsPack (set packs i q) × (hdrs_of (set packs i q) ≡ hdrs_of packs)
unfolding hdrs_of
set-Kept [] i p q h e k = cc
set-Kept (r ∷ packs) zero p q h e k = ((k.0, h.1), cc)
set-Kept (r ∷ packs) (suc i) p q h e k =
    let rest = set-Kept packs i p q h.1 e k in ((h.0, rest.0), ap (◌∷◌ (optchar r)) rest.1)

-- The packs of `s'` are those of `s` with other fields, and a failure is not forgotten.
abbrev pub Follows : Options → Options → Type 0
Follows s s' =
    All IsPack s'.packs
    × (hdrs_of s'.packs ≡ hdrs_of s.packs)
    × ((s.usage ≡ false) ⊎ (s'.usage ≡ true))

apply_option-Follows :
    (db : Protocols) (inet_pton6 : List ℕ → Option (List ℕ)) (fuel : ℕ) (name : List ℕ)
    (arg : Option (List ℕ)) (i : ℕ) (s s' : Options) (w w' : World)
    → All IsPack s.packs
    → apply_option db inet_pton6 fuel name arg i s w ≡ done (s', w')
    → Follows s s'
unfolding apply_option
apply_option-Follows db inet_pton6 fuel name arg i s s' w w' h e =
    elim (Option-cases (get_elem? s.packs i)) [
      | inl bad ↦ absurd (ground (arith, rw (bad, apply_option) at e))
      | inr (p, here) ↦
          let (a, w₁, e₁, e₂) =
            bind-done (random_argument arg) _ w w' s' (rw (here, apply_option) at e) in
          let (r, w₂, e₃, e₄) =
            bind-done (do_opt db inet_pton6 fuel name (argument a) p) _ w₁ w' s' e₂ in
          let kept =
            do_opt-Kept db inet_pton6 fuel name (argument a) p r.1 r.0 w₁ w₂
              (All-get s.packs i p h here) e₃ in
          let placed = set-Kept s.packs i p r.1 h here kept in
          let s'_is : s'
              ≡ record s { packs = set s.packs i r.1; usage = if r.0 then s.usage else true } =
            cc in
          rw s'_is (placed.0, placed.1, ground arith)
    ]

step-Follows :
    (db : Protocols) (inet_pton6 : List ℕ → Option (List ℕ)) (fuel : ℕ) (o : Scanned)
    (s s' : Options) (w w' : World)
    → All IsPack s.packs
    → step db inet_pton6 fuel o s w ≡ done (s', w')
    → Follows s s'
unfolding step
step-Follows db inet_pton6 fuel next_module s s' w w' h e =
    let same : s' ≡ record s { current = advance s.packs s.current } = cc in
    rw same (h, refl, ground arith)
step-Follows db inet_pton6 fuel builtin s s' w w' h e =
    let same : s' ≡ s = cc in rw same (h, refl, ground arith)
step-Follows db inet_pton6 fuel missing_argument s s' w w' h e =
    let same : s' ≡ record s { usage = true } = cc in rw same (h, refl, inr refl)
step-Follows db inet_pton6 fuel not_recognized s s' w w' h e =
    let same : s' ≡ record s { usage = true } = cc in rw same (h, refl, inr refl)
step-Follows db inet_pton6 fuel (module_option optc name arg) s s' w w' h e =
    elim (Option-cases (select_module optc s)) [
      | inl null ↦ absurd (ground (arith, rw (null, step) at e))
      | inr (none, no_module) ↦
          let same : s' ≡ s = (let e' = rw (no_module, step) at e in cc) in
          rw same (h, refl, ground arith)
      | inr (some i, chosen) ↦
          apply_option-Follows db inet_pton6 fuel name arg i s s' w w' h (rw (chosen, step) at e)
    ]

-- Whatever options are given, in whatever order: when the loop ends, the packs belong to the
-- modules that they belonged to, in the same order, the fields of IPv4, ICMP, TCP and UDP headers
-- fit their widths if they did before, and a failure that was noted is not forgotten.
pub parse-Follows :
    (db : Protocols) (inet_pton6 : List ℕ → Option (List ℕ)) (fuel : ℕ) (scanned : List Scanned)
    (s s' : Options) (w w' : World)
    → All IsPack s.packs
    → parse db inet_pton6 fuel scanned s w ≡ done (s', w')
    → Follows s s'
unfolding parse
parse-Follows db inet_pton6 fuel [] s s' w w' h e =
    let same : s' ≡ s = cc in rw same (h, refl, ground arith)
parse-Follows db inet_pton6 fuel (o ∷ scanned) s s' w w' h e =
    let (s₁, w₁, e₁, e₂) = bind-done (step db inet_pton6 fuel o s) _ w w' s' e in
    let first = step-Follows db inet_pton6 fuel o s s₁ w w₁ h e₁ in
    let rest = parse-Follows db inet_pton6 fuel scanned s₁ s' w₁ w' first.0 e₂ in
    (rest.0, rest.1 ∙ first.1, ground (arith, first.2, rest.2))
