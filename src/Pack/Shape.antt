-- ===== src/Pack/Shape.antt =====
-- The packs of main one behind the other, and what stays the same when one of them changes in place.
use sendip.Base.{ℕ, zero, suc, ◌≡◌, refl, arith, List, [], ◌∷◌, ◌++◌, none, some}
use sendip.Base.{
  get_or, get_elem?, set, ap, ◌≢◌, ◌⊎◌, ◌||◌, false, ◌==◌, inl, inr, Option-cases, Bool-cases,
}
use sendip.Pack.{SendipData, Pack, ip, ip6, icmp, tcp, udp, frag, optchar, pack_bytes, alloc_len}
use sendip.Pack.{IpHeader, Ip6Header, as_ip, as_ip6, as_ip-some, claim_protocol, outer_ip, Frame}

-- The packs of the modules, one behind the other.
unfoldable pub packs_bytes : List Pack → List ℕ
packs_bytes [] = []
packs_bytes (p ∷ packs) = pack_bytes p ++ packs_bytes packs

-- `hdrs[i] = e->mod->optchar`
unfoldable pub hdrs_of : List Pack → List ℕ
hdrs_of [] = []
hdrs_of (p ∷ packs) = optchar p ∷ hdrs_of packs

-- `e->pack->alloc_len` of each module.
unfoldable pub lens : List Pack → List ℕ
lens [] = []
lens (p ∷ packs) = alloc_len p ∷ lens packs

-- The packs have the modules and the lengths that they had.
abbrev pub SameShape : List Pack → List Pack → Type 0
SameShape a b = (hdrs_of b ≡ hdrs_of a) × (lens b ≡ lens a)

-- Another pack of the same module and length.
pub set-SameShape :
    (packs : List Pack) (i : ℕ) (p q : Pack)
    → get_elem? packs i ≡ some p
    → optchar q ≡ optchar p
    → alloc_len q ≡ alloc_len p
    → SameShape packs (set packs i q)
unfolding hdrs_of lens
set-SameShape [] i p q e c l = cc
set-SameShape (r ∷ packs) zero p q e c l = (cc, cc)
set-SameShape (r ∷ packs) (suc i) p q e c l =
    let rest = set-SameShape packs i p q e c l in
    (ap (◌∷◌ (optchar r)) rest.0, ap (◌∷◌ (alloc_len r)) rest.1)

-- What `hdrs` says of a place is what stands there.
pub as_ip-found :
    (packs : List Pack) (i : ℕ)
    → get_or (hdrs_of packs) i 0 ≡ b'i'
    → (h : SendipData IpHeader) × (as_ip (get_elem? packs i) ≡ some h)
unfolding hdrs_of
as_ip-found [] i e = absurd (omega arith)
as_ip-found (ip d ∷ packs) zero e = (d, refl)
as_ip-found (ip6 d ∷ packs) zero e = absurd (omega arith)
as_ip-found (icmp d ∷ packs) zero e = absurd (omega arith)
as_ip-found (tcp d ∷ packs) zero e = absurd (omega arith)
as_ip-found (udp d ∷ packs) zero e = absurd (omega arith)
as_ip-found (frag d ∷ packs) zero e = absurd (omega arith)
as_ip-found (p ∷ packs) (suc i) e = as_ip-found packs i e

pub as_ip6-found :
    (packs : List Pack) (i : ℕ)
    → get_or (hdrs_of packs) i 0 ≡ b'6'
    → (h : SendipData Ip6Header) × (as_ip6 (get_elem? packs i) ≡ some h)
unfolding hdrs_of
as_ip6-found [] i e = absurd (omega arith)
as_ip6-found (ip6 d ∷ packs) zero e = (d, refl)
as_ip6-found (ip d ∷ packs) zero e = absurd (omega arith)
as_ip6-found (icmp d ∷ packs) zero e = absurd (omega arith)
as_ip6-found (tcp d ∷ packs) zero e = absurd (omega arith)
as_ip6-found (udp d ∷ packs) zero e = absurd (omega arith)
as_ip6-found (frag d ∷ packs) zero e = absurd (omega arith)
as_ip6-found (p ∷ packs) (suc i) e = as_ip6-found packs i e

pub claim-SameShape :
    (packs : List Pack) (i n : ℕ) (h : SendipData IpHeader)
    → as_ip (get_elem? packs i) ≡ some h
    → SameShape packs (set packs i (ip (claim_protocol n h)))
claim-SameShape packs i n h e =
    set-SameShape packs i (ip h) (ip (claim_protocol n h)) (as_ip-some (get_elem? packs i) e) refl
      (ground arith)

-- What a module finds around it.
pub outer_ip-cases :
    (packs : List Pack) (index : ℕ)
    → (outer_ip (hdrs_of packs) index ≡ none)
      ⊎ ((i : ℕ) × (outer_ip (hdrs_of packs) index ≡ some i)
          × (((get_or (hdrs_of packs) i 0 ≡ b'i')
                × ((h : SendipData IpHeader) × (as_ip (get_elem? packs i) ≡ some h)))
              ⊎ (((get_or (hdrs_of packs) i 0 ≡ b'6')
                    × ((h : SendipData Ip6Header) × (as_ip6 (get_elem? packs i) ≡ some h)))
                  ⊎ ((get_or (hdrs_of packs) i 0 ≢ b'i') × (get_or (hdrs_of packs) i 0 ≢ b'6')))))
outer_ip-cases packs index = elim (Option-cases (outer_ip (hdrs_of packs) index)) [
  | inl e ↦ inl e
  | inr (i, e) ↦ elim (Bool-cases (get_or (hdrs_of packs) i 0 == b'i')) [
    | inl is_ip ↦
        inr (i, e, inl (ground (arith, is_ip), as_ip-found packs i (ground (arith, is_ip))))
    | inr no_ip ↦ elim (Bool-cases (get_or (hdrs_of packs) i 0 == b'6')) [
      | inl is_ip6 ↦
          inr (
            i,
            e,
            inr (inl (ground (arith, is_ip6), as_ip6-found packs i (ground (arith, is_ip6)))),
          )
      | inr no_ip6 ↦ inr (i, e, inr (inr (ground (arith, no_ip), ground (arith, no_ip6))))
    ]
  ]
]

pub before-safe :
    (f : Frame) → f.before ≢ b'i' → f.before ≢ b'6' → (f.before == b'i' || f.before == b'6') ≡ false
before-safe f no_ip no_ip6 = elim (Bool-cases (f.before == b'i')) [
  | inl is_ip ↦ ground (arith, is_ip)
  | inr other ↦ rw other (ground arith)
]
