-- ===== src/Hop/Options.antt =====
-- hop.c: what the options add.
use sendip.Base.{
  ℕ, ◌-◌, ◌%◌, ◌<◌, ◌≤◌, ◌≡◌, inl, inr, refl, ap, arith, List, Option, none, some, Option-cases,
  Bool, length, length-replicate, replicate, get_or, ◌==◌, Bool-cases, ltb-false, set, u16, ltb,
  bytes16, bytes32,
}
use sendip.World.{World, Outcome, done, fault, stuck, exits, Exec, Outcome-cases, ◌>>=◌}
use sendip.Protoname.{Protocols, name_to_proto}
use sendip.Args.Stream.{Val}
use sendip.Args.Value.{opt2val}
use sendip.Args.Number.{opt2inth, opt2intn}
use sendip.Hop.{
  HopPack, HopOpt, stored, addopt, added, marked, option_of, set_nexthdr, pad_n, home_address,
  value_behind, with_value, arbitrary, do_opt, tlv_hao, tlv_padn, hop_mod_hao, hop_mod_nexthdr,
  hop_mod_pad0, hop_mod_padn, hop_mod_ra, hop_mod_jumbo, hop_mod_tlv, from_dot, behind_dot, bufsiz,
}
use sendip.Hop.Space.{Holds, append-Holds}
use mathlib.Core.Path.{subst}
use sendip.Hop.Kinds.{
  Kind, keeps, of_type, free, kind_of, Adds, Suits, Short, stored-IsOption, stored-IsOfKind,
  marked-Holds,
}

-- Of the results of a run of an option on a pack that holds `content`, only those that add to it.
abbrev Leaves : Kind → List ℕ → Outcome ((Bool × HopPack) × World) → Type 0
Leaves k content (done ((ok, d), w)) = Adds k content ok d
Leaves k content fault = Unit
Leaves k content stuck = Unit
Leaves k content exits = Unit

added-Leaves :
    (k : Kind) (heap : ℕ → ℕ) (opt : Option HopOpt) (content : List ℕ) (d : HopPack) (w : World)
    → Short opt
    → Suits k opt
    → length content < 1788
    → Holds content d
    → Leaves k content (added (addopt heap opt d) w)
unfolding addopt
added-Leaves k heap opt content d w short suits room h = elim (Option-cases (stored opt)) [
  | inl none' ↦ rw (none', added) tt
  | inr (bytes, some') ↦
      let is = stored-IsOption opt bytes short some' in
      let held = append-Holds heap content bytes d h (ground (arith, is)) in
      rw (some', added) (inl (refl, bytes, is, stored-IsOfKind k opt bytes suits some', held))
]

bind-Leaves :
    {A : Type 0} (k : Kind) (content : List ℕ) (m : Exec A) (f : A → Exec (Bool × HopPack))
    (w : World)
    → ((a : A) (w' : World) → Leaves k content (f a w'))
    → Leaves k content ((m >>= f) w)
bind-Leaves k content m f w h = elim (Outcome-cases (m w)) [
  | inl ((a, w'), e) ↦ rw (e, ◌>>=◌) (h a w')
  | inr (inl e) ↦ rw (e, ◌>>=◌) tt
  | inr (inr (inl e)) ↦ rw (e, ◌>>=◌) tt
  | inr (inr (inr e)) ↦ rw (e, ◌>>=◌) tt
]

set_nexthdr-Leaves :
    (p : Outcome ℕ) (content : List ℕ) (d : HopPack) (w : World)
    → Holds content d
    → Leaves keeps content (set_nexthdr p d w)
set_nexthdr-Leaves (done p) content d w h = inr (
  inr refl,
  marked-Holds hop_mod_nexthdr content (record d { data' = set d.data' 0 p }) refl
      (record {
        nexthdr = p;
        hdrlen = h.hdrlen;
        spare = h.spare;
        block = ap (λ b. set b 0 p) h.block;
        used = h.used;
        whole = rw h.block (omega (arith, ap length h.block, h.whole));
      }),
)
set_nexthdr-Leaves fault content d w h = tt
set_nexthdr-Leaves stuck content d w h = tt
set_nexthdr-Leaves exits content d w h = tt

home_address-Leaves :
    (heap : ℕ → ℕ) (addr : Option (List ℕ)) (content : List ℕ) (d : HopPack) (w : World)
    → ((a : List ℕ) → addr ≡ some a → length a ≡ 16)
    → length content < 1788
    → Holds content d
    → Leaves (of_type 201) content (home_address heap addr d w)
unfolding home_address
home_address-Leaves heap none content d w six room h = inr (inl refl, h)
home_address-Leaves heap (some a) content d w six room h =
    added-Leaves (of_type 201) heap (option_of tlv_hao a) content (marked hop_mod_hao d) w
      (omega (arith, six a refl)) refl room (marked-Holds hop_mod_hao content d refl h)

pad_length : (n : ℕ) → n ≤ 257 → length (replicate {A = ℕ} (n - 2) 0) < 256
pad_length n h = omega (arith, length-replicate {A = ℕ} (n - 2) 0)

pad_n-Leaves :
    (heap : ℕ → ℕ) (n : ℕ) (content : List ℕ) (d : HopPack) (w : World)
    → length content < 1788
    → Holds content d
    → Leaves (of_type 1) content (pad_n heap n d w)
unfolding pad_n
pad_n-Leaves heap n content d w room h = elim (Bool-cases (ltb n 2)) [
  | inl small ↦ rw small (inr (inl refl, h))
  | inr enough ↦ elim (Bool-cases (ltb 257 n)) [
    | inl large ↦ rw (enough, large) (inr (inl refl, h))
    | inr fits ↦
        rw (enough, fits)
          (added-Leaves (of_type 1) heap (option_of tlv_padn (replicate (n - 2) 0)) content d w
            (pad_length n (ltb-false 257 n fits)) refl room h)
  ]
]

with_value-Leaves :
    (heap : ℕ → ℕ) (type len : ℕ) (content : List ℕ) (d : HopPack) (v : Val) (w : World)
    → len < 256
    → length content < 1788
    → Holds content d
    → Leaves free content (with_value heap type len d v w)
with_value-Leaves heap type len content d v w short room h =
    elim (Bool-cases (ltb bufsiz v.count)) [
      | inl large ↦ rw large tt
      | inr fits ↦ rw fits (added-Leaves free heap _ content d w short tt room h)
    ]

value_behind-Leaves :
    (heap : ℕ → ℕ) (fuel type len : ℕ) (dot : Option (List ℕ)) (content : List ℕ) (d : HopPack)
    (w : World)
    → len < 256
    → length content < 1788
    → Holds content d
    → Leaves free content (value_behind heap fuel type len dot d w)
unfolding value_behind
value_behind-Leaves heap fuel type len none content d w short room h = tt
value_behind-Leaves heap fuel type len (some dot) content d w short room h =
    bind-Leaves free content (opt2val fuel (behind_dot (from_dot (some dot))) bufsiz)
      (with_value heap type len d) w
      (λ v w'. with_value-Leaves heap type len content d v w' short room h)

arbitrary-Leaves :
    (heap : ℕ → ℕ) (fuel : ℕ) (arg content : List ℕ) (d : HopPack) (w : World)
    → length content < 1788
    → Holds content d
    → Leaves free content (arbitrary heap fuel arg d w)
unfolding arbitrary
arbitrary-Leaves heap fuel arg content d w room h =
    bind-Leaves free content (opt2inth fuel (some arg) 2) _ w (λ type w₁.
      elim (Bool-cases (ltb 255 (u16 type))) [
        | inl large ↦ rw large (inr (inl refl, h))
        | inr small ↦ rw small (
            bind-Leaves free content (opt2inth fuel (from_dot (some arg)) 2) _ w₁ (λ len w₂.
              elim (Bool-cases (ltb 255 (u16 len))) [
                | inl large ↦ rw large (inr (inl refl, h))
                | inr fits ↦ rw fits (
                    value_behind-Leaves heap fuel (u16 type) (u16 len) (from_dot (some arg)) content
                      d w₂ (omega (arith, ltb-false 255 (u16 len) fits)) room h)
              ]))
      ])

do_opt-Leaves :
    (db : Protocols) (inet_pton6 : List ℕ → Option (List ℕ)) (heap : ℕ → ℕ) (fuel : ℕ)
    (opt arg content : List ℕ) (d : HopPack) (w : World)
    → ((s a : List ℕ) → inet_pton6 s ≡ some a → length a ≡ 16)
    → length content < 1788
    → Holds content d
    → Leaves (kind_of (get_or opt 1 0)) content (do_opt db inet_pton6 heap fuel opt arg d w)
unfolding do_opt
do_opt-Leaves db inet_pton6 heap fuel opt arg content d w six room h =
    let m : (bit : ℕ) → bit % 8 ≡ 0 → Holds content (marked bit d) =
      λ bit low. marked-Holds bit content d low h in
    let two = λ (v : ℕ) (w' : World).
      added-Leaves (of_type 5) heap (option_of 5 (bytes16 v)) content (marked hop_mod_ra d) w'
        (omega arith) refl room (m hop_mod_ra refl) in
    let four = λ (v : ℕ) (w' : World).
      added-Leaves (of_type 194) heap (option_of 194 (bytes32 v)) content (marked hop_mod_jumbo d)
        w' (omega arith) refl room (m hop_mod_jumbo refl) in
    elim (Bool-cases (get_or opt 1 0 == b'n')) [
      | inl is ↦ rw is (set_nexthdr-Leaves (name_to_proto db arg) content d w h)
      | inr n0 ↦ elim (Bool-cases (get_or opt 1 0 == b'0')) [
        | inl is ↦
            rw (n0, is)
              (added-Leaves (of_type 0) heap none content (marked hop_mod_pad0 d) w tt refl room
                (m hop_mod_pad0 refl))
        | inr n1 ↦ elim (Bool-cases (get_or opt 1 0 == b'p')) [
          | inl is ↦
              rw (n0, n1, is)
                (bind-Leaves (of_type 1) content (opt2inth fuel (some arg) 2) _ w (λ v w'.
                  pad_n-Leaves heap (u16 v) content (marked hop_mod_padn d) w' room
                    (m hop_mod_padn refl)))
          | inr n2 ↦ elim (Bool-cases (get_or opt 1 0 == b'r')) [
            | inl is ↦
                rw (n0, n1, n2, is)
                  (bind-Leaves (of_type 5) content (opt2intn fuel (some arg) 2) _ w two)
            | inr n3 ↦ elim (Bool-cases (get_or opt 1 0 == b'j')) [
              | inl is ↦
                  rw (n0, n1, n2, n3, is)
                    (bind-Leaves (of_type 194) content (opt2intn fuel (some arg) 4) _ w four)
              | inr n4 ↦ elim (Bool-cases (get_or opt 1 0 == b'h')) [
                | inl is ↦
                    rw (n0, n1, n2, n3, n4, is)
                      (home_address-Leaves heap (inet_pton6 arg) content d w (six arg) room h)
                | inr n5 ↦ elim (Bool-cases (get_or opt 1 0 == b'a')) [
                  | inl is ↦
                      rw (n0, n1, n2, n3, n4, n5, is)
                        (arbitrary-Leaves heap fuel arg content (marked hop_mod_tlv d) w room
                          (m hop_mod_tlv refl))
                  | inr n6 ↦ rw (n0, n1, n2, n3, n4, n5, n6) (inr (inr refl, h))
                ]
              ]
            ]
          ]
        ]
      ]
    ]

-- An option that returns, given while the options take at most 1787 bytes: where it succeeds, -H0,
-- -Hp, -Hr, -Hj, -Hh and -Ha add one well-formed option of RFC 8200, of type 0, 1, 5, 194 and 201
-- and, for the last, of any type, right behind those that the pack holds, which stand as they were.
-- Where it fails, or is none of these, the pack holds the same options. The length used is kept up
-- to date.
pub do_opt-Adds :
    (db : Protocols) (inet_pton6 : List ℕ → Option (List ℕ)) (heap : ℕ → ℕ) (fuel : ℕ)
    (opt arg content : List ℕ) (d d' : HopPack) (ok : Bool) (w w' : World)
    → ((s a : List ℕ) → inet_pton6 s ≡ some a → length a ≡ 16)
    → length content < 1788
    → Holds content d
    → do_opt db inet_pton6 heap fuel opt arg d w ≡ done ((ok, d'), w')
    → Adds (kind_of (get_or opt 1 0)) content ok d'
do_opt-Adds db inet_pton6 heap fuel opt arg content d d' ok w w' six room h e =
    subst (Leaves (kind_of (get_or opt 1 0)) content) e
      (do_opt-Leaves db inet_pton6 heap fuel opt arg content d w six room h)
