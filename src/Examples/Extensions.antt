-- ===== src/Examples/Extensions.antt =====
-- GRE, hop-by-hop and routing headers, on concrete input.
use sendip.Base.{
  ℕ, ◌*◌, ◌^◌, ◌%◌, ◌≡◌, ◌↔◌, ◌⊎◌, inl, refl, arith, List, [], ◌∷◌, ◌++◌, Option, none, some, Bool,
  true, false, length, get_or, u8, u16, if◌then◌else◌,
}
use sendip.Base.Flags.{has, mark, has-zero, has-mark_self}
use sendip.World.{World, done}
use sendip.Libc.{codes, has_char, streq, strtoul}
use sendip.Csum.{csum}
use sendip.Headers.{inner_header, inner_loop}
use sendip.Protoname.{Protocols}
use sendip.Args.Number.{opt2intn, direct_intn}
use sendip.Gre
use sendip.Gre.{GreData, gre_data, gre_csum, gre_mod_checksum, gre_mod_protocol}
use sendip.Gre.Layout.{fields, key, FitsFields, with_field, is_there, Lays}
use sendip.Gre.Options.{do_opt-FitsFields, do_opt-csum}
use sendip.Gre.Finalize.{finalize-passes, ether_type}
use sendip.Hop
use sendip.Hop.{HopPack}
use sendip.Hop.Space.{Holds}
use sendip.Hop.Kinds.{Adds, of_type}
use sendip.Hop.Options.{do_opt-Adds}
use sendip.Hop.Finalize.{Closed, next_type, finalize-Closed}
use sendip.Routing
use sendip.Routing.{RouteData, address_texts, route_mod_addrlist}
use sendip.Routing.Addresses.{addresses, do_opt-addresses}
use sendip.Examples.{idle, frame}

abbrev no_db : Protocols
no_db = record { by_name = λ s. none; by_number = λ n. none }

abbrev heap : ℕ → ℕ
heap i = 165

-- No flag is set, and the one word has no meaning.
bare_gre : FitsFields (fields none none none none) Gre.initialize
bare_gre = record {
  csum_flag = has-zero 128;
  key_flag = has-zero 32;
  seq_flag = has-zero 16;
  routing_flag = has-zero 64;
  last = 0;
  info = refl;
  with_csum = inl refl;
}

do_opt-FitsFields_example :
    (d' : GreData) × (Gre.do_opt heap 9 (codes "gk") (codes "7") Gre.initialize idle
      ≡ done ((true, d'), idle))
    × FitsFields (with_field key 117440512 (fields none none none none)) d'
unfolding opt2intn direct_intn strtoul
do_opt-FitsFields_example =
    do_opt-FitsFields heap 9 (codes "gk") (codes "7") key 117440512 (fields none none none none)
      Gre.initialize idle idle refl refl bare_gre (λ e. absurd (ground (arith, e)))

do_opt-csum_example :
    ((is_there none ≡ true)
      × (Gre.do_opt heap 9 (codes "gc") (codes "5") Gre.initialize idle
          ≡ done ((false, Gre.initialize), idle)))
    ⊎ ((is_there none ≡ false)
        × (w₁ : World) × (d' : GreData) × (Gre.do_opt heap 9
              (codes "gc")
              (codes "5")
              Gre.initialize
              idle
            ≡ done ((true, d'), w₁))
        × (((get_or (codes "gc") 1 0 ≡ b'c')
              × (w₁ ≡ idle)
              × Lays (some (u16 1280)) none none none d'
              × (d'.modified ≡ mark 0 gre_mod_checksum))
            ⊎ ((get_or (codes "gc") 1 0 ≡ b'C')
                × (w₁ ≡ idle)
                × Lays (some 0) none none none d'
                × (d'.modified ≡ 0))))
unfolding opt2intn direct_intn strtoul
do_opt-csum_example =
    do_opt-csum heap 9 (codes "gc") (codes "5") 1280 none none none none Gre.initialize idle idle
      (inl refl) refl bare_gre

-- A header of which only the checksum is asked for.
abbrev summed : GreData
summed = record {
  header = record { gre_flag = gre_csum; gre_protocol = 0; gre_info = 0 ∷ 165 ∷ [] };
  tail = [];
  modified = 0;
}

finalize-passes_example :
    (d' : GreData) × (Gre.finalize frame (b'g' ∷ b'i' ∷ []) 0 (1 ∷ 2 ∷ []) summed ≡ done (true, d'))
    × ((csum (gre_data d' ++ (1 ∷ 2 ∷ [])) ≡ 0) ↔ (0 % 2 ^ 16 % 65535 ≡ 0))
    × (d'.header.gre_flag ≡ gre_csum)
    × (d'.header.gre_protocol ≡ (if has 0 gre_mod_protocol then 0 else ether_type b'i' 0))
unfolding inner_header inner_loop has_char
finalize-passes_example =
    finalize-passes frame (b'g' ∷ b'i' ∷ []) 0 1 0 (165 ∷ []) (1 ∷ 2 ∷ []) summed refl refl
      (has-mark_self 0 7) (has-zero 1) (ground arith) (omega arith)

-- No option so far.
abbrev bare_hop : Holds [] Hop.initialize
bare_hop = record {
  nexthdr = 0;
  hdrlen = 0;
  spare = 0 ∷ 0 ∷ 0 ∷ 0 ∷ 0 ∷ 0 ∷ [];
  block = refl;
  used = refl;
  whole = refl;
}

abbrev padded : HopPack
padded = record { data' = 0 ∷ 0 ∷ 0 ∷ 0 ∷ 0 ∷ 0 ∷ 0 ∷ 0 ∷ []; modified = 19 }

do_opt-Adds_example : Adds (of_type 0) [] true padded
unfolding Hop.do_opt Hop.addopt Hop.append
do_opt-Adds_example =
    do_opt-Adds no_db (λ s. none) heap 9 (codes "H0") [] [] Hop.initialize padded true idle idle
      (λ s a e. absurd (ground (arith, e))) (omega arith) bare_hop refl

finalize-Closed_example :
    (d' : HopPack) × (Hop.finalize frame (b'H' ∷ b't' ∷ []) 0 Hop.initialize ≡ (true, d'))
    × Closed (next_type frame (b'H' ∷ b't' ∷ []) 0 Hop.initialize 0) [] d'
finalize-Closed_example =
    finalize-Closed frame (b'H' ∷ b't' ∷ []) [] 0 Hop.initialize bare_hop (omega arith)

-- The text "::" alone is an address.
abbrev any6 : List ℕ → Option (List ℕ)
any6 s =
    if streq s (codes "::")
    then some (0 ∷ 0 ∷ 0 ∷ 0 ∷ 0 ∷ 0 ∷ 0 ∷ 0 ∷ 0 ∷ 0 ∷ 0 ∷ 0 ∷ 0 ∷ 0 ∷ 0 ∷ 0 ∷ [])
    else none

any6-sixteen : (s a : List ℕ) → any6 s ≡ some a → length a ≡ 16
any6-sixteen s a e = ground (arith, e)

do_opt-addresses_example :
    (ok : Bool) × (d' : RouteData) × (Routing.do_opt no_db any6 heap 9
        (codes "oa")
        (codes "::")
        Routing.initialize
        idle
      ≡ done ((ok, d'), idle))
    × (length d'.tail ≡ 16 * length (address_texts (codes "::")))
    × (((ok ≡ true)
          × (addresses any6 (address_texts (codes "::")) ≡ some d'.tail)
          × (d'.header ≡ record Routing.initialize.header {
            hdrlen = u8 (4 * length (address_texts (codes "::")));
          })
          × (d'.modified ≡ mark 0 route_mod_addrlist))
        ⊎ ((ok ≡ false)
            × (addresses any6 (address_texts (codes "::")) ≡ none)
            × (d'.header ≡ Routing.initialize.header)
            × (d'.modified ≡ 0)))
do_opt-addresses_example =
    do_opt-addresses no_db any6 heap 9 (codes "oa") (codes "::") Routing.initialize idle refl
      any6-sixteen
