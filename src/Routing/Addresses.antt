-- ===== src/Routing/Addresses.antt =====
-- route.c: the address list.
use sendip.Base.{
  ℕ, ◌+◌, ◌-◌, ◌*◌, ◌≤◌, ◌≡◌, ◌⊎◌, inl, inr, refl, sym, ap, ◌∙◌, arith, List, [], ◌∷◌, ◌++◌, Option,
  none, some, Option-cases, Bool, true, false, length, length-append, length-take, length-gained,
  gained, take, take-front, take-write_bytes, get_or, write_bytes, length-write_bytes, grown, u8,
}
use sendip.Base.Flags.{mark}
use sendip.World.{World, done}
use sendip.Protoname.{Protocols}
use sendip.Routing.{RouteData, address_texts, put_addrs, readaddrs, do_opt, route_mod_addrlist}
use mathlib.Core.List.{append_assoc, append-nil}

-- The addresses one behind the other, if all can be read.
abbrev pub joined : Option (List ℕ) → Option (List ℕ) → Option (List ℕ)
joined (some a) (some rest) = some (a ++ rest)
joined _ _ = none

abbrev pub addresses : (List ℕ → Option (List ℕ)) → List (List ℕ) → Option (List ℕ)
addresses inet_pton6 [] = some []
addresses inet_pton6 (text ∷ texts) = joined (inet_pton6 text) (addresses inet_pton6 texts)

take-whole : (n : ℕ) (xs : List ℕ) → length xs ≡ n → take n xs ≡ xs
take-whole n xs e =
    ap (λ k. take k xs) (sym e) ∙ ap (take (length xs)) (sym (append-nil xs)) ∙ take-front xs []

joined-some :
    (o p : Option (List ℕ)) (bs : List ℕ)
    → joined o p ≡ some bs
    → (a : List ℕ) × (rest : List ℕ) × (o ≡ some a) × (p ≡ some rest) × (a ++ rest ≡ bs)
joined-some (some a) (some rest) bs e = (a, rest, refl, refl, ground (arith, e))
joined-some (some a) none bs e = absurd (ground (arith, e))
joined-some none p bs e = absurd (ground (arith, e))

put_addrs-read :
    (inet_pton6 : List ℕ → Option (List ℕ)) (i : ℕ) (text a : List ℕ) (texts : List (List ℕ))
    (tail : List ℕ)
    → inet_pton6 text ≡ some a
    → put_addrs inet_pton6 i (text ∷ texts) tail
      ≡ put_addrs inet_pton6 (i + 1) texts (write_bytes (16 * i) a tail)
unfolding put_addrs
put_addrs-read inet_pton6 i text a texts tail e = cc

put_addrs-refused :
    (inet_pton6 : List ℕ → Option (List ℕ)) (i : ℕ) (text : List ℕ) (texts : List (List ℕ))
    (tail : List ℕ)
    → inet_pton6 text ≡ none
    → put_addrs inet_pton6 i (text ∷ texts) tail ≡ (false, tail)
unfolding put_addrs
put_addrs-refused inet_pton6 i text texts tail e = cc

-- Where every text can be read, the addresses follow those before `i`.
put_addrs-all :
    (inet_pton6 : List ℕ → Option (List ℕ)) (i : ℕ) (texts : List (List ℕ)) (tail bs : List ℕ)
    → ((s a : List ℕ) → inet_pton6 s ≡ some a → length a ≡ 16)
    → length tail ≡ 16 * (i + length texts)
    → addresses inet_pton6 texts ≡ some bs
    → put_addrs inet_pton6 i texts tail ≡ (true, take (16 * i) tail ++ bs)
unfolding put_addrs
put_addrs-all inet_pton6 i [] tail bs six size e =
    let nothing : [] ≡ bs = ground (arith, e) in
    let whole : take (16 * i) tail ++ bs ≡ tail =
      ap (λ b. take (16 * i) tail ++ b) (sym nothing)
      ∙ append-nil (take (16 * i) tail)
      ∙ take-whole (16 * i) tail (omega (arith, size)) in
    ap (λ t. (true, t)) (sym whole)
put_addrs-all inet_pton6 i (text ∷ texts) tail bs six size e =
    let (a, rest, read, others, both) =
      joined-some (inet_pton6 text) (addresses inet_pton6 texts) bs e in
    let sixteen = six text a read in
    let tail' = write_bytes (16 * i) a tail in
    let fits : 16 * i + length a ≤ length tail = omega (arith, size, sixteen) in
    let later =
      put_addrs-all inet_pton6 (i + 1) texts tail' rest six
        (omega (arith, size, length-write_bytes (16 * i) a tail fits)) others in
    let place : 16 * (i + 1) ≡ 16 * i + length a = omega (arith, sixteen) in
    put_addrs-read inet_pton6 i text a texts tail read
    ∙ (later
        ∙ ap (λ t. (true, t ++ rest))
            (ap (λ n. take n tail') place ∙ take-write_bytes (16 * i) a tail fits)
        ∙ ap (λ t. (true, t))
            (append_assoc (take (16 * i) tail) a rest ∙ ap (λ b. take (16 * i) tail ++ b) both))

-- Where one cannot be read, the loop fails, and the block keeps its size.
put_addrs-length :
    (inet_pton6 : List ℕ → Option (List ℕ)) (i : ℕ) (texts : List (List ℕ)) (tail : List ℕ)
    → ((s a : List ℕ) → inet_pton6 s ≡ some a → length a ≡ 16)
    → length tail ≡ 16 * (i + length texts)
    → length (put_addrs inet_pton6 i texts tail).1 ≡ length tail
unfolding put_addrs
put_addrs-length inet_pton6 i [] tail six size = refl
put_addrs-length inet_pton6 i (text ∷ texts) tail six size = elim (Option-cases (inet_pton6 text)) [
  | inl bad ↦ ap (λ r. length r.1) (put_addrs-refused inet_pton6 i text texts tail bad)
  | inr (a, read) ↦
      let sixteen = six text a read in
      let fits : 16 * i + length a ≤ length tail = omega (arith, size, sixteen) in
      let kept = length-write_bytes (16 * i) a tail fits in
      ap (λ r. length r.1) (put_addrs-read inet_pton6 i text a texts tail read)
      ∙ (put_addrs-length inet_pton6 (i + 1) texts (write_bytes (16 * i) a tail) six
            (omega (arith, size, kept))
          ∙ kept)
]

put_addrs-fails :
    (inet_pton6 : List ℕ → Option (List ℕ)) (i : ℕ) (texts : List (List ℕ)) (tail : List ℕ)
    → addresses inet_pton6 texts ≡ none
    → (put_addrs inet_pton6 i texts tail).0 ≡ false
unfolding put_addrs
put_addrs-fails inet_pton6 i [] tail e = absurd (ground (arith, e))
put_addrs-fails inet_pton6 i (text ∷ texts) tail e = elim (Option-cases (inet_pton6 text)) [
  | inl bad ↦ ap (λ r. r.0) (put_addrs-refused inet_pton6 i text texts tail bad)
  | inr (a, read) ↦ elim (Option-cases (addresses inet_pton6 texts)) [
    | inl bad ↦
        ap (λ r. r.0) (put_addrs-read inet_pton6 i text a texts tail read)
        ∙ (put_addrs-fails inet_pton6 (i + 1) texts (write_bytes (16 * i) a tail) bad)
    | inr (rest, others) ↦ absurd (ground (arith, rw (read, others) at e))
  ]
]

-- `-oa`: the header becomes 8 bytes and 16 for each text between commas and spaces, of which 127
-- count. Where all texts are addresses, these are what stands there, in order, the length is four
-- times their number cut to 8 bits, and the list is marked as set. Where one is none, the option
-- fails; the header's fields and the marks stay.
pub do_opt-addresses :
    (db : Protocols) (inet_pton6 : List ℕ → Option (List ℕ)) (heap : ℕ → ℕ) (fuel : ℕ)
    (opt arg : List ℕ) (d : RouteData) (w : World)
    → get_or opt 1 0 ≡ b'a'
    → ((s a : List ℕ) → inet_pton6 s ≡ some a → length a ≡ 16)
    → (ok : Bool) × (d' : RouteData) × (do_opt db inet_pton6 heap fuel opt arg d w
        ≡ done ((ok, d'), w))
      × (length d'.tail ≡ 16 * length (address_texts arg))
      × (((ok ≡ true)
            × (addresses inet_pton6 (address_texts arg) ≡ some d'.tail)
            × (d'.header ≡ record d.header { hdrlen = u8 (4 * length (address_texts arg)) })
            × (d'.modified ≡ mark d.modified route_mod_addrlist))
          ⊎ ((ok ≡ false)
              × (addresses inet_pton6 (address_texts arg) ≡ none)
              × (d'.header ≡ d.header)
              × (d'.modified ≡ d.modified)))
unfolding do_opt readaddrs
do_opt-addresses db inet_pton6 heap fuel opt arg d w is_a six =
    let texts = address_texts arg in
    let size = 16 * length texts in
    let block = take size (grown heap size d.tail) in
    let sized : length block ≡ 16 * (0 + length texts) = omega (
      arith,
      length-take size (grown heap size d.tail),
      length-append d.tail (gained heap (length d.tail) (size - length d.tail)),
      length-gained heap (length d.tail) (size - length d.tail),
    ) in
    let r = put_addrs inet_pton6 0 texts block in
    let kept = put_addrs-length inet_pton6 0 texts block six sized in
    elim (Option-cases (addresses inet_pton6 texts)) [
      | inl bad ↦
          let no : r.0 ≡ false = put_addrs-fails inet_pton6 0 texts block bad in
          (
            false,
            record d { tail = r.1 },
            ground (arith, is_a, no),
            omega (arith, kept, sized),
            inr (refl, bad, refl, refl),
          )
      | inr (bs, read) ↦
          let yes : r ≡ (true, bs) = put_addrs-all inet_pton6 0 texts block bs six sized read in
          (
            true,
            record {
              header = record d.header { hdrlen = u8 (4 * length texts) };
              tail = bs;
              modified = mark d.modified route_mod_addrlist;
            },
            ground (arith, is_a, yes),
            omega (arith, kept, sized, ap (λ x. length x.1) yes),
            inl (refl, read, refl, refl),
          )
    ]
