-- ===== src/Hop/Kinds.antt =====
-- hop.c: the options that a letter stands for, and the bytes that store them.
use sendip.Base.{
  ℕ, ◌/◌, ◌%◌, ◌<◌, ◌≡◌, ◌≢◌, ◌⊎◌, inl, inr, arith, List, [], ◌∷◌, ◌++◌, Option, none, some, Bool,
  true, false, if◌then◌else◌, length, length-take, take, get_or, bit_or, ◌==◌, Bool-cases, ltb,
}
use sendip.Base.Bits.{bit_or_digit}
use sendip.Hop.{HopPack, HopOpt, stored, marked}
use sendip.Hop.Space.{Holds}

-- One option of RFC 8200: a Pad1, or a type with a length and as many bytes.
abbrev pub IsOption : List ℕ → Type 0
IsOption bytes =
    (bytes ≡ 0 ∷ [])
    ⊎ ((type : ℕ) × (value : List ℕ) × (type ≢ 0)
        × (length value < 256)
        × (bytes ≡ type ∷ length value ∷ value))

-- What a letter of an option stands for: an option of a type, an option of any type, or none.
pub data Kind : Type 0 where
  keeps : Kind
  of_type : ℕ → Kind
  free : Kind

abbrev pub kind_of : ℕ → Kind
kind_of c =
    if c == b'n'
    then keeps
    else if c == b'0'
    then of_type 0
    else if c == b'p'
    then of_type 1
    else if c == b'r'
    then of_type 5
    else if c == b'j'
    then of_type 194
    else if c == b'h'
    then of_type 201
    else if c == b'a'
    then free
    else keeps

abbrev pub IsOfKind : Kind → List ℕ → Type 0
IsOfKind keeps bytes = ⊥
IsOfKind (of_type type) bytes = get_or bytes 0 0 ≡ type
IsOfKind free bytes = Unit

-- With success, the pack holds `content` and one option of the kind more; without, or where the
-- letter stands for none, it holds what it held.
abbrev pub Adds : Kind → List ℕ → Bool → HopPack → Type 0
Adds k content ok d =
    ((ok ≡ true)
      × (bytes : List ℕ) × IsOption bytes
      × IsOfKind k bytes
      × Holds (content ++ bytes) d)
    ⊎ (((ok ≡ false) ⊎ (k ≡ keeps)) × Holds content d)

abbrev pub Suits : Kind → Option HopOpt → Type 0
Suits keeps opt = ⊥
Suits (of_type type) none = type ≡ 0
Suits (of_type type) (some o) = o.hopt_type ≡ type
Suits free opt = Unit

abbrev pub Short : Option HopOpt → Type 0
Short none = Unit
Short (some o) = o.hopt_len < 256

pub stored-IsOption :
    (opt : Option HopOpt) (bytes : List ℕ) → Short opt → stored opt ≡ some bytes → IsOption bytes
stored-IsOption none bytes short e = inl (ground (arith, e))
stored-IsOption (some o) bytes short e = elim (Bool-cases (o.hopt_type == 0)) [
  | inl pad ↦ inl (ground (arith, pad, e))
  | inr typed ↦ elim (Bool-cases (ltb (length o.hopt_data) o.hopt_len)) [
    | inl over ↦ absurd (ground (arith, typed, over, e))
    | inr within ↦
        let value = take o.hopt_len o.hopt_data in
        let full : length value ≡ o.hopt_len =
          ground (arith, within, length-take o.hopt_len o.hopt_data) in
        inr (
          o.hopt_type,
          value,
          ground (arith, typed),
          ground (arith, full, short),
          rw full (ground (arith, typed, within, e)),
        )
  ]
]

pub stored-IsOfKind :
    (k : Kind) (opt : Option HopOpt) (bytes : List ℕ)
    → Suits k opt
    → stored opt ≡ some bytes
    → IsOfKind k bytes
stored-IsOfKind keeps opt bytes suits e = absurd suits
stored-IsOfKind (of_type type) none bytes suits e = ground (arith, suits, e)
stored-IsOfKind (of_type type) (some o) bytes suits e = ground (arith, suits, e)
stored-IsOfKind free opt bytes suits e = tt

high_bit : (m f : ℕ) → f % 8 ≡ 0 → bit_or m f % 8 ≡ m % 8
high_bit m f h =
    omega
      (arith, bit_or_digit m f, bit_or_digit (m / 2) (f / 2), bit_or_digit (m / 2 / 2) (f / 2 / 2))

pub marked-Holds :
    (bit : ℕ) (content : List ℕ) (d : HopPack)
    → bit % 8 ≡ 0
    → Holds content d
    → Holds content (marked bit d)
marked-Holds bit content d low h = record {
  nexthdr = h.nexthdr;
  hdrlen = h.hdrlen;
  spare = h.spare;
  block = h.block;
  used = omega (arith, h.used, high_bit d.modified bit low);
  whole = h.whole;
}
