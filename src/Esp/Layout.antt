-- ===== src/Esp/Layout.antt =====
-- esp.c: the packet that finalize leaves.
use sendip.Base.{
  ℕ, ◌+◌, ◌*◌, ◌%◌, ◌≤◌, ◌<◌, ◌≡◌, refl, sym, ap, ◌∙◌, arith, List, [], ◌∷◌, ◌++◌, false, ltb, ◌⊎◌,
  length, length-append, length-take, length-drop, length-replicate, length-write_bytes, take, drop,
  replicate, write_bytes, take-write_bytes, drop-write_bytes, take-append_le, Option, inl, inr,
  Bool-cases, ◌==◌, if◌then◌else◌, drop-front, drop-drop, zero, suc,
}
use mathlib.Core.List.{append_assoc}
use mathlib.Core.Path.{subst}
use sendip.Base.Flags.{has}
use sendip.World.{done}
use sendip.Headers.{header_type}
use sendip.Pack.{Frame, next_hdr}
use sendip.Esp.{
  EspPack, EspPrivate, EspState, CryptoModule, esp_mod_padding, esp_mod_nexthdr, ivicv,
}
use sendip.Esp.Finalize.{
  padding_for, padlen, nexthdr, trailer, icv_of, final_length, moved, rearrange, finalize,
  run_modules,
}

-- The bytes of the IV, which stand behind the fixed part of the pack.
abbrev pub iv_of : EspPack → List ℕ
iv_of d = take d.private.ivlen (drop 12 d.data')

-- Three writes: the IV over the old trailer, the data behind it, the new trailer behind that.
three_writes :
    (front rest iv back : List ℕ)
    → 8 + length iv ≤ length front
    → 8 + length iv + length rest + length back ≤ length front + length rest
    → let first = write_bytes 8 iv (front ++ rest) in
      let second = write_bytes (8 + length iv) (drop (length front) first) first in
      take
        (8 + length iv + length rest + length back)
        (write_bytes (8 + length iv + length rest) back second)
      ≡ take 8 front ++ (iv ++ (rest ++ back))
three_writes front rest iv back inside room =
    let block = front ++ rest in
    let size : length block ≡ length front + length rest = length-append front rest in
    let first = write_bytes 8 iv block in
    let size₁ : length first ≡ length block = length-write_bytes 8 iv block (omega arith) in
    let data_kept : drop (length front) first ≡ rest =
      drop-write_bytes (length front) 8 iv block (omega arith) inside
      ∙ ap (λ k. drop k block) (omega arith)
      ∙ drop-front front rest 0 in
    let second = write_bytes (8 + length iv) rest first in
    let size₂ : length second ≡ length first =
      length-write_bytes (8 + length iv) rest first (omega arith) in
    let same : write_bytes (8 + length iv) (drop (length front) first) first ≡ second =
      ap (λ d. write_bytes (8 + length iv) d first) data_kept in
    let i = 8 + length iv + length rest in
    ap (λ s. take (i + length back) (write_bytes i back s)) same
    ∙ take-write_bytes i back second (omega arith)
    ∙ ap (λ t. t ++ back) (take-write_bytes (8 + length iv) rest first (omega arith))
    ∙ ap (λ t. (t ++ rest) ++ back) (take-write_bytes 8 iv block (omega arith))
    ∙ ap (λ t. ((t ++ iv) ++ rest) ++ back) (take-append_le 8 front rest (omega arith))
    ∙ append_assoc (take 8 front ++ iv) rest back
    ∙ append_assoc (take 8 front) iv (rest ++ back)

length-slice : (n i : ℕ) (xs : List ℕ) → i + n ≤ length xs → length (take n (drop i xs)) ≡ n
length-slice n i xs h = omega (arith, length-take n (drop i xs), length-drop i xs)

drop-append_le : (n : ℕ) (xs ys : List ℕ) → n ≤ length xs → drop n (xs ++ ys) ≡ drop n xs ++ ys
drop-append_le zero xs ys h = refl
drop-append_le (suc n) [] ys h = absurd (omega arith)
drop-append_le (suc n) (x ∷ xs) ys h = drop-append_le n xs ys (omega arith)

slice-append :
    (n i : ℕ) (xs ys : List ℕ) → i + n ≤ length xs → take n (drop i (xs ++ ys)) ≡ take n (drop i xs)
slice-append n i xs ys h =
    ap (take n) (drop-append_le i xs ys (omega arith))
    ∙ take-append_le n (drop i xs) ys (omega (arith, length-drop i xs))

-- A slice of no bytes may stand anywhere.
length-slice_or :
    (n i : ℕ) (xs : List ℕ) → (n ≡ 0) ⊎ (i + n ≤ length xs) → length (take n (drop i xs)) ≡ n
length-slice_or n i xs (inl e) = omega (arith, length-take n (drop i xs))
length-slice_or n i xs (inr h) = length-slice n i xs h

take_none : (n : ℕ) (xs : List ℕ) → n ≡ 0 → take n xs ≡ []
take_none n xs e = ap (λ k. take k xs) e

slice_or-append :
    (n i : ℕ) (xs ys : List ℕ)
    → (n ≡ 0) ⊎ (i + n ≤ length xs)
    → take n (drop i (xs ++ ys)) ≡ take n (drop i xs)
slice_or-append n i xs ys (inl e) =
    take_none n (drop i (xs ++ ys)) e ∙ sym (take_none n (drop i xs) e)
slice_or-append n i xs ys (inr h) = slice-append n i xs ys h

-- The pack has room for IV and ICV, as do_opt makes it, and the ICV, if there is one, stands in it
-- where `&ivicv[ivlen]` points, which is four bytes further for each byte of the IV.
pub record IsRoomy (d : EspPack) : Type 0 where
  pub iv : 16 + d.private.ivlen + d.private.icvlen ≤ length d.data'
  pub icv : (d.private.icvlen ≡ 0) ⊎ (ivicv d.private.ivlen + d.private.icvlen ≤ length d.data')

abbrev pub icv_bytes : EspPack → List ℕ
icv_bytes d = take d.private.icvlen (drop (4 * d.private.ivlen) (drop 12 d.data'))

-- The packet in the end: the header, the IV, the data, the padding with its length and the type of
-- what is inside, and the ICV.
abbrev pub esp_packet : EspPack → List ℕ → List ℕ
esp_packet d rest = take 8 d.data' ++ (iv_of d ++ (rest ++ trailer d (icv_bytes d)))

moved-esp_packet :
    (d : EspPack) (rest : List ℕ) → IsRoomy d → padlen d ≤ 6 → moved d rest ≡ esp_packet d rest
moved-esp_packet d rest h small =
    let block = d.data' ++ rest in
    let iv = take d.private.ivlen (drop 12 block) in
    let icv = icv_of d block in
    let size = length-append d.data' rest in
    let iv_size : length iv ≡ d.private.ivlen =
      length-slice d.private.ivlen 12 block (omega (arith, size, h)) in
    let icv_size : length icv ≡ d.private.icvlen =
      length-slice_or d.private.icvlen (ivicv d.private.ivlen) block (omega (arith, size, h.icv)) in
    let back = trailer d icv in
    let back_size : length back ≡ padlen d + 2 + d.private.icvlen = omega (
      arith,
      icv_size,
      length-append (replicate (padlen d) 0) (padlen d ∷ nexthdr d ∷ icv),
      length-replicate {A = ℕ} (padlen d) 0,
    ) in
    let moves =
      three_writes d.data' rest iv back (omega (arith, iv_size, h))
        (omega (arith, iv_size, back_size, h, small)) in
    let first = write_bytes 8 iv block in
    let result : ℕ → ℕ → List ℕ = λ k n. take n (
      write_bytes (8 + k + length rest) back
        (write_bytes (8 + k) (drop (length d.data') first) first)) in
    ap (λ k. result k (final_length d (length rest))) (sym iv_size)
    ∙ ap (result (length iv)) (omega (arith, iv_size, back_size))
    ∙ moves
    ∙ ap (λ v. take 8 d.data' ++ (v ++ (rest ++ back)))
        (slice-append d.private.ivlen 12 d.data' rest (omega (arith, h)))
    ∙ ap (λ v. take 8 d.data' ++ (iv_of d ++ (rest ++ trailer d v)))
        (slice_or-append d.private.icvlen (ivicv d.private.ivlen) d.data' rest h.icv
          ∙ ap (take d.private.icvlen) (sym (drop-drop 12 (4 * d.private.ivlen) d.data')))

rearrange-esp_packet :
    (d : EspPack) (rest : List ℕ)
    → IsRoomy d
    → padlen d ≤ 6
    → rearrange d rest ≡ done (esp_packet d rest)
unfolding rearrange
rearrange-esp_packet d rest h small =
    let size = length d.data' + length rest in
    let writes : ltb size (final_length d (length rest)) ≡ false = ground (arith, h, small) in
    elim (Bool-cases (d.private.icvlen == 0)) [
      | inl without ↦ rw (without, writes) (ap done (moved-esp_packet d rest h small))
      | inr with_icv ↦
          let reads : ltb size (ivicv d.private.ivlen + d.private.icvlen) ≡ false =
            ground (arith, with_icv, h.icv) in
          rw (with_icv, reads, writes) (ap done (moved-esp_packet d rest h small))
    ]

padding_for-aligns : (n : ℕ) → ((n + padding_for n + 2) % 4 ≡ 0) × (padding_for n < 4)
padding_for-aligns n = (omega arith, omega arith)

ten_bytes :
    (xs : List ℕ)
    → 10 ≤ length xs
    → (a b c d e f g h p n : ℕ) × (back : List ℕ) × (xs
        ≡ a ∷ b ∷ c ∷ d ∷ e ∷ f ∷ g ∷ h ∷ p ∷ n ∷ back)
ten_bytes [] h = absurd (omega arith)
ten_bytes (x0 ∷ []) h = absurd (omega arith)
ten_bytes (x0 ∷ x1 ∷ []) h = absurd (omega arith)
ten_bytes (x0 ∷ x1 ∷ x2 ∷ []) h = absurd (omega arith)
ten_bytes (x0 ∷ x1 ∷ x2 ∷ x3 ∷ []) h = absurd (omega arith)
ten_bytes (x0 ∷ x1 ∷ x2 ∷ x3 ∷ x4 ∷ []) h = absurd (omega arith)
ten_bytes (x0 ∷ x1 ∷ x2 ∷ x3 ∷ x4 ∷ x5 ∷ []) h = absurd (omega arith)
ten_bytes (x0 ∷ x1 ∷ x2 ∷ x3 ∷ x4 ∷ x5 ∷ x6 ∷ []) h = absurd (omega arith)
ten_bytes (x0 ∷ x1 ∷ x2 ∷ x3 ∷ x4 ∷ x5 ∷ x6 ∷ x7 ∷ []) h = absurd (omega arith)
ten_bytes (x0 ∷ x1 ∷ x2 ∷ x3 ∷ x4 ∷ x5 ∷ x6 ∷ x7 ∷ x8 ∷ []) h = absurd (omega arith)
ten_bytes (x0 ∷ x1 ∷ x2 ∷ x3 ∷ x4 ∷ x5 ∷ x6 ∷ x7 ∷ x8 ∷ x9 ∷ back) h =
    (x0, x1, x2, x3, x4, x5, x6, x7, x8, x9, back, refl)

-- The header, the IV, the data, the padding, its length, the type of what is inside, the ICV.
abbrev pub plain_packet : EspPack → List ℕ → ℕ → ℕ → List ℕ
plain_packet d rest pad type =
    take 8 d.data' ++ (iv_of d ++ (rest ++ (replicate pad 0 ++ (pad ∷ type ∷ icv_bytes d))))

-- The packet that finalize hands to the crypto modules.
abbrev pub Leaves : Frame → List ℕ → ℕ → List ℕ → EspState → Type 0
Leaves f hdrs index rest s =
    (pad type : ℕ) × (pad < 4)
    × ((s.pack.private.ivlen + length rest + pad + 2) % 4 ≡ 0)
    × (finalize f hdrs index rest s
        ≡ run_modules s s.pack.private (done (plain_packet s.pack rest pad type)))
    × ((has s.pack.modified esp_mod_nexthdr ≡ false) → type ≡ header_type (next_hdr f hdrs index))

abbrev pack_of : List ℕ → ℕ → EspPrivate → EspPack
pack_of bytes modified private = record { data' = bytes; modified = modified; private = private }

abbrev state_of : EspPack → Option CryptoModule → Option CryptoModule → EspState
state_of d auth crypt = record { pack = d; authesp = auth; cryptoesp = crypt }

ten_bytes-Leaves :
    (fr : Frame) (hdrs : List ℕ) (index : ℕ) (rest : List ℕ) (a b c d e f g h p n : ℕ)
    (back : List ℕ) (modified : ℕ) (private : EspPrivate) (auth crypt : Option CryptoModule)
    → has modified esp_mod_padding ≡ false
    → IsRoomy (pack_of (a ∷ b ∷ c ∷ d ∷ e ∷ f ∷ g ∷ h ∷ p ∷ n ∷ back) modified private)
    → Leaves fr hdrs index rest (
        state_of
          (pack_of (a ∷ b ∷ c ∷ d ∷ e ∷ f ∷ g ∷ h ∷ p ∷ n ∷ back) modified private)
          auth
          crypt)
unfolding finalize
ten_bytes-Leaves fr hdrs index rest a b c d e f g h p n back modified private auth crypt unset
      room =
    let pad = padding_for (length rest + private.ivlen) in
    let next = header_type (next_hdr fr hdrs index) in
    let type = if has modified esp_mod_nexthdr then n else next in
    let filled : ℕ → EspPack =
      λ t. pack_of (a ∷ b ∷ c ∷ d ∷ e ∷ f ∷ g ∷ h ∷ pad ∷ t ∷ back) modified private in
    let aligned = padding_for-aligns (length rest + private.ivlen) in
    let roomy : (t : ℕ) → IsRoomy (filled t) = λ t. record { iv = room.iv; icv = room.icv } in
    let small : pad ≤ 6 = omega (arith, aligned) in
    let packet = λ (t : ℕ).
      ap
        (λ r.
          run_modules
            (state_of (pack_of (a ∷ b ∷ c ∷ d ∷ e ∷ f ∷ g ∷ h ∷ p ∷ n ∷ back) modified private) auth
              crypt)
            private r)
        (rearrange-esp_packet (filled t) rest (roomy t) small) in
    (
      pad,
      type,
      aligned.1,
      omega (arith, aligned),
      elim (Bool-cases (has modified esp_mod_nexthdr)) [
        | inl kept ↦ rw (kept, unset) (packet n)
        | inr free ↦ rw (free, unset) (packet next)
      ],
      (λ free. rw free refl),
    )

-- Where the user set no padding, the pack has room for IV and ICV, and the ICV, if there is one,
-- stands in the pack where finalize looks for it, which an IV of two bytes or more may prevent:
-- finalize hands to the crypto modules, the one for authentication first, the header of eight bytes,
-- the IV, the data, fewer than four zeros, their number, the type of the next header and the ICV; up
-- to the ICV these are a multiple of four bytes. What it returns is what the modules make of that.
pub finalize-Leaves :
    (f : Frame) (hdrs : List ℕ) (index : ℕ) (rest : List ℕ) (s : EspState)
    → has s.pack.modified esp_mod_padding ≡ false
    → IsRoomy s.pack
    → Leaves f hdrs index rest s
finalize-Leaves f hdrs index rest s unset h =
    let (x0, x1, x2, x3, x4, x5, x6, x7, x8, x9, back, e) =
      ten_bytes s.pack.data' (omega (arith, h)) in
    let bytes = x0 ∷ x1 ∷ x2 ∷ x3 ∷ x4 ∷ x5 ∷ x6 ∷ x7 ∷ x8 ∷ x9 ∷ back in
    let at : List ℕ → EspState =
      λ b. state_of (pack_of b s.pack.modified s.pack.private) s.authesp s.cryptoesp in
    subst (λ b. Leaves f hdrs index rest (at b)) (sym e)
      (ten_bytes-Leaves f hdrs index rest x0 x1 x2 x3 x4 x5 x6 x7 x8 x9 back s.pack.modified
        s.pack.private s.authesp s.cryptoesp unset
        (subst (λ b. IsRoomy (pack_of b s.pack.modified s.pack.private)) e h))
