-- ===== src/Frag/Fields.antt =====
-- frag.c: the offset and the flags, which share 16 bits.
use sendip.Base.{ℕ, ◌+◌, ◌*◌, ◌/◌, ◌%◌, ◌^◌, ◌<◌, ◌≡◌, arith, bit_and, bit_or, htons, u16}
use sendip.Base.Bits.{bit_and-mask, bit_and_digit, bit_or-low_high, bit_or-high_low}
use sendip.Pack.{FragHeader, Frame, frag, alloc_len}
use sendip.Base.{List}
use sendip.Frag.{FragData, finalize, frag_setoffset, frag_getoffset, frag_setflags, frag_getflags}

-- The mask of the offset.
bit_and-offset : (v : ℕ) → v < 2 ^ 16 → bit_and v 65528 ≡ v / 8 * 8
bit_and-offset v h = omega (
  arith,
  bit_and_digit v 65528,
  bit_and_digit (v / 2) 32764,
  bit_and_digit (v / 2 / 2) 16382,
  bit_and-mask (v / 2 / 2 / 2) 13,
)

-- Setting an offset below 2 ^ 13 makes `frag_getoffset` return it and `frag_getflags` what it
-- returned before.
pub frag_setoffset-fields :
    (h : FragHeader) (offset : ℕ)
    → h.frag_off < 2 ^ 16
    → offset < 2 ^ 13
    → (frag_getoffset (frag_setoffset offset h) ≡ offset)
      × (frag_getflags (frag_setoffset offset h) ≡ frag_getflags h)
unfolding frag_getoffset frag_setoffset frag_getflags
frag_setoffset-fields h offset fits small =
    let v : ℕ = htons h.frag_off in
    let kept : ℕ = bit_and v 7 in
    let low : kept ≡ v % 8 = bit_and-mask v 3 in
    let new : bit_or kept (offset * 2 ^ 3) ≡ kept + offset * 2 ^ 3 =
      bit_or-low_high 3 kept offset (omega (arith, low)) in
    let value : htons (htons (u16 (bit_or kept (offset * 2 ^ 3)))) ≡ v % 8 + offset * 8 =
      omega (arith, new, low) in
    (
      omega
          (arith, bit_and-offset (htons (htons (u16 (bit_or kept (offset * 2 ^ 3))))), value, low),
      omega
          (arith, bit_and-mask (htons (htons (u16 (bit_or kept (offset * 2 ^ 3))))) 3, value, low),
    )

-- Setting flags below 8 makes `frag_getflags` return them and `frag_getoffset` what it returned
-- before.
pub frag_setflags-fields :
    (h : FragHeader) (flags : ℕ)
    → h.frag_off < 2 ^ 16
    → flags < 8
    → (frag_getflags (frag_setflags flags h) ≡ flags)
      × (frag_getoffset (frag_setflags flags h) ≡ frag_getoffset h)
unfolding frag_getoffset frag_setflags frag_getflags
frag_setflags-fields h flags fits small =
    let v : ℕ = htons h.frag_off in
    let kept : ℕ = bit_and v 65528 in
    let high : kept ≡ v / 8 * 8 = bit_and-offset v (omega arith) in
    let new : bit_or (v / 8 * 8) flags ≡ v / 8 * 8 + flags =
      bit_or-high_low 3 (v / 8) flags (omega arith) in
    let same : bit_or kept flags ≡ v / 8 * 8 + flags = rw high new in
    let value : htons (htons (bit_or kept flags)) ≡ v / 8 * 8 + flags = omega (arith, same) in
    (
      omega (arith, bit_and-mask (htons (htons (bit_or kept flags))) 3, value),
      omega (arith, bit_and-offset (htons (htons (bit_or kept flags))), value, high),
    )

pub finalize-alloc_len :
    (f : Frame) (hdrs : List ℕ) (index : ℕ) (d : FragData)
    → alloc_len (frag (finalize f hdrs index d).1) ≡ alloc_len (frag d)
unfolding finalize
finalize-alloc_len f hdrs index d = ground arith
