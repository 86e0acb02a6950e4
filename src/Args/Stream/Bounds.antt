-- ===== src/Args/Stream/Bounds.antt =====
-- What `str2val` stores and what it says that it stored.
use sendip.Base.{ℕ, zero, suc, ◌+◌, ◌*◌, ◌%◌, ◌≤◌, ◌≡◌, ◌⊎◌, inl, inr, arith}
use sendip.Base.{List, [], ◌∷◌, length, length-take, length-append, take}
use sendip.Base.{Bool, true, false, Option-cases, Bool-cases, ◌==◌, u8}
use sendip.Args.Stream.{Val, hex_loop, oct_digit, oct_loop, stream_val, strlcpy, str2val}
use sendip.Args.Stream.Hex.{hex_loop-bound}
use sendip.Libc.{rest_of}

oct_loop-bound : (i c max : ℕ) (p : List ℕ) → length (oct_loop i c max p).0 ≤ max
unfolding oct_loop
oct_loop-bound i c zero p = omega arith
oct_loop-bound i c (suc max) [] = ground arith
oct_loop-bound i c (suc max) (d ∷ p) = elim (Option-cases (oct_digit d)) [
  | inl bad ↦ rw (bad, oct_loop) (omega arith)
  | inr (v, good) ↦ elim (Bool-cases (i % 4 == 3)) [
    | inl last ↦ rw (good, oct_loop) (rw last (omega (arith, oct_loop-bound (i + 1) 0 max p)))
    | inr more ↦
        rw (good, oct_loop) (rw more (oct_loop-bound (i + 1) (u8 (u8 (c + v) * 4)) (suc max) p))
  ]
]

-- `val` keeps to a buffer of `outlen` bytes, and its count covers stored bytes only; else the count
-- is the length of the input, which the buffer is too small for.
abbrev pub KeepsTo : ℕ → List ℕ → Val → Type 0
KeepsTo outlen input val =
    (length val.written ≤ outlen)
    × ((val.count ≤ length val.written) ⊎ ((outlen ≤ val.count) × (val.count ≡ length input)))

stream_val-KeepsTo :
    (outlen : ℕ) (input : List ℕ) (r : List ℕ × Bool)
    → length r.0 ≤ outlen
    → KeepsTo outlen input (stream_val r)
stream_val-KeepsTo outlen input (bytes, true) h = ground arith
stream_val-KeepsTo outlen input (bytes, false) h = ground arith

strlcpy-KeepsTo : (outlen : ℕ) (input : List ℕ) → KeepsTo outlen input (strlcpy input outlen)
strlcpy-KeepsTo zero input = ground arith
strlcpy-KeepsTo (suc n) input =
    ground (arith, length-append (take n input) (0 ∷ []), length-take n input)

-- `str2val` never stores more than `outlen` bytes. It returns at most the number of bytes stored,
-- or, for plain text that does not fit, the length of the text, which is `outlen` or more.
pub str2val-KeepsTo : (input : List ℕ) (outlen : ℕ) → KeepsTo outlen input (str2val input outlen)
unfolding str2val
str2val-KeepsTo input outlen =
    let p = rest_of input in
    ground (
      arith,
      stream_val-KeepsTo outlen input (hex_loop false 0 outlen (rest_of p))
          (hex_loop-bound false 0 outlen (rest_of p)),
      stream_val-KeepsTo outlen input (oct_loop 0 0 outlen p) (oct_loop-bound 0 0 outlen p),
      strlcpy-KeepsTo outlen input,
    )
