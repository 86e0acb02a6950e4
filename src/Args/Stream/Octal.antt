-- ===== src/Args/Stream/Octal.antt =====
-- "Octal" streams: what `str2val` makes of groups of four digits.
use sendip.Base.{ℕ, zero, suc, ◌+◌, ◌*◌, ◌%◌, ◌<◌, min, ◌≡◌, refl, ap, ◌∙◌, arith}
use sendip.Base.{List, [], ◌∷◌, length, length-take, take, All, some}
use sendip.Base.{true, false, ◌||◌, ◌==◌}
use sendip.Args.Stream.{oct_digit, emit, oct_loop, stream_val, str2val}

oct_digit-char : (d : ℕ) → d < 8 → oct_digit (b'0' + d) ≡ some d
unfolding oct_digit
oct_digit-char d h = ground arith

-- Four digits at a multiple of four in the stream make one byte.
oct_loop-four :
    (i max a b c d : ℕ) (p : List ℕ)
    → a < 8
    → b < 8
    → c < 8
    → d < 8
    → i % 4 ≡ 0
    → oct_loop i 0 (suc max) ((b'0' + a) ∷ (b'0' + b) ∷ (b'0' + c) ∷ (b'0' + d) ∷ p)
      ≡ emit ((64 * a + 16 * b + 4 * c + d) % 256) (oct_loop (i + 1 + 1 + 1 + 1) 0 max p)
unfolding oct_loop
oct_loop-four i max a b c d p ha hb hc hd hi =
    ground
      (arith, oct_digit-char a ha, oct_digit-char b hb, oct_digit-char c hc, oct_digit-char d hd)

abbrev pub Quad : Type 0
Quad = ℕ × ℕ × ℕ × ℕ

abbrev pub IsQuad : Quad → Type 0
IsQuad (a, b, c, d) = (a < 8) × (b < 8) × (c < 8) × (d < 8)

abbrev pub quad_text : List Quad → List ℕ
quad_text [] = []
quad_text ((a, b, c, d) ∷ quads) =
    (b'0' + a) ∷ (b'0' + b) ∷ (b'0' + c) ∷ (b'0' + d) ∷ quad_text quads

abbrev pub quad_bytes : List Quad → List ℕ
quad_bytes [] = []
quad_bytes ((a, b, c, d) ∷ quads) = (64 * a + 16 * b + 4 * c + d) % 256 ∷ quad_bytes quads

oct_loop-quads :
    (quads : List Quad) (i max : ℕ)
    → All IsQuad quads
    → i % 4 ≡ 0
    → oct_loop i 0 max (quad_text quads) ≡ (take max (quad_bytes quads), true)
oct_loop-quads quads i zero h hi = unfold oct_loop in refl
oct_loop-quads [] i (suc max) h hi = unfold oct_loop in ground arith
oct_loop-quads ((a, b, c, d) ∷ quads) i (suc max) ((ha, hb, hc, hd), h) hi =
    oct_loop-four i max a b c d (quad_text quads) ha hb hc hd hi
    ∙ ap (emit ((64 * a + 16 * b + 4 * c + d) % 256))
        (oct_loop-quads quads (i + 1 + 1 + 1 + 1) max h (omega arith))

str2val-octal :
    (quads : List Quad) (outlen : ℕ)
    → All IsQuad quads
    → str2val (b'0' ∷ quad_text quads) outlen ≡ stream_val (oct_loop 0 0 outlen (quad_text quads))
unfolding str2val
str2val-octal [] outlen h = refl
str2val-octal ((a, b, c, d) ∷ quads) outlen h =
    let not_x : ((b'0' + a == b'x') || (b'0' + a == b'X')) ≡ false = ground arith in rw not_x refl

-- Behind a leading "0", each group of four digits a, b, c, d from 0 to 7 is read as the byte
-- 64 a + 16 b + 4 c + d, cut to 8 bits: the digits count in base 4. As many bytes are stored as
-- the buffer holds.
pub str2val-quad_text :
    (quads : List Quad) (outlen : ℕ)
    → All IsQuad quads
    → str2val (b'0' ∷ quad_text quads) outlen ≡ record {
      written = take outlen (quad_bytes quads);
      count = min outlen (length (quad_bytes quads));
    }
str2val-quad_text quads outlen h =
    str2val-octal quads outlen h
    ∙ ap stream_val (oct_loop-quads quads 0 outlen h refl)
    ∙ rw (length-take outlen (quad_bytes quads)) refl
