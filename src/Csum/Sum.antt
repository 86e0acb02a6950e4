-- ===== src/Csum/Sum.antt =====
-- csum.c: the sum of the words, as a plain sum.
use sendip.Base.{ℕ, ◌+◌, ◌*◌, ◌%◌, ◌^◌, ◌≤◌, ◌<◌, ◌≡◌, arith}
use sendip.Base.{List, [], ◌∷◌, ◌++◌, length, All, IsByte, ◌↔◌, ◌⊎◌, ◌∙◌, ap}
use native.Mathlib.Nat.{zero-add}
use sendip.Csum.{sum_words, fold, complement, csum}
use sendip.Csum.Fold.{fold-IsFold}

-- RFC 1071's sum of the 16-bit words, lower byte first; an odd byte counts as a word.
abbrev pub word_sum : List ℕ → ℕ
word_sum [] = 0
word_sum (a ∷ []) = a
word_sum (a ∷ b ∷ rest) = a + b * 256 + word_sum rest

-- A block that an `int` length can describe: at most 2 ^ 31 bytes.
abbrev pub IsBlock : List ℕ → Type 0
IsBlock bytes = All IsByte bytes × (length bytes ≤ 2 ^ 31)

pub word_sum-bound : (bytes : List ℕ) → All IsByte bytes → word_sum bytes ≤ length bytes * 65535
word_sum-bound [] h = omega arith
word_sum-bound (a ∷ []) h = omega arith
word_sum-bound (a ∷ b ∷ rest) h = omega (arith, word_sum-bound rest h.1.1)

pub sum_words-word_sum :
    (sum : ℕ) (bytes : List ℕ)
    → All IsByte bytes
    → sum + length bytes * 65535 < 2 ^ 64
    → sum_words sum bytes ≡ sum + word_sum bytes
unfolding sum_words
sum_words-word_sum sum [] h fits = omega arith
sum_words-word_sum sum (a ∷ []) h fits = omega arith
sum_words-word_sum sum (a ∷ b ∷ rest) h fits =
    omega (arith, sum_words-word_sum ((sum + (a + b * 256)) % 2 ^ 64) rest h.1.1 (omega arith))

pub word_sum-append :
    (front back : List ℕ)
    → length front % 2 ≡ 0
    → word_sum (front ++ back) ≡ word_sum front + word_sum back
word_sum-append [] back h = omega arith
word_sum-append (a ∷ []) back h = absurd (omega arith)
word_sum-append (a ∷ b ∷ front) back h = omega (arith, word_sum-append front back (omega arith))

pub csum-word_sum :
    (bytes : List ℕ) → IsBlock bytes → csum bytes ≡ complement (fold (word_sum bytes))
unfolding csum
csum-word_sum bytes h =
    ap (λ s. complement (fold s)) (sum_words-word_sum 0 bytes h.0 (omega arith) ∙ zero-add _)

-- The complement of a folded sum determines the sum's residue, and is a `u_int16_t`.
pub csum_residue :
    (bytes : List ℕ)
    → IsBlock bytes
    → (csum bytes < 2 ^ 16)
      × ((csum bytes + word_sum bytes) % 65535 ≡ 0)
      × (((word_sum bytes ≡ 0) × (csum bytes ≡ 65535))
          ⊎ ((0 < word_sum bytes) × (csum bytes < 65535)))
csum_residue bytes h =
    rw (csum-word_sum bytes h)
      (let f = fold-IsFold (word_sum bytes) in (omega arith, omega arith, ground arith))

-- The checksum is 0 exactly where the words add up to a nonzero multiple of 2 ^ 16 - 1.
pub csum-eq-zero_iff :
    (bytes : List ℕ)
    → IsBlock bytes
    → (csum bytes ≡ 0) ↔ ((word_sum bytes % 65535 ≡ 0) × (0 < word_sum bytes))
csum-eq-zero_iff bytes h =
    rw (csum-word_sum bytes h)
      (let f = fold-IsFold (word_sum bytes) in ((λ e. omega arith), (λ e. omega arith)))
