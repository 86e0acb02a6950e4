-- ===== src/Csum/Order.antt =====
-- csum.c: the checksum and the byte order of the words.
use sendip.Base.{ℕ, ◌*◌, ◌%◌, ◌<◌, ◌≡◌, ◌⊎◌, arith}
use sendip.Base.{List, [], ◌∷◌, length, All, IsByte, htons}
use sendip.Csum.{csum}
use sendip.Csum.Sum.{word_sum, IsBlock, csum_residue}

-- The bytes with the two of each word exchanged; an odd byte is left.
abbrev pub swap_pairs : List ℕ → List ℕ
swap_pairs [] = []
swap_pairs (a ∷ []) = a ∷ []
swap_pairs (a ∷ b ∷ rest) = b ∷ a ∷ swap_pairs rest

length-swap_pairs : (bytes : List ℕ) → length (swap_pairs bytes) ≡ length bytes
length-swap_pairs [] = omega arith
length-swap_pairs (a ∷ []) = omega arith
length-swap_pairs (a ∷ b ∷ rest) = omega (arith, length-swap_pairs rest)

swap_pairs-IsByte : (bytes : List ℕ) → All IsByte bytes → All IsByte (swap_pairs bytes)
swap_pairs-IsByte [] h = h
swap_pairs-IsByte (a ∷ []) h = h
swap_pairs-IsByte (a ∷ b ∷ rest) h = (h.1.0, (h.0, swap_pairs-IsByte rest h.1.1))

-- Multiplication by 256 exchanges the bytes of a word, up to the residue.
word_sum-swap_pairs :
    (bytes : List ℕ)
    → length bytes % 2 ≡ 0
    → (word_sum (swap_pairs bytes) * 256) % 65535 ≡ word_sum bytes % 65535
word_sum-swap_pairs [] h = omega arith
word_sum-swap_pairs (a ∷ []) h = absurd (omega arith)
word_sum-swap_pairs (a ∷ b ∷ rest) h = omega (arith, word_sum-swap_pairs rest (omega arith))

word_sum-swap_pairs_zero :
    (bytes : List ℕ)
    → ((word_sum bytes ≡ 0) × (word_sum (swap_pairs bytes) ≡ 0))
      ⊎ ((0 < word_sum bytes) × (0 < word_sum (swap_pairs bytes)))
word_sum-swap_pairs_zero [] = ground arith
word_sum-swap_pairs_zero (a ∷ []) = ground arith
word_sum-swap_pairs_zero (a ∷ b ∷ rest) = ground (arith, word_sum-swap_pairs_zero rest)

-- RFC 1071: for an even count of bytes, the checksum over the exchanged words is the checksum with
-- its own bytes exchanged.
pub csum-swap_pairs :
    (bytes : List ℕ)
    → IsBlock bytes
    → length bytes % 2 ≡ 0
    → csum (swap_pairs bytes) ≡ htons (csum bytes)
csum-swap_pairs bytes h even =
    let r = csum_residue bytes h in
    let s =
      csum_residue (swap_pairs bytes)
        (swap_pairs-IsByte bytes h.0, omega (arith, length-swap_pairs bytes)) in
    let e = word_sum-swap_pairs bytes even in omega (arith, word_sum-swap_pairs_zero bytes)
