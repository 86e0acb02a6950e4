-- ===== src/Csum/Verify.antt =====
-- A receiver's check: the checksum of data that carries its own checksum.
use sendip.Base.{ℕ, ◌+◌, ◌*◌, ◌%◌, ◌<◌, ◌≡◌, ◌≢◌, ◌↔◌, refl, ap, sym, ◌∙◌, arith}
use sendip.Base.{List, [], ◌∷◌, ◌++◌, length, length-append, All, All, IsByte, bytes16, u64}
use sendip.Csum.{csum, complement, fold, sum_words, sum_blocks, csumv}
use sendip.Csum.Sum.{word_sum, word_sum-append, IsBlock, csum_residue, csum-eq-zero_iff}
use mathlib.Core.List.{append-nil}

-- Data whose words exceed those of `zeroed` by its checksum passes.
pub csum_completes :
    (zeroed filled : List ℕ)
    → IsBlock zeroed
    → IsBlock filled
    → word_sum filled ≡ word_sum zeroed + csum zeroed
    → csum filled ≡ 0
csum_completes zeroed filled hz hf e =
    let r = csum_residue zeroed hz in (csum-eq-zero_iff filled hf).1 (omega arith, omega arith)

-- Data whose words differ from such a sum by no multiple of 2 ^ 16 - 1 fails.
pub csum_fails :
    (zeroed filled : List ℕ) (d : ℕ)
    → IsBlock zeroed
    → IsBlock filled
    → word_sum filled ≡ word_sum zeroed + csum zeroed + d
    → d % 65535 ≢ 0
    → csum filled ≢ 0
csum_fails zeroed filled d hz hf e ne z =
    let r = csum_residue zeroed hz in let q = (csum-eq-zero_iff filled hf).0 z in ne (omega arith)

All-replace :
    (front back : List ℕ) (x y : ℕ) {a b : ℕ}
    → a < 256
    → b < 256
    → All IsByte (front ++ (x ∷ y ∷ back))
    → All IsByte (front ++ (a ∷ b ∷ back))
All-replace [] back x y ha hb h = (ha, (hb, h.1.1))
All-replace (z ∷ front) back x y ha hb h = (h.0, All-replace front back x y ha hb h.1)

-- A checksum stored at an even offset over two zero bytes makes the whole block pass: its checksum
-- is then 0. The block holds bytes and at most 2 ^ 31 of them.
pub csum_patched :
    (front back : List ℕ)
    → length front % 2 ≡ 0
    → IsBlock (front ++ (0 ∷ 0 ∷ back))
    → csum (front ++ (bytes16 (csum (front ++ (0 ∷ 0 ∷ back))) ++ back)) ≡ 0
csum_patched front back even h =
    let zeroed = front ++ (0 ∷ 0 ∷ back) in
    let c = csum zeroed in
    let r = csum_residue zeroed h in
    csum_completes zeroed (front ++ (bytes16 c ++ back)) h
      (
        All-replace front back 0 0 (omega arith) (omega arith) h.0,
        omega (arith, length-append front (bytes16 c ++ back), length-append front (0 ∷ 0 ∷ back)),
      )
      (omega (
        arith,
        word_sum-append front (bytes16 c ++ back) even,
        word_sum-append front (0 ∷ 0 ∷ back) even,
      ))

-- A checksum that is taken over what stood in its place makes the block pass exactly where that was
-- 0 or 65535. The words in front do not add up to 0.
pub csum_replaced :
    (front back : List ℕ) (a b : ℕ)
    → length front % 2 ≡ 0
    → 0 < word_sum front
    → IsBlock (front ++ (a ∷ b ∷ back))
    → (csum (front ++ (bytes16 (csum (front ++ (a ∷ b ∷ back))) ++ back)) ≡ 0)
      ↔ ((a + b * 256) % 65535 ≡ 0)
csum_replaced front back a b even some_word h =
    let old = front ++ (a ∷ b ∷ back) in
    let new = front ++ (bytes16 (csum old) ++ back) in
    let r = csum_residue old h in
    let block : IsBlock new = (
      All-replace front back a b (omega arith) (omega arith) h.0,
      omega (
        arith,
        length-append front (bytes16 (csum old) ++ back),
        length-append front (a ∷ b ∷ back),
      ),
    ) in
    let q = csum-eq-zero_iff new block in
    let sum_new = word_sum-append front (bytes16 (csum old) ++ back) even in
    let sum_old = word_sum-append front (a ∷ b ∷ back) even in
    (
      (λ e. let z = q.0 e in omega (arith, z, r, sum_new, sum_old)),
      (λ e. q.1 (omega (arith, e, r, sum_new, sum_old), omega (arith, sum_new, some_word))),
    )

-- Adding a whole even block first is the same as one pass over both.
pub sum_words-append :
    (sum : ℕ) (front back : List ℕ)
    → length front % 2 ≡ 0
    → sum_words sum (front ++ back) ≡ sum_words (sum_words sum front) back
unfolding sum_words
sum_words-append sum [] back h = refl
sum_words-append sum (a ∷ []) back h = absurd (omega arith)
sum_words-append sum (a ∷ b ∷ front) back h =
    sum_words-append (u64 (sum + (a + b * 256))) front back (omega arith)

-- Blocks that hold something, all but the last of even length.
abbrev pub AreBlocks : List (List ℕ) → Type 0
AreBlocks [] = Unit
AreBlocks (b ∷ []) = 0 < length b
AreBlocks (b ∷ c ∷ rest) = (0 < length b) × (length b % 2 ≡ 0) × AreBlocks (c ∷ rest)

abbrev pub concat : List (List ℕ) → List ℕ
concat [] = []
concat (b ∷ rest) = b ++ concat rest

sum_blocks-concat :
    (sum : ℕ) (blocks : List (List ℕ))
    → AreBlocks blocks
    → sum_blocks sum blocks ≡ sum_words sum (concat blocks)
unfolding sum_blocks
sum_blocks-concat sum [] h = unfold sum_words in refl
sum_blocks-concat sum ([] ∷ []) h = absurd (omega arith)
sum_blocks-concat sum ((a ∷ b) ∷ []) h = rw append-nil refl
sum_blocks-concat sum ([] ∷ c ∷ rest) h = absurd (omega arith)
sum_blocks-concat sum ((a ∷ b) ∷ c ∷ rest) h =
    sum_blocks-concat (sum_words sum (a ∷ b)) (c ∷ rest) h.2
    ∙ sym (sum_words-append sum (a ∷ b) (concat (c ∷ rest)) h.1)

-- The checksum of a vector is that of its blocks end to end, provided that no block is empty and
-- that only the last has an odd length.
pub csumv-concat : (blocks : List (List ℕ)) → AreBlocks blocks → csumv blocks ≡ csum (concat blocks)
unfolding csumv csum
csumv-concat blocks h = rw (sum_blocks-concat 0 blocks h)

-- A block of even length and another, which may be empty.
pub csumv-pair :
    (front back : List ℕ)
    → length front % 2 ≡ 0
    → 0 < length front
    → csumv (front ∷ back ∷ [] ∷ []) ≡ csum (front ++ back)
unfolding csumv csum sum_blocks
csumv-pair [] back even some_byte = absurd (omega arith)
csumv-pair (a ∷ front) [] even some_byte = rw append-nil refl
csumv-pair (a ∷ front) (b ∷ back) even some_byte =
    ap (λ s. complement (fold s)) (sym (sum_words-append 0 (a ∷ front) (b ∷ back) even))
