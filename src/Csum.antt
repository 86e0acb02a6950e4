-- ===== src/Csum.antt =====
-- csum.c: the internet checksum of a block and of a vector of blocks, on a little-endian machine.
pub mod Fold
pub mod Sum
pub mod Verify
pub mod Order
use mathlib.Core.Logic.{dite}
use mathlib.Core.WellFounded.{Acc}
use native.Mathlib.Decide.{dec_lt}
use sendip.Base.{ℕ, zero, suc, ◌+◌, ◌-◌, ◌*◌, ◌/◌, ◌%◌, ◌^◌, ◌<◌, List, [], ◌∷◌, arith}
use sendip.Base.{u16, u64, lt_wf}

-- `while (packlen > 1)` and the odd byte after it; `sum` is a 64-bit `unsigned long`.
pub sum_words : ℕ → List ℕ → ℕ
sum_words sum [] = sum
sum_words sum (a ∷ []) = u64 (sum + a)
sum_words sum (a ∷ b ∷ rest) = sum_words (u64 (sum + (a + b * 256))) rest

pub fold_shrinks : (sum : ℕ) → 0 < sum / 2 ^ 16 → sum % 2 ^ 16 + sum / 2 ^ 16 < sum
fold_shrinks sum h = omega arith

-- `while (sum >> 16) sum = (sum & 0xffff) + (sum >> 16);`
pub fold_loop : (sum : ℕ) → Acc ◌<◌ sum → ℕ
fold_loop sum (Acc.intro _ smaller) =
    dite (dec_lt 0 (sum / 2 ^ 16))
      (λ more. fold_loop (sum % 2 ^ 16 + sum / 2 ^ 16) (smaller _ (fold_shrinks sum more)))
      (λ _. sum)

pub fold : ℕ → ℕ
fold sum = fold_loop sum (lt_wf.apply sum)

-- `(u_int16_t) ~sum`
abbrev pub complement : ℕ → ℕ
complement sum = u16 (2 ^ 64 - 1 - sum)

-- The list is the `packlen` bytes from `packet` on.
pub csum : List ℕ → ℕ
csum packet = complement (fold (sum_words 0 packet))

-- The blocks up to the first of length 0, which ends the vector.
pub sum_blocks : ℕ → List (List ℕ) → ℕ
sum_blocks sum [] = sum
sum_blocks sum ([] ∷ blocks) = sum
sum_blocks sum ((a ∷ block) ∷ blocks) = sum_blocks (sum_words sum (a ∷ block)) blocks

pub csumv : List (List ℕ) → ℕ
csumv blocks = complement (fold (sum_blocks 0 blocks))
