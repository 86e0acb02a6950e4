-- ===== src/Args/Random.antt =====
-- `addrand`: the 48-bit generator `jrand48` of the C library, from the seed `xsubi`.
use sendip.Base.{ℕ, zero, suc, ◌+◌, ◌*◌, ◌/◌, ◌%◌, ◌^◌, ◌<◌, ◌≡◌, arith}
use sendip.Base.{List, [], ◌++◌, length, length-append, length-take, take}
use sendip.Base.{bytes32}

-- The next seed.
unfoldable pub next_seed : ℕ → ℕ
next_seed x = (25214903917 * x + 11) % 2 ^ 48

-- The 32 bits of a seed that `jrand48` returns, as a `u_int32_t`.
unfoldable pub high_bits : ℕ → ℕ
high_bits x = x / 2 ^ 16 % 2 ^ 32

-- `n` rounds of four bytes each, and the seed after them.
unfoldable pub rand_words : ℕ → ℕ → List ℕ × ℕ
unfolding next_seed high_bits
rand_words zero x = ([], x)
rand_words (suc n) x =
    let x' = next_seed x in
    let (bytes, last) = rand_words n x' in (bytes32 (high_bits x') ++ bytes, last)

abbrev pub rand_tail : ℕ → List ℕ × ℕ → List ℕ × ℕ
rand_tail zero r = r
rand_tail (suc k) (bytes, x) =
    (bytes ++ take (suc k) (bytes32 (high_bits (next_seed x))), next_seed x)

-- The bytes appended for a seed, and the seed left.
unfoldable pub addrand : ℕ → ℕ → List ℕ × ℕ
unfolding rand_words
addrand length x = rand_tail (length % 4) (rand_words (length / 4) x)

length-rand_words : (n x : ℕ) → length (rand_words n x).0 ≡ n * 4
unfolding rand_words
length-rand_words zero x = omega arith
length-rand_words (suc n) x = omega (
  arith,
  length-append (bytes32 (high_bits (next_seed x))) (rand_words n (next_seed x)).0,
  length-rand_words n (next_seed x),
)

length-rand_tail : (k : ℕ) (r : List ℕ × ℕ) → k < 4 → length (rand_tail k r).0 ≡ length r.0 + k
length-rand_tail zero r h = omega arith
length-rand_tail (suc k) (bytes, x) h = omega (
  arith,
  length-append bytes (take (suc k) (bytes32 (high_bits (next_seed x)))),
  length-take (suc k) (bytes32 (high_bits (next_seed x))),
)

-- Exactly the bytes asked for are appended.
pub length-addrand : (n x : ℕ) → length (addrand n x).0 ≡ n
unfolding addrand
length-addrand n x = omega (
  arith,
  length-rand_tail (n % 4) (rand_words (n / 4) x) (omega arith),
  length-rand_words (n / 4) x,
)
