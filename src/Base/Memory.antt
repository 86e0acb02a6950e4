-- ===== src/Base/Memory.antt =====
-- Writes into a block of bytes, and the bytes that `realloc` adds.
use sendip.Base.Lists.{length, get_or, take, drop, length-append, length-take, length-drop}
use Prim.Native.Nat.{ℕ, zero, suc, ◌+◌, ◌-◌, ◌≤◌}
use mathlib.Core.List.{List, [], ◌∷◌, ◌++◌, append_assoc}
use mathlib.Core.Path.{◌≡◌, refl, sym, ap, ◌∙◌}
use native.Mathlib.Omega.{arith}

-- `memcpy(block + at, bytes, n)` of `n` bytes that all fit.
abbrev pub write_bytes : ℕ → List ℕ → List ℕ → List ℕ
write_bytes i bytes block = take i block ++ (bytes ++ drop (i + length bytes) block)

-- What stood on the heap: the byte at each offset of the block.
abbrev pub gained : (ℕ → ℕ) → ℕ → ℕ → List ℕ
gained heap i zero = []
gained heap i (suc n) = heap i ∷ gained heap (i + 1) n

-- `realloc(block, size)` for a `size` that is no smaller.
abbrev pub grown : (ℕ → ℕ) → ℕ → List ℕ → List ℕ
grown heap size block = block ++ gained heap (length block) (size - length block)

pub length-gained : (heap : ℕ → ℕ) (i n : ℕ) → length (gained heap i n) ≡ n
length-gained heap i zero = refl
length-gained heap i (suc n) = ap suc (length-gained heap (i + 1) n)

pub length-grown :
    (heap : ℕ → ℕ) (size : ℕ) (block : List ℕ)
    → length block ≤ size
    → length (grown heap size block) ≡ size
length-grown heap size block h = omega (
  arith,
  length-append block (gained heap (length block) (size - length block)),
  length-gained heap (length block) (size - length block),
)

pub length-write_bytes :
    (i : ℕ) (bytes block : List ℕ)
    → i + length bytes ≤ length block
    → length (write_bytes i bytes block) ≡ length block
length-write_bytes i bytes block h = omega (
  arith,
  length-append (take i block) (bytes ++ drop (i + length bytes) block),
  length-append bytes (drop (i + length bytes) block),
  length-take i block,
  length-drop (i + length bytes) block,
)

-- A write right behind `front`.
pub write_bytes-append :
    (front bytes back : List ℕ)
    → write_bytes (length front) bytes (front ++ back)
      ≡ front ++ (bytes ++ drop (length bytes) back)
write_bytes-append [] bytes back = ap (λ n. bytes ++ drop n back) (omega arith)
write_bytes-append (c ∷ front) bytes back =
    let here : suc (length front) + length bytes ≡ suc (length front + length bytes) =
      omega arith in
    rw here (ap (λ rest. c ∷ rest) (write_bytes-append front bytes back))

pub get_or-append :
    (front back : List ℕ) (i x : ℕ) → get_or (front ++ back) (length front + i) x ≡ get_or back i x
get_or-append [] back i x = ap (λ k. get_or back k x) (omega arith)
get_or-append (c ∷ front) back i x =
    let here : suc (length front) + i ≡ suc (length front + i) = omega arith in
    rw here (get_or-append front back i x)

pub take-front : (front back : List ℕ) → take (length front) (front ++ back) ≡ front
take-front [] back = refl
take-front (x ∷ front) back = ap (λ xs. x ∷ xs) (take-front front back)

pub take-write_bytes :
    (i : ℕ) (bytes block : List ℕ)
    → i + length bytes ≤ length block
    → take (i + length bytes) (write_bytes i bytes block) ≡ take i block ++ bytes
take-write_bytes i bytes block h =
    let front = take i block ++ bytes in
    let back = drop (i + length bytes) block in
    let size : i + length bytes ≡ length front =
      omega (arith, length-append (take i block) bytes, length-take i block) in
    ap (take (i + length bytes)) (sym (append_assoc (take i block) bytes back))
    ∙ ap (λ n. take n (front ++ back)) size
    ∙ take-front front back

pub drop-front :
    (front back : List ℕ) (k : ℕ) → drop (length front + k) (front ++ back) ≡ drop k back
drop-front [] back k = ap (λ n. drop n back) (omega arith)
drop-front (c ∷ front) back k =
    let here : suc (length front) + k ≡ suc (length front + k) = omega arith in
    rw here (drop-front front back k)

drop-nil : (n : ℕ) → drop {A = ℕ} n [] ≡ []
drop-nil zero = refl
drop-nil (suc n) = refl

pub drop-drop : (i k : ℕ) (xs : List ℕ) → drop k (drop i xs) ≡ drop (i + k) xs
drop-drop zero k xs = ap (λ n. drop n xs) (omega arith)
drop-drop (suc i) k [] = drop-nil k ∙ sym (drop-nil (suc i + k))
drop-drop (suc i) k (x ∷ xs) =
    let here : suc i + k ≡ suc (i + k) = omega arith in rw here (drop-drop i k xs)

-- What stands behind a write stays.
pub drop-write_bytes :
    (n i : ℕ) (bytes block : List ℕ)
    → i ≤ length block
    → i + length bytes ≤ n
    → drop n (write_bytes i bytes block) ≡ drop n block
drop-write_bytes n i bytes block inside h =
    let front = take i block ++ bytes in
    let end = i + length bytes in
    let size : length front ≡ end =
      omega (arith, length-append (take i block) bytes, length-take i block) in
    let place : n ≡ length front + (n - end) = omega arith in
    ap (drop n) (sym (append_assoc (take i block) bytes (drop end block)))
    ∙ ap (λ k. drop k (front ++ drop end block)) place
    ∙ drop-front front (drop end block) (n - end)
    ∙ drop-drop end (n - end) block
    ∙ ap (λ k. drop k block) (omega arith)

pub take-append_le : (n : ℕ) (xs ys : List ℕ) → n ≤ length xs → take n (xs ++ ys) ≡ take n xs
take-append_le zero xs ys h = refl
take-append_le (suc n) [] ys h = absurd (omega arith)
take-append_le (suc n) (x ∷ xs) ys h = ap (λ zs. x ∷ zs) (take-append_le n xs ys (omega arith))
