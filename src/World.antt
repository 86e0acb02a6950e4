-- ===== src/World.antt =====
-- What outlives a call: the file cache of fargs.c, the seed of addrand in parseargs.c, and, as
-- inputs, the disk and the clock.
use sendip.Base.{arith, ℕ, ◌+◌, List, Option, ◌≡◌, ◌⊎◌, inl, inr, refl}

-- An entry of the file cache: `path`, `lines` (`len` of them) and `idx`.
pub record FileCache : Type 0 where
  pub path : List ℕ
  pub lines : List (List ℕ)
  pub idx : ℕ

pub record World : Type 0 where
  -- What an uninitialised `u_int32_t` of the stack holds.
  pub junk : ℕ
  -- `root` of fargs.c: the entries of the search tree.
  pub root : List FileCache
  -- `xsubi` of addrand, as one 48-bit number.
  pub xsubi : ℕ
  -- The results of `rand`, and how many have been drawn.
  pub rands : ℕ → ℕ
  pub drawn : ℕ
  -- The bytes of each readable file.
  pub disk : List ℕ → Option (List ℕ)
  -- The bytes of the `struct timeval` that `gettimeofday` fills in; none if it fails.
  pub now : Option (List ℕ)

-- `rand()`
abbrev pub rand : World → ℕ
rand w = w.rands w.drawn

abbrev pub rand_drawn : World → World
rand_drawn w = record w { drawn = w.drawn + 1 }

-- `fault` is undefined behaviour of C, `stuck` a recursion that outran its fuel, and `exits` a call
-- of `exit`.
pub data Outcome {ℓ} (A : Type ℓ) : Type ℓ where
  done : A → Outcome A
  fault stuck exits : Outcome A

abbrev pub Exec : Type 0 → Type 0
Exec A = World → Outcome (A × World)

abbrev pub pure : {A : Type 0} → A → Exec A
pure a w = done (a, w)

infixl 5 ◌>>=◌
abbrev pub ◌>>=◌ : {A B : Type 0} → Exec A → (A → Exec B) → Exec B
◌>>=◌ m f w = elim (m w) [ done (a, w') ↦ f a w' | fault ↦ fault | stuck ↦ stuck | exits ↦ exits ]

pub Outcome-cases :
    {A : Type 0} (r : Outcome A)
    → ((a : A) × (r ≡ done a)) ⊎ ((r ≡ fault) ⊎ ((r ≡ stuck) ⊎ (r ≡ exits)))
Outcome-cases (done a) = inl (a, refl)
Outcome-cases fault = inr (inl refl)
Outcome-cases stuck = inr (inr (inl refl))
Outcome-cases exits = inr (inr (inr refl))

-- A sequence that ends has two steps that end.
pub bind-done :
    {A B : Type 0} (m : Exec A) (f : A → Exec B) (w w' : World) (b : B)
    → (m >>= f) w ≡ done (b, w')
    → (a : A) × (w₁ : World) × (m w ≡ done (a, w₁)) × (f a w₁ ≡ done (b, w'))
bind-done m f w w' b e = elim (Outcome-cases (m w)) [
  | inl ((a, w₁), e₁) ↦ (a, w₁, e₁, rw (e₁, ◌>>=◌) at e)
  | inr (inl bad) ↦ absurd (ground (arith, rw (bad, ◌>>=◌) at e))
  | inr (inr (inl bad)) ↦ absurd (ground (arith, rw (bad, ◌>>=◌) at e))
  | inr (inr (inr bad)) ↦ absurd (ground (arith, rw (bad, ◌>>=◌) at e))
]
