-- ===== src/Args/Address/Cidr.antt =====
-- The random host part of an address with a prefix length.
use sendip.Base.{ℕ, zero, suc, ◌-◌, ◌%◌, ◌^◌, ◌≤◌, ◌<◌, ◌≡◌, ◌≢◌, inl, inr}
use sendip.Base.{List, some}
use sendip.Base.{arith}
use sendip.Base.Bits.{bit_and-mask}
use native.Mathlib.Nat.{one-le-pow}
use sendip.Libc.{strtol_int}
use sendip.World.{World, done, Outcome-cases}
use sendip.Args.Number.{opt2intn}
use sendip.Args.Address.{random_arg, host_mask, draw, host_loop}
use sendip.Args.Address.{cidr2addr}

draw-le : (bits host : ℕ) (w w' : World) → draw bits w ≡ done (host, w') → host ≤ host_mask bits
unfolding draw
draw-le bits host w w' e =
    elim (Outcome-cases (opt2intn 1 (some (random_arg bits).0) (random_arg bits).1 w)) [
      | inl ((h, w₁), drawn) ↦ ground (arith, bit_and-mask h (32 - bits), mod_fits h (32 - bits))
      | inr (inl bad) ↦ ground arith
      | inr (inr (inl bad)) ↦ ground arith
      | inr (inr (inr bad)) ↦ ground arith
    ]
  where
    mod_fits : (h k : ℕ) → h % 2 ^ k ≤ 2 ^ k - 1
    mod_fits h k = omega (arith, one-le-pow k 2)

-- A host part is neither all zeros nor all ones, and it fits the mask.
pub host_loop-range :
    (fuel bits host : ℕ) (w w' : World)
    → host_loop fuel bits w ≡ done (host, w')
    → (0 < host) × (host < host_mask bits)
unfolding host_loop
host_loop-range zero bits host w w' e = cc
host_loop-range (suc fuel) bits host w w' e = elim (Outcome-cases (draw bits w)) [
  | inl ((h, w₁), drawn) ↦
      ground (arith, draw-le bits h w w₁ drawn, host_loop-range fuel bits host w₁ w')
  | inr (inl bad) ↦ ground arith
  | inr (inr (inl bad)) ↦ ground arith
  | inr (inr (inr bad)) ↦ ground arith
]

-- With a prefix of 31 bits no draw is ever accepted: whatever the world and the fuel, `cidr2addr`
-- returns no address.
pub cidr2addr_31 :
    (fuel : ℕ) (input slash : List ℕ) (a : ℕ) (w w' : World)
    → strtol_int slash 0 ≡ 31
    → cidr2addr fuel input slash w ≢ done (a, w')
unfolding cidr2addr
cidr2addr_31 fuel input slash a w w' e r = elim (Outcome-cases (host_loop fuel 31 w)) [
  | inl ((h, w₁), looped) ↦ absurd (omega (arith, host_loop-range fuel 31 h w w₁ looped))
  | inr (inl bad) ↦ ground arith
  | inr (inr (inl bad)) ↦ ground arith
  | inr (inr (inr bad)) ↦ ground arith
]
