-- ===== src/Args/Value/Bounds.antt =====
-- What `opt2val` stores, and what it makes of a timestamp argument.
use sendip.Base.{ℕ, zero, suc, ◌≤◌, ◌≡◌, inl, inr, arith}
use sendip.Base.{List, ◌∷◌, length, length-replicate, Option, none, some}
use sendip.Base.{true}
use sendip.Libc.{rest_of, isdigit, atoi}
use sendip.World.{World, done, Outcome-cases}
use sendip.Fargs.{fileargument}
use sendip.Args.Stream.{Val}
use sendip.Args.Stream.Bounds.{str2val-KeepsTo}
use sendip.Args.Random.{length-addrand}
use sendip.Args.Value.{capped, timestamp, nothing, direct_val, opt2val}

direct_val-bound :
    (input : List ℕ) (outlen : ℕ) (w w' : World) (v : Val)
    → direct_val input outlen w ≡ done (v, w')
    → length v.written ≤ outlen
unfolding direct_val timestamp
direct_val-bound input outlen w w' v e = ground (
  arith,
  str2val-KeepsTo input outlen,
  length-addrand (capped (atoi (rest_of input)) outlen) w.xsubi,
  length-replicate (capped (atoi (rest_of input)) outlen) (let z : ℕ = 0 in z),
)

-- `opt2val` never stores more than `outlen` bytes, whatever the argument, the files that it leads
-- to and the fuel.
pub opt2val-bound :
    (fuel : ℕ) (input : Option (List ℕ)) (outlen : ℕ) (w w' : World) (v : Val)
    → opt2val fuel input outlen w ≡ done (v, w')
    → length v.written ≤ outlen
unfolding opt2val
opt2val-bound fuel none outlen w w' v e = ground arith
opt2val-bound zero (some input) outlen w w' v e = cc
opt2val-bound (suc fuel) (some input) outlen w w' v e =
    elim (Outcome-cases (fileargument (rest_of input) w)) [
      | inl ((none, w₁), read) ↦
          ground
            (arith, direct_val-bound input outlen w w' v, direct_val-bound input outlen w₁ w' v)
      | inl ((some text, w₁), read) ↦ ground (
        arith,
        direct_val-bound input outlen w w' v,
        opt2val-bound fuel (some text) outlen w₁ w' v,
      )
      | inr (inl bad) ↦ ground (arith, direct_val-bound input outlen w w' v)
      | inr (inr (inl bad)) ↦ ground (arith, direct_val-bound input outlen w w' v)
      | inr (inr (inr bad)) ↦ ground (arith, direct_val-bound input outlen w w' v)
    ]

-- A timestamp argument stores nothing and returns 0 where the clock can be read.
pub opt2val_timestamp :
    (fuel d : ℕ) (s ts : List ℕ) (outlen : ℕ) (w : World)
    → isdigit d ≡ true
    → w.now ≡ some ts
    → opt2val (suc fuel) (some (b't' ∷ d ∷ s)) outlen w ≡ done (nothing, w)
unfolding opt2val direct_val timestamp
opt2val_timestamp fuel d s ts outlen w digit clock = ground arith
