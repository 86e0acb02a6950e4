-- ===== src/Csum/Fold.antt =====
-- What the folding loop of csum.c leaves of a sum.
use mathlib.Core.Logic.{dif_pos, dif_neg}
use mathlib.Core.WellFounded.{Acc}
use native.Mathlib.Bridge.{le_prop}
use native.Mathlib.Decide.{dec_lt}
use sendip.Base.{ℕ, ◌+◌, ◌/◌, ◌%◌, ◌^◌, ◌<◌, ◌≡◌, ◌⊎◌, refl, arith, lt_wf}
use sendip.Csum.{fold_shrinks, fold_loop, fold}

-- `r` is the residue of `s` by 2 ^ 16 - 1 that is 0 only where `s` is 0.
pub record IsFold (s r : ℕ) : Type 0 where
  pub fits : r < 2 ^ 16
  pub residue : r % 65535 ≡ s % 65535
  pub nonzero : (s ≡ 0) ⊎ (0 < r)
  pub zero_stays : (0 < s) ⊎ (r ≡ 0)

IsFold-step : (s r : ℕ) → IsFold (s % 2 ^ 16 + s / 2 ^ 16) r → IsFold s r
IsFold-step s r h = record {
  fits = h.fits;
  residue = omega arith;
  nonzero = omega arith;
  zero_stays = omega arith;
}

IsFold-done : (s : ℕ) → s < 2 ^ 16 → IsFold s s
IsFold-done s h = record {
  fits = h;
  residue = refl;
  nonzero = omega arith;
  zero_stays = omega arith;
}

fold_loop-IsFold : (s : ℕ) (w : Acc ◌<◌ s) → IsFold s (fold_loop s w)
unfolding fold_loop
fold_loop-IsFold s (Acc.intro _ smaller) = elim (dec_lt 0 (s / 2 ^ 16)) [
  | yes more ↦ rw (dif_pos _ le_prop more) (
      IsFold-step s _
        (fold_loop-IsFold (s % 2 ^ 16 + s / 2 ^ 16) (smaller _ (fold_shrinks s more))))
  | no done ↦ rw (dif_neg _ done) (IsFold-done s (omega arith))
]

-- The loop ends, whatever the sum, and leaves 16 bits.
pub fold-IsFold : (s : ℕ) → IsFold s (fold s)
unfolding fold
fold-IsFold s = fold_loop-IsFold s (lt_wf.apply s)
