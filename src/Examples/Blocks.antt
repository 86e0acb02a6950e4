-- ===== src/Examples/Blocks.antt =====
-- Checksums of concrete blocks.
use sendip.Base.{◌≡◌, refl, arith, [], ◌∷◌}
use sendip.Csum.{fold, csum, csumv}
use sendip.Csum.Verify.{csumv-concat}
use sendip.Csum.Fold.{IsFold, fold-IsFold}

fold-IsFold_example : IsFold 0x2ddf0 (fold 0x2ddf0)
fold-IsFold_example = fold-IsFold 0x2ddf0

csumv-concat_example : csumv ((1 ∷ 2 ∷ []) ∷ (3 ∷ []) ∷ []) ≡ csum (1 ∷ 2 ∷ 3 ∷ [])
csumv-concat_example = csumv-concat ((1 ∷ 2 ∷ []) ∷ (3 ∷ []) ∷ []) (omega arith, refl, omega arith)
