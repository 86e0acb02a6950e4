-- ===== src/Args/Split.antt =====
-- `parseargs` and `parsenargs`: a string cut in place into arguments.
pub mod Words
use sendip.Base.{ℕ, zero, suc, ◌+◌, List, [], ◌∷◌, Option, none, some, Bool, true, false}
use sendip.Libc.{isspace, has_char}

-- The separators; NULL, which is `none`, stands for the white space.
unfoldable pub mstrchr : Option (List ℕ) → ℕ → Bool
unfolding has_char
mstrchr none c = isspace c
mstrchr (some s) c = has_char s c

-- The buffer from the position on, and the pointers into `args`, as offsets into the whole buffer.
pub record Cut : Type 0 where
  pub buffer : List ℕ
  pub args : List ℕ

abbrev pub write : ℕ → Cut → Cut
write c r = record r { buffer = c ∷ r.buffer }

abbrev pub point : ℕ → Cut → Cut
point pos r = record r { args = pos ∷ r.args }

module _ (seps : Option (List ℕ)) where
  -- The loops of `parseargs`. With `inside` an argument is being passed over; else separators are
  -- overwritten by '\0'. The string is what stands at the position `pos`.
  pub parse_loop : Bool → ℕ → List ℕ → Cut
  parse_loop inside pos [] = record { buffer = []; args = [] }
  parse_loop true pos (c ∷ s) = elim (mstrchr seps c) [
    | false ↦ write c (parse_loop true (pos + 1) s)
    | true ↦ write 0 (parse_loop false (pos + 1) s)
  ]
  parse_loop false pos (c ∷ s) = elim (mstrchr seps c) [
    | true ↦ write 0 (parse_loop false (pos + 1) s)
    | false ↦ point pos (write c (parse_loop true (pos + 1) s))
  ]

  pub parseargs : List ℕ → Cut
  unfolding parse_loop mstrchr
  parseargs s = parse_loop false 0 s

  -- The loops of `parsenargs`, with `room` for `limit - i`, where `i` counts the arguments begun.
  pub cut_loop : Bool → ℕ → ℕ → List ℕ → Cut
  cut_loop inside room pos [] = record { buffer = []; args = [] }
  cut_loop true zero pos (c ∷ s) = elim (mstrchr seps c) [
    | false ↦ write c (cut_loop true zero (pos + 1) s)
    | true ↦ record { buffer = c ∷ s; args = [] }
  ]
  cut_loop true (suc room) pos (c ∷ s) = elim (mstrchr seps c) [
    | false ↦ write c (cut_loop true (suc room) (pos + 1) s)
    | true ↦ write 0 (cut_loop false (suc room) (pos + 1) s)
  ]
  cut_loop false zero pos (c ∷ s) = record { buffer = c ∷ s; args = [] }
  cut_loop false (suc room) pos (c ∷ s) = elim (mstrchr seps c) [
    | true ↦ write 0 (cut_loop false (suc room) (pos + 1) s)
    | false ↦ point pos (write c (cut_loop true room (pos + 1) s))
  ]

  pub parsenargs : ℕ → List ℕ → Cut
  unfolding cut_loop mstrchr
  parsenargs limit s = cut_loop false limit 0 s
