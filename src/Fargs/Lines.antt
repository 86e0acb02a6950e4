-- ===== src/Fargs/Lines.antt =====
-- What `fc_create` makes of a text file.
use sendip.Base.{ℕ, ◌-◌, ◌<◌, ◌≡◌, ◌≢◌, refl, ap, arith}
use sendip.Base.{List, [], ◌∷◌, ◌++◌, length, All, some}
use mathlib.Core.List.{append_assoc}
use sendip.World.{World}
use sendip.Fargs.{line_max, c_string, chop, fgets_all, stored_lines, fc_create}

-- A line of text that fits the buffer with its newline: no newline and no '\0' in it.
abbrev pub IsLine : List ℕ → Type 0
IsLine line = All (λ c. (c ≢ 10) × (c ≢ 0)) line × (length line < line_max - 1)

-- A text file: each line is ended by a newline.
abbrev pub text : List (List ℕ) → List ℕ
text [] = []
text (line ∷ rest) = line ++ (10 ∷ text rest)

fgets_all-line :
    (line file acc : List ℕ) (room : ℕ)
    → All (λ c. (c ≢ 10) × (c ≢ 0)) line
    → length line < room
    → fgets_all room acc (line ++ (10 ∷ file))
      ≡ (acc ++ (line ++ (10 ∷ []))) ∷ fgets_all (line_max - 1) [] file
unfolding fgets_all
fgets_all-line [] file acc room h fits = refl
fgets_all-line (c ∷ line) file acc room h fits = ground (
  arith,
  h.0.0,
  fgets_all-line line file (acc ++ (c ∷ [])) (room - 1) h.1 (omega arith),
  append_assoc acc (c ∷ []) (line ++ (10 ∷ [])),
)

chop-newline : (line : List ℕ) → chop (line ++ (10 ∷ [])) ≡ line
unfolding chop
chop-newline [] = refl
chop-newline (c ∷ []) = refl
chop-newline (c ∷ d ∷ line) = ap (λ t. c ∷ t) (chop-newline (d ∷ line))

c_string-line :
    (line : List ℕ)
    → All (λ c. (c ≢ 10) × (c ≢ 0)) line
    → c_string (line ++ (10 ∷ [])) ≡ line ++ (10 ∷ [])
unfolding c_string
c_string-line [] h = refl
c_string-line (c ∷ line) h = ground (arith, c_string-line line h.1)

stored_lines-text :
    (lines : List (List ℕ))
    → All IsLine lines
    → stored_lines (fgets_all (line_max - 1) [] (text lines)) ≡ lines
unfolding stored_lines
stored_lines-text [] h = unfold fgets_all in refl
stored_lines-text (line ∷ rest) h =
    rw (fgets_all-line line (text rest) [] (line_max - 1) h.0.0 h.0.1)
      (rw (c_string-line line h.0.0, chop-newline line, stored_lines-text rest h.1) refl)

-- A file whose lines are text that fits the buffer of `fgets`, and end in a newline each, is
-- cached as those lines, with the cursor on the first.
pub fc_create-text :
    (w : World) (p : List ℕ) (lines : List (List ℕ))
    → w.disk p ≡ some (text lines)
    → All IsLine lines
    → fc_create w p ≡ some (record { path = p; lines = lines; idx = 0 })
unfolding fc_create
fc_create-text w p lines e h = rw (e, fc_create) (rw (stored_lines-text lines h) refl)
