-- ===== src/Headers/Search.antt =====
-- What the search for an enclosing header finds.
use sendip.Base.{ℕ, zero, suc, ◌<◌, ◌≡◌, ◌≢◌, inl, inr, arith}
use sendip.Base.{List, Option, none, some, true, false, Bool-cases, get_or, All}
use native.Mathlib.Decide.{ℕ_discrete}
use sendip.Libc.{has_char}
use sendip.Headers.{outer_header, header_type, sendip_headers, ipproto_none}

-- `found` is the last index below `index` whose header is one of the choices, if there is one.
abbrev pub IsNearest : List ℕ → ℕ → List ℕ → Option ℕ → Type 0
IsNearest hdrs index choices none = (j : ℕ) → j < index → has_char choices (get_or hdrs j 0) ≡ false
IsNearest hdrs index choices (some i) =
    (i < index)
    × (has_char choices (get_or hdrs i 0) ≡ true)
    × ((j : ℕ) → i < j → j < index → has_char choices (get_or hdrs j 0) ≡ false)

IsNearest-suc :
    (hdrs : List ℕ) (index : ℕ) (choices : List ℕ) (r : Option ℕ)
    → has_char choices (get_or hdrs index 0) ≡ false
    → IsNearest hdrs index choices r
    → IsNearest hdrs (suc index) choices r
IsNearest-suc hdrs index choices none no_match h =
    λ j le. elim (ℕ_discrete j index) [ yes same ↦ rw same no_match | no other ↦ h j (omega arith) ]
IsNearest-suc hdrs index choices (some i) no_match (lt, match, rest) = (
  omega arith,
  match,
  λ j lo hi. elim (ℕ_discrete j index) [
    | yes same ↦ rw same no_match
    | no other ↦ rest j lo (omega arith)
  ],
)

-- `outer_header` finds the nearest enclosing header of the kinds asked for, and -1 exactly where
-- there is none.
pub outer_header-IsNearest :
    (hdrs : List ℕ) (index : ℕ) (choices : List ℕ)
    → IsNearest hdrs index choices (outer_header hdrs index choices)
unfolding outer_header
outer_header-IsNearest hdrs zero choices = λ j lt. absurd (omega arith)
outer_header-IsNearest hdrs (suc i) choices =
    elim (Bool-cases (has_char choices (get_or hdrs i 0))) [
      | inl match ↦ rw match (omega arith, match, λ j lo hi. absurd (omega arith))
      | inr other ↦
          rw other (IsNearest-suc hdrs i choices _ other (outer_header-IsNearest hdrs i choices))
    ]

-- The table read as it stands: each character before the end of the table has its number, and any
-- other character has that of "no next header".
pub header_type-table :
    All (λ e. header_type e.0 ≡ e.1) sendip_headers
    × ((c : ℕ) → All (λ e. c ≢ e.0) sendip_headers → header_type c ≡ ipproto_none)
unfolding header_type
header_type-table = (ground arith, λ c h. ground arith)

pub header_type-lt : (c : ℕ) → header_type c < 256
unfolding header_type
header_type-lt c = ground arith
