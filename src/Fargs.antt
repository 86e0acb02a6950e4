-- ===== src/Fargs.antt =====
-- fargs.c: the cache of option files, read line by line and round robin. The search tree is the
-- list of its entries; allocation, `stat` and closing succeed.
pub mod Cursor
pub mod Lines
use sendip.Base.{ℕ, zero, suc, ◌+◌, ◌-◌, List, [], ◌∷◌, ◌++◌, Option, none, some}
use sendip.Base.{Bool, true, false, ◌&&◌, ◌||◌, leb, ◌==◌, if◌then◌else◌, length, get_elem?}
use sendip.World.{FileCache, World, Outcome, done, fault, Exec}

-- `fcmp` on two paths, as the test for 0.
unfoldable pub fcmp : List ℕ → List ℕ → Bool
fcmp [] [] = true
fcmp [] (d ∷ t) = false
fcmp (c ∷ s) [] = false
fcmp (c ∷ s) (d ∷ t) = c == d && fcmp s t

abbrev pub line_max : ℕ
line_max = 2048

-- Up to the first '\0', as `strlen` counts.
pub c_string : List ℕ → List ℕ
c_string [] = []
c_string (c ∷ s) = if c == 0 then [] else c ∷ c_string s

-- `if (len > 0 && line[len - 1] == '\n') line[--len] = '\0';`
pub chop : List ℕ → List ℕ
chop [] = []
chop (c ∷ []) = if c == 10 then [] else c ∷ []
chop (c ∷ d ∷ s) = c ∷ chop (d ∷ s)

-- The lines that `fgets(line, LINE_MAX, fp)` returns: `room` more characters fit the one at hand.
pub fgets_all : ℕ → List ℕ → List ℕ → List (List ℕ)
fgets_all room [] [] = []
fgets_all room (c ∷ line) [] = (c ∷ line) ∷ []
fgets_all room line (c ∷ file) =
    let ends = c == 10 || leb room 1 in
    let line' = line ++ (c ∷ []) in
    let rest =
      fgets_all (if ends then line_max - 1 else room - 1) (if ends then [] else line') file in
    if ends then line' ∷ rest else rest

pub stored_lines : List (List ℕ) → List (List ℕ)
unfolding c_string chop
stored_lines [] = []
stored_lines (line ∷ rest) = chop (c_string line) ∷ stored_lines rest

pub fc_create : World → List ℕ → Option FileCache
unfolding fgets_all stored_lines
fc_create w path = elim (w.disk path) [
  | none ↦ none
  | some file ↦
      some
        (record { path = path; lines = stored_lines (fgets_all (line_max - 1) [] file); idx = 0 })
]

-- `tfind`
unfoldable pub tfind : List ℕ → List FileCache → Option FileCache
tfind path [] = none
tfind path (f ∷ root) = if fcmp path f.path then some f else tfind path root

-- The entry for the path, made by `fc_create` where there is none.
pub fc_find : List ℕ → World → Option FileCache × World
unfolding tfind fc_create
fc_find path w = elim (tfind path w.root) [
  | some f ↦ (some f, w)
  | none ↦ elim (fc_create w path) [
    | none ↦ (none, w)
    | some f ↦ (some f, record w { root = f ∷ w.root })
  ]
]

-- The write `f->idx = i` through the pointer into the tree.
pub set_idx : List ℕ → ℕ → List FileCache → List FileCache
set_idx path i [] = []
set_idx path i (f ∷ root) =
    if fcmp path f.path then record f { idx = i } ∷ root else f ∷ set_idx path i root

-- `f->idx++; if (f->idx >= f->len) f->idx = 0;`
abbrev pub next_idx : FileCache → ℕ
next_idx f = if leb (length f.lines) (f.idx + 1) then 0 else f.idx + 1

-- `line = f->lines[f->idx++]` reads what was never written where the file is empty.
pub take_line : List ℕ → FileCache → Exec (Option (List ℕ))
unfolding set_idx
take_line fname f w = elim (get_elem? f.lines f.idx) [
  | none ↦ fault
  | some line ↦ done (some line, record w { root = set_idx fname (next_idx f) w.root })
]

pub use_entry : List ℕ → Option FileCache × World → Outcome (Option (List ℕ) × World)
unfolding take_line
use_entry fname (none, w) = done (none, w)
use_entry fname (some f, w) = take_line fname f w

-- NULL is `none`.
unfoldable pub fileargument : List ℕ → Exec (Option (List ℕ))
unfolding fc_find use_entry
fileargument fname w = use_entry fname (fc_find fname w)

-- All entries go.
unfoldable pub fargs_destroy : World → World
fargs_destroy w = record w { root = [] }
