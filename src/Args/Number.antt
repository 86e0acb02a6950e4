-- ===== src/Args/Number.antt =====
-- `opt2intn` and `opt2inth`: an option string as an integer of `sz` bytes, in network and in host
-- byte order. Every caller passes NULL for `endpoint`.
pub mod Order
use sendip.Base.{ℕ, zero, suc, ◌+◌, ◌-◌, ◌*◌, ◌/◌, ◌%◌, ◌^◌, List, [], ◌∷◌, ◌++◌, length}
use sendip.Base.{Option, none, some, Bool, true, false, ◌&&◌, ◌||◌, ltb, ◌==◌, if◌then◌else◌}
use sendip.Base.{u8, u16, u32, htons, htonl, from_bytes}
use sendip.Libc.{first_char, rest_of, isdigit, isspace, skip_spaces, strtoul}
use sendip.World.{World, Outcome, done, fault, stuck, exits, Exec, pure, ◌>>=◌}
use sendip.Fargs.{fileargument}
use sendip.Args.Random.{addrand}

-- `addrand((char *) &r, len)` over an `r` that holds junk, for `len` up to 4.
abbrev pub over_junk : ℕ → List ℕ → ℕ → ℕ
over_junk junk bytes len = from_bytes bytes + junk / 256 ^ len * 256 ^ len

-- `switch (sz)` at the end of the random case.
abbrev pub cut_to : ℕ → ℕ → ℕ
cut_to sz r = if sz == 1 then u8 r else if sz == 2 then u16 r else if sz == 3 then r % 2 ^ 24 else r

unfoldable pub random_int : List ℕ → ℕ → Exec ℕ
random_int input sz w =
    let asked = strtoul (rest_of input) 10 in
    let len = if ltb sz asked then sz else asked in
    let (bytes, seed) = addrand len w.xsubi in
    done (cut_to sz (over_junk w.junk bytes len), record w { xsubi = seed })

abbrev pub is_random : List ℕ → Bool
is_random input = first_char input == b'r' && isdigit (first_char (rest_of input))

-- What is no file argument, in network byte order.
unfoldable pub direct_intn : List ℕ → ℕ → Exec ℕ
direct_intn input sz w =
    let v = strtoul input 0 in
    if is_random input
    then random_int input sz w
    else if first_char input == b'z'
    then done (0, w)
    else if sz == 1
    then done (u8 v, w)
    else if sz == 2
    then done (htons (u16 v), w)
    else done (htonl (u32 v), w)

-- NULL is `none`. The fuel bounds the chain of files whose lines are file arguments again.
unfoldable pub opt2intn : ℕ → Option (List ℕ) → ℕ → Exec ℕ
opt2intn fuel none sz w = done (0, w)
opt2intn zero (some input) sz w = stuck
opt2intn (suc fuel) (some input) sz w = elim (sz == 0) [
  | true ↦ done (0, w)
  | false ↦ elim (first_char input == b'f') [
    | true ↦ elim (fileargument (rest_of input) w) [
      | done (line, w') ↦ opt2intn fuel line sz w'
      | fault ↦ fault
      | stuck ↦ stuck
      | exits ↦ exits
    ]
    | false ↦ direct_intn input sz w
  ]
]

-- The same in host byte order, behind leading spaces.
unfoldable pub direct_inth : List ℕ → ℕ → Exec ℕ
direct_inth input sz w =
    let v = strtoul input 0 in
    if is_random input
    then random_int input sz w
    else if first_char input == b'z'
    then done (0, w)
    else if sz == 1
    then done (v % 256, w)
    else if sz == 2
    then done (u16 v, w)
    else done (u32 v, w)

unfoldable pub spaceless_inth : ℕ → List ℕ → ℕ → Exec ℕ
spaceless_inth fuel [] sz w = done (0, w)
spaceless_inth fuel (c ∷ s) sz w =
    if c == b'f'
    then (fileargument s >>= λ line. opt2intn fuel line sz) w
    else direct_inth (c ∷ s) sz w

unfoldable pub opt2inth : ℕ → Option (List ℕ) → ℕ → Exec ℕ
opt2inth fuel none sz w = done (0, w)
opt2inth fuel (some input) sz w =
    if sz == 0 then done (0, w) else spaceless_inth fuel (skip_spaces input) sz w
