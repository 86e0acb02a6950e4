-- ===== src/Args/Value.antt =====
-- `timestamp` and `opt2val`: an option string as bytes.
pub mod Bounds
use sendip.Base.{ℕ, zero, suc, ◌+◌, ◌-◌, List, [], ◌∷◌, ◌++◌, length, take, replicate}
use sendip.Base.{Option, none, some, Bool, true, false, ◌&&◌, ◌||◌, ltb, ◌==◌, if◌then◌else◌}
use sendip.Libc.{first_char, rest_of, isdigit, atoi}
use sendip.World.{World, Outcome, done, fault, stuck, exits, Exec}
use sendip.Fargs.{fileargument}
use sendip.Args.Stream.{Val, str2val}
use sendip.Args.Random.{addrand}

abbrev pub nothing : Val
nothing = record { written = []; count = 0 }

-- `gettimeofday` returns 0 where it succeeds, and then nothing is stored; where it fails, the
-- uninitialised `ts` is read.
unfoldable pub timestamp : ℕ → Exec Val
timestamp length w = elim w.now [ some ts ↦ done (nothing, w) | none ↦ fault ]

-- `len = outlen` where the buffer is too small.
abbrev pub capped : ℕ → ℕ → ℕ
capped len outlen = if ltb outlen len then outlen else len

-- `rN`: random bytes, and the seed moves on.
abbrev pub random_val : ℕ → Exec Val
random_val n w =
    let (bytes, seed) = addrand n w.xsubi in
    done (record { written = bytes; count = n }, record w { xsubi = seed })

-- `zN`: zero bytes.
abbrev pub zero_val : ℕ → Exec Val
zero_val n w = done (record { written = replicate n 0; count = n }, w)

-- What is no file argument.
unfoldable pub direct_val : List ℕ → ℕ → Exec Val
direct_val input outlen w =
    let c = first_char input in
    let len = atoi (rest_of input) in
    let numbered = isdigit (first_char (rest_of input)) in
    if (c == b'r' || c == b'z') && numbered
    then (if len == 0
        then done (nothing, w)
        else if c == b'r'
        then random_val (capped len outlen) w
        else zero_val (capped len outlen) w)
    else if c == b't' && numbered
    then timestamp (capped len outlen) w
    else done (str2val input outlen, w)

-- NULL is `none`. The fuel bounds the chain of files whose lines are file arguments again.
unfoldable pub opt2val : ℕ → Option (List ℕ) → ℕ → Exec Val
opt2val fuel none outlen w = done (nothing, w)
opt2val zero (some input) outlen w = stuck
opt2val (suc fuel) (some input) outlen w = elim (first_char input == b'f') [
  | true ↦ elim (fileargument (rest_of input) w) [
    | done (line, w') ↦ elim line [
      | some text ↦ opt2val fuel (some text) outlen w'
      | none ↦ direct_val input outlen w'
    ]
    | fault ↦ fault
    | stuck ↦ stuck
    | exits ↦ exits
  ]
  | false ↦ direct_val input outlen w
]
