-- ===== src/Args/Number/Order.antt =====
-- The byte order of the results, and their width.
use sendip.Base.{ℕ, suc, ◌<◌, ◌≡◌, refl, arith}
use sendip.Base.{List, ◌∷◌, some, true, ◌==◌}
use sendip.Base.{u8, u16, u32, htons, htonl, if◌then◌else◌}
use sendip.Libc.{isdigit, skip_spaces, strtoul}
use sendip.World.{World, done}
use sendip.Fargs.{fileargument}
use sendip.Args.Number.{direct_intn, direct_inth, opt2intn, spaceless_inth, opt2inth}

-- From host to network order, at the width of a field of `sz` bytes.
abbrev pub to_network : ℕ → ℕ → ℕ
to_network sz v = if sz == 1 then v else if sz == 2 then htons v else htonl v

-- A number cut to a field of `sz` bytes; three bytes are held in four.
abbrev pub host_number : ℕ → ℕ → ℕ
host_number sz v = if sz == 1 then u8 v else if sz == 2 then u16 v else u32 v

-- A number as options write it: its text begins with a digit, so it is no file, random or zero
-- argument. `opt2inth` reads it as `strtoul` with base 0 does, cut to the field, and `opt2intn`
-- returns the same number in network byte order; neither touches the world.
pub opt2int_number :
    (fuel sz d : ℕ) (s : List ℕ) (w : World)
    → isdigit d ≡ true
    → 0 < sz
    → (n : ℕ) × (n ≡ host_number sz (strtoul (d ∷ s) 0))
      × (opt2inth fuel (some (d ∷ s)) sz w ≡ done (n, w))
      × (opt2intn (suc fuel) (some (d ∷ s)) sz w ≡ done (to_network sz n, w))
unfolding opt2inth spaceless_inth direct_inth opt2intn direct_intn skip_spaces
opt2int_number fuel sz d s w digit pos =
    (host_number sz (strtoul (d ∷ s) 0), refl, ground arith, ground arith)

-- A file argument is read by `opt2intn` for both functions: `opt2inth` of "f" and a path returns
-- what the next line of the file stands for in network byte order.
pub opt2inth_file :
    (fuel sz : ℕ) (path line : List ℕ) (w w' : World)
    → 0 < sz
    → fileargument path w ≡ done (some line, w')
    → opt2inth fuel (some (b'f' ∷ path)) sz w ≡ opt2intn fuel (some line) sz w'
unfolding opt2inth spaceless_inth skip_spaces
opt2inth_file fuel sz path line w w' pos e = ground arith
