-- ===== src/Main/Dispatch/Runs.antt =====
-- sendip.c: which module each option goes to.
use sendip.Base.{
  ℕ, zero, suc, ◌≡◌, ◌≢◌, ◌⊎◌, List, [], ◌∷◌, Option, some, Bool, true, All, get_elem?, set,
  if◌then◌else◌,
}
use sendip.World.{World, done}
use sendip.Protoname.{Protocols}
use sendip.Pack.{Pack, optchar}
use sendip.Main.Dispatch.{
  Scanned, next_module, builtin, missing_argument, not_recognized, module_option, Options, do_opt,
  argument, random_argument, advance,
}

-- The first pack with the character stands at `i`.
abbrev pub IsFirst : ℕ → List Pack → ℕ → Type 0
IsFirst c [] i = ⊥
IsFirst c (p ∷ packs) zero = optchar p ≡ c
IsFirst c (p ∷ packs) (suc i) = (optchar p ≢ c) × IsFirst c packs i

-- The pack at `i` is the current one and has the character, or the current one has not and the
-- first that has it stands at `i`.
abbrev pub Takes : ℕ → Options → ℕ → Type 0
Takes c s i =
    (current : ℕ) × (p : Pack) × (s.current ≡ some current)
    × (get_elem? s.packs current ≡ some p)
    × (((optchar p ≡ c) × (i ≡ current)) ⊎ ((optchar p ≢ c) × IsFirst c s.packs i))

-- What an option of a module does: its do_opt gets the argument, or a random number in place of
-- "r", and the pack at `i`. The pack that comes back takes that place, and a failure is noted.
abbrev pub Applies :
    Protocols
    → (List ℕ → Option (List ℕ))
    → ℕ
    → List ℕ
    → Option (List ℕ)
    → ℕ
    → Options
    → World
    → Options
    → World
    → Type 0
Applies db inet_pton6 fuel name arg i s w s' w' =
    (p : Pack) × (q : Pack) × (ok : Bool) × (a : Option (List ℕ)) × (w₁ : World) × (get_elem?
        s.packs i
      ≡ some p)
    × (random_argument arg w ≡ done (a, w₁))
    × (do_opt db inet_pton6 fuel name (argument a) p w₁ ≡ done ((ok, q), w'))
    × (s' ≡ record s { packs = set s.packs i q; usage = if ok then s.usage else true })

-- One round of the loop.
abbrev pub Round :
    Protocols
    → (List ℕ → Option (List ℕ))
    → ℕ
    → Scanned
    → Options
    → World
    → Options
    → World
    → Type 0
Round db inet_pton6 fuel next_module s w s' w' =
    (s' ≡ record s { current = advance s.packs s.current }) × (w' ≡ w)
Round db inet_pton6 fuel builtin s w s' w' = (s' ≡ s) × (w' ≡ w)
Round db inet_pton6 fuel missing_argument s w s' w' = (s' ≡ record s { usage = true }) × (w' ≡ w)
Round db inet_pton6 fuel not_recognized s w s' w' = (s' ≡ record s { usage = true }) × (w' ≡ w)
Round db inet_pton6 fuel (module_option c name arg) s w s' w' =
    ((s' ≡ s) × (w' ≡ w) × All (λ p. optchar p ≢ c) s.packs)
    ⊎ ((i : ℕ) × Takes c s i × Applies db inet_pton6 fuel name arg i s w s' w')

-- The rounds one after the other.
abbrev pub Runs :
    Protocols
    → (List ℕ → Option (List ℕ))
    → ℕ
    → List Scanned
    → Options
    → World
    → Options
    → World
    → Type 0
Runs db inet_pton6 fuel [] s w s' w' = (s' ≡ s) × (w' ≡ w)
Runs db inet_pton6 fuel (o ∷ scanned) s w s' w' =
    (s₁ : Options) × (w₁ : World) × Round db inet_pton6 fuel o s w s₁ w₁
    × Runs db inet_pton6 fuel scanned s₁ w₁ s' w'
