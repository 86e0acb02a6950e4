-- ===== src/Main/Dispatch.antt =====
-- sendip.c: the loop of `main` that hands the options to the modules. The results of the option
-- scanner, in their order, are its input.
pub mod Reach
pub mod Runs
use sendip.Base.{
  ℕ, zero, suc, ◌+◌, ◌-◌, ◌*◌, ◌/◌, ◌%◌, List, [], ◌∷◌, ◌++◌, Option, none, some, Bool, true, false,
}
use sendip.Base.{◌==◌, ltb, if◌then◌else◌, length, get_elem?, set, u64, bit_and}
use sendip.Libc.{codes, streq}
use sendip.World.{World, Outcome, done, fault, stuck, exits, Exec, pure, ◌>>=◌, rand, rand_drawn}
use sendip.Protoname.{Protocols}
use sendip.Pack.{Pack, ip, ip6, icmp, tcp, udp, frag, optchar}
use sendip.Pack.Shape.{hdrs_of}
use sendip.Ipv4.Options as Ip4Options
use sendip.Ipv6
use sendip.Icmp
use sendip.Tcp
use sendip.Udp
use sendip.Frag

-- What `_getopt_internal` returns: `-p`, another option of main itself, an option without the
-- argument that it needs, one that is not known, or an option `name` of the modules with the
-- character `optc`. The argument is none where the option takes none.
pub data Scanned : Type 0 where
  next_module : Scanned
  builtin : Scanned
  missing_argument : Scanned
  not_recognized : Scanned
  module_option : ℕ → List ℕ → Option (List ℕ) → Scanned

-- `current` is `current_e`, as a place in the list of modules.
pub record Options : Type 0 where
  pub packs : List Pack
  pub current : Option ℕ
  pub usage : Bool

-- `current_e = (current_e) ? current_e->next : first`
unfoldable pub advance : List Pack → Option ℕ → Option ℕ
advance packs none = if length packs == 0 then none else some 0
advance packs (some i) = if ltb (i + 1) (length packs) then some (i + 1) else none

-- `%lu`: `digits` are enough for a number below 10 ^ digits.
unfoldable pub decimal : ℕ → ℕ → List ℕ
decimal zero n = []
decimal (suc digits) n =
    let rest = decimal digits (n / 10) in
    if n / 10 == 0 then (b'0' + n) ∷ [] else rest ++ ((b'0' + n % 10) ∷ [])

-- `random() << 1`, with one of its bits repeated as the lowest.
abbrev pub random32 : ℕ → ℕ
random32 random = let r = u64 (random * 2) in r + bit_and r 64 / 64

-- The argument "r" stands for a random number.
unfoldable pub random_argument : Option (List ℕ) → Exec (Option (List ℕ))
random_argument none w = done (none, w)
random_argument (some arg) w =
    if streq arg (codes "r")
    then done (some (decimal 20 (random32 (rand w))), rand_drawn w)
    else done (some arg, w)

-- Options without argument read none.
abbrev pub argument : Option (List ℕ) → List ℕ
argument none = []
argument (some arg) = arg

abbrev pub wrapped : {H : Type 0} → (H → Pack) → Bool × H → Bool × Pack
wrapped wrap r = (r.0, wrap r.1)

-- `mod->do_opt(opts[longindex].name, gnuoptarg, e->pack)`
unfoldable pub do_opt :
    Protocols → (List ℕ → Option (List ℕ)) → ℕ → List ℕ → List ℕ → Pack → Exec (Bool × Pack)
do_opt db inet_pton6 fuel name arg (ip d) = (do
  r ← Ip4Options.do_opt fuel name arg d
  pure (wrapped ip r))
do_opt db inet_pton6 fuel name arg (ip6 d) = (do
  r ← Ipv6.do_opt db inet_pton6 fuel name arg d
  pure (wrapped ip6 r))
do_opt db inet_pton6 fuel name arg (icmp d) = (do
  r ← Icmp.do_opt fuel name arg d
  pure (wrapped icmp r))
do_opt db inet_pton6 fuel name arg (tcp d) = (do
  r ← Tcp.do_opt fuel name arg d
  pure (wrapped tcp r))
do_opt db inet_pton6 fuel name arg (udp d) = (do
  r ← Udp.do_opt fuel name arg d
  pure (wrapped udp r))
do_opt db inet_pton6 fuel name arg (frag d) = (do
  r ← Frag.do_opt db fuel name arg d
  pure (wrapped frag r))

-- The first module with the character.
unfoldable pub find_module : ℕ → List Pack → Option ℕ
find_module optc [] = none
find_module optc (p ∷ packs) =
    let later = find_module optc packs in
    if optchar p == optc then some 0 else elim later [ some i ↦ some (suc i) | none ↦ none ]

-- The current module if it has the character, else the first that has it. None is a read through
-- the null pointer `current_e`, and `some none` no module.
unfoldable pub select_module : ℕ → Options → Option (Option ℕ)
select_module optc s = elim s.current [
  | none ↦ none
  | some i ↦ elim (get_elem? s.packs i) [
    | none ↦ none
    | some p ↦ some (if optchar p == optc then some i else find_module optc s.packs)
  ]
]

-- A module's option, for the pack at `i`.
unfoldable pub apply_option :
    Protocols
    → (List ℕ → Option (List ℕ))
    → ℕ
    → List ℕ
    → Option (List ℕ)
    → ℕ
    → Options
    → Exec Options
apply_option db inet_pton6 fuel name arg i s = elim (get_elem? s.packs i) [
  | none ↦ (λ w. fault)
  | some p ↦ (do
    a ← random_argument arg
    r ← do_opt db inet_pton6 fuel name (argument a) p
    pure (record s { packs = set s.packs i r.1; usage = if r.0 then s.usage else true }))
]

-- One round of the loop.
unfoldable pub step : Protocols → (List ℕ → Option (List ℕ)) → ℕ → Scanned → Options → Exec Options
step db inet_pton6 fuel next_module s = pure (record s { current = advance s.packs s.current })
step db inet_pton6 fuel builtin s = pure s
step db inet_pton6 fuel missing_argument s = pure (record s { usage = true })
step db inet_pton6 fuel not_recognized s = pure (record s { usage = true })
step db inet_pton6 fuel (module_option optc name arg) s = elim (select_module optc s) [
  | none ↦ (λ w. fault)
  | some none ↦ pure s
  | some (some i) ↦ apply_option db inet_pton6 fuel name arg i s
]

unfoldable pub parse :
    Protocols → (List ℕ → Option (List ℕ)) → ℕ → List Scanned → Options → Exec Options
parse db inet_pton6 fuel [] s = pure s
parse db inet_pton6 fuel (o ∷ scanned) s =
    step db inet_pton6 fuel o s >>= (λ s'. parse db inet_pton6 fuel scanned s')
