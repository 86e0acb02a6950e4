-- ===== src/Args/Address.antt =====
-- `cidr2addr` and `opt2v4`: IPv4 addresses. A buffer of BUFSIZ characters holds the text.
pub mod Cidr
use sendip.Base.{ℕ, zero, suc, ◌+◌, ◌-◌, ◌*◌, ◌^◌, List, [], ◌∷◌, ◌++◌, Option, none, some}
use mathlib.Core.Option
use sendip.Base.{Bool, true, false, ◌&&◌, ◌||◌, ltb, leb, ◌==◌, if◌then◌else◌}
use sendip.Base.{bit_and, bit_or, htonl, from_bytes}
use sendip.Libc.{first_char, rest_of, isdigit, split_at, strtol_int}
use sendip.World.{World, Outcome, done, fault, stuck, exits, Exec, pure, ◌>>=◌}
use sendip.Fargs.{fileargument}
use sendip.Args.Number.{opt2intn, opt2inth}

-- `inet_pton(AF_INET, …)`: four decimal numbers up to 255 with no leading zero. `seen` tells that
-- the octet at hand has a digit, `left` counts the octets that may still begin.
unfoldable pub pton_loop : Bool → ℕ → ℕ → List ℕ → Option (List ℕ)
pton_loop true zero octet [] = some (octet ∷ [])
pton_loop true (suc left) octet [] = none
pton_loop false left octet [] = none
pton_loop true left octet (c ∷ s) =
    let octet' = octet * 10 + (c - b'0') in
    let same = pton_loop true left octet' s in
    if isdigit c then (if octet == 0 || ltb 255 octet' then none else same) else elim left [
      | zero ↦ none
      | suc l ↦ elim (c == b'.') [
        | false ↦ none
        | true ↦ Option.map (λ rest. octet ∷ rest) (pton_loop false l 0 s)
      ]
    ]
pton_loop false left octet (c ∷ s) =
    let same = pton_loop true left (c - b'0') s in if isdigit c then same else none

unfoldable pub inet_pton : List ℕ → Option ℕ
unfolding pton_loop
inet_pton s = Option.map from_bytes (pton_loop false 3 0 s)

-- What `cidrarg.s_addr` holds: junk where the text is no address.
abbrev pub s_addr_or_junk : Option ℕ → ℕ → ℕ
s_addr_or_junk none junk = junk
s_addr_or_junk (some a) junk = a

-- The random argument and the size of its integer, by the length of the prefix.
abbrev pub random_arg : ℕ → List ℕ × ℕ
random_arg bits =
    if ltb bits 8
    then (b'r' ∷ b'4' ∷ [], 4)
    else if ltb bits 16
    then (b'r' ∷ b'3' ∷ [], 3)
    else if ltb bits 24
    then (b'r' ∷ b'2' ∷ [], 2)
    else (b'r' ∷ b'1' ∷ [], 1)

-- `hmask`, in host order.
abbrev pub host_mask : ℕ → ℕ
host_mask bits = 2 ^ (32 - bits) - 1

-- One draw: `host = opt2intn(…); host &= hmask;`
unfoldable pub draw : ℕ → Exec ℕ
draw bits = do
  host ← opt2intn 1 (some (random_arg bits).0) (random_arg bits).1
  pure (bit_and host (host_mask bits))

-- `do … while (host == 0 || host == hmask)`, with fuel.
unfoldable pub host_loop : ℕ → ℕ → Exec ℕ
host_loop zero bits w = stuck
host_loop (suc fuel) bits w = elim (draw bits w) [
  | done (host, w') ↦ elim (host == 0 || host == host_mask bits) [
    | true ↦ host_loop fuel bits w'
    | false ↦ done (host, w')
  ]
  | fault ↦ fault
  | stuck ↦ stuck
  | exits ↦ exits
]

-- The host part is put under the address, both in network order.
abbrev pub fold_host : ℕ → ℕ → ℕ → ℕ
fold_host s_addr bits host =
    bit_or (bit_and s_addr (htonl (2 ^ 32 - 1 - host_mask bits))) (htonl host)

-- `input` is what stands before the slash, and `slash` what stands behind it.
unfoldable pub cidr2addr : ℕ → List ℕ → List ℕ → Exec ℕ
cidr2addr fuel input slash w =
    let bits = strtol_int slash 0 in
    let s_addr = s_addr_or_junk (inet_pton input) w.junk in
    if bits == 0 || leb 32 bits
    then done (s_addr, w)
    else (host_loop fuel bits >>= λ host. pure (fold_host s_addr bits host)) w

abbrev pub inaddr_none : ℕ
inaddr_none = 2 ^ 32 - 1

-- `sprintf` of two to four numbers with dots between, and `inet_addr` of that text: all but the
-- last are octets, and the last fills what is left. A number of 2 ^ 31 or more prints as negative.
abbrev pub inet_addr_two : ℕ → ℕ → ℕ
inet_addr_two a b = if leb a 255 && leb b 0xffffff then htonl (a * 0x1000000 + b) else inaddr_none

abbrev pub inet_addr_three : ℕ → ℕ → ℕ → ℕ
inet_addr_three a b c =
    if leb a 255 && leb b 255 && leb c 0xffff
    then htonl (a * 0x1000000 + b * 0x10000 + c)
    else inaddr_none

abbrev pub inet_addr_four : ℕ → ℕ → ℕ → ℕ → ℕ
inet_addr_four a b c d =
    if leb a 255 && leb b 255 && leb c 255 && leb d 255
    then htonl (a * 0x1000000 + b * 0x10000 + c * 0x100 + d)
    else inaddr_none

-- "aa.bb.rest", with the text from the third field on.
unfoldable pub last_fields : ℕ → ℕ → ℕ → List ℕ → Exec ℕ
last_fields fuel a b input = elim (split_at b'.' input) [
  | none ↦ do c ← opt2inth fuel (some input) 2; pure (inet_addr_three a b c)
  | some (_, rest) ↦ do
    c ← opt2inth fuel (some input) 1
    d ← opt2inth fuel (some rest) 1
    pure (inet_addr_four a b c d)
]

-- "aa.rest", with the text from the second field on.
unfoldable pub second_fields : ℕ → ℕ → List ℕ → Exec ℕ
second_fields fuel a input = elim (split_at b'.' input) [
  | none ↦ do b ← opt2inth fuel (some input) 3; pure (inet_addr_two a b)
  | some (_, rest) ↦ do b ← opt2inth fuel (some input) 1; last_fields fuel a b rest
]

-- What is no file argument.
unfoldable pub direct_v4 : ℕ → List ℕ → Exec ℕ
direct_v4 fuel input = elim (split_at b'/' input) [
  | some (before, behind) ↦ cidr2addr fuel before behind
  | none ↦ elim (split_at b'.' input) [
    | none ↦ opt2intn fuel (some input) 4
    | some (_, rest) ↦ do a ← opt2inth fuel (some input) 1; second_fields fuel a rest
  ]
]

-- A file argument that yields NULL is dereferenced. The `length` is never used.
unfoldable pub opt2v4 : ℕ → List ℕ → Exec ℕ
opt2v4 zero input w = stuck
opt2v4 (suc fuel) input w = elim (first_char input == b'f') [
  | false ↦ direct_v4 (suc fuel) input w
  | true ↦ elim (fileargument (rest_of input) w) [
    | done (line, w') ↦ elim line [ some text ↦ opt2v4 fuel text w' | none ↦ fault ]
    | fault ↦ fault
    | stuck ↦ stuck
    | exits ↦ exits
  ]
]
