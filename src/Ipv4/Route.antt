-- ===== src/Ipv4/Route.antt =====
-- ipv4.c: the source route and timestamp options, whose argument is edited in place. The results are
-- written over the text that they are read from, in a copy of the argument.
pub mod Bounds
pub mod Rounds
use sendip.Base.{
  ℕ, zero, suc, ◌+◌, ◌-◌, ◌*◌, ◌%◌, List, [], ◌∷◌, ◌++◌, Option, none, some, Bool, true, false,
  ◌==◌,
}
use sendip.Base.{ltb, if◌then◌else◌, length, take, drop, get_or, set, u8, u32, bytes32}
use sendip.World.{World, Outcome, done, fault, stuck, exits, Exec, pure, ◌>>=◌}
use sendip.Args.Stream.{hex_digit}
use sendip.Args.Number.{opt2intn, opt2inth}
use sendip.Args.Address.{opt2v4}

-- The string that begins here. None is a read past the end of the buffer.
unfoldable pub string_at : List ℕ → Option (List ℕ)
string_at [] = none
string_at (c ∷ s) =
    let rest = string_at s in
    if c == 0 then some [] else elim rest [ some t ↦ some (c ∷ t) | none ↦ none ]

-- How many characters stand before the first ':'.
unfoldable pub colon_in : List ℕ → Option ℕ
colon_in [] = none
colon_in (c ∷ s) =
    let later = colon_in s in
    if c == b':' then some 0 else elim later [ some n ↦ some (suc n) | none ↦ none ]

-- `memcpy(data_out, &v, 4)`. None is a write past the end.
unfoldable pub write4 : List ℕ → ℕ → ℕ → Option (List ℕ)
write4 buf out v =
    if ltb (length buf) (out + 4)
    then none
    else some (take out buf ++ (bytes32 v ++ drop (out + 4) buf))

-- `strdup(arg)`
abbrev pub strdup : List ℕ → List ℕ
strdup arg = arg ++ (0 ∷ [])

-- The pointer, in two hex digits.
unfoldable pub hex_pointer : List ℕ → Option ℕ
hex_pointer buf = elim (hex_digit (get_or buf 0 0)) [
  | none ↦ none
  | some hi ↦ elim (hex_digit (get_or buf 1 0)) [ none ↦ none | some lo ↦ some (u8 (hi * 16 + lo)) ]
]

-- The text at `data_in` up to ':' or to its end, the buffer with that ':' set to '\0', and `next`.
pub record Field : Type 0 where
  pub field : List ℕ
  pub cut : List ℕ
  pub next : Option ℕ

unfoldable pub field_at : List ℕ → ℕ → Option Field
field_at buf data_in = elim (string_at (drop data_in buf)) [
  | none ↦ none
  | some s ↦ elim (colon_in s) [
    | none ↦ some (record { field = s; cut = buf; next = none })
    | some n ↦
        some (record {
          field = take n s;
          cut = set buf (data_in + n) 0;
          next = some (data_in + n + 1);
        })
  ]
]

-- `memcpy(data_out, &v, 4); data_out += 4;`, and what follows.
abbrev pub written : {A : Type 0} → List ℕ → ℕ → ℕ → (List ℕ → Exec A) → Exec A
written buf out v k = elim (write4 buf out v) [ none ↦ (λ w. fault) | some buf' ↦ k buf' ]

abbrev pub with_field : {A : Type 0} → List ℕ → ℕ → (Field → Exec A) → Exec A
with_field buf data_in k = elim (field_at buf data_in) [ none ↦ (λ w. fault) | some f ↦ k f ]

-- The addresses, one a round; `data_in` moves on by a character at least, so that as many rounds
-- as the buffer has bytes are enough. The result is the buffer and `data_out`.
unfoldable pub route_loop : ℕ → ℕ → List ℕ → ℕ → ℕ → Exec (List ℕ × ℕ)
route_loop fuel zero buf data_in out = λ w. stuck
route_loop fuel (suc rounds) buf data_in out = with_field buf data_in (λ f. do
  v ← opt2v4 fuel f.field
  written f.cut out v (λ buf'. elim f.next [
    | none ↦ pure (buf', out + 4)
    | some next ↦ route_loop fuel rounds buf' next (out + 4)
  ]))

-- The buffer and the length, which is 0 for an error.
unfoldable pub buildroute : ℕ → List ℕ → Exec (List ℕ × ℕ)
buildroute fuel buf = elim (hex_pointer buf) [
  | none ↦ pure (buf, 0)
  | some p ↦
      if get_or buf 2 0 == b':'
      then (do r ← route_loop fuel (length buf) (set buf 0 p) 3 1; pure (r.0, u8 r.1))
      else pure (set buf 0 p, 0)
]

-- The timestamps, each behind an address if `flag` is not 0. No result is an address without a
-- timestamp.
unfoldable pub stamp_loop : ℕ → ℕ → ℕ → List ℕ → ℕ → ℕ → Exec (Option (List ℕ × ℕ))
stamp_loop fuel zero flag buf data_in out = λ w. stuck
stamp_loop fuel (suc rounds) flag buf data_in out =
    let stamp : List ℕ → ℕ → ℕ → Exec (Option (List ℕ × ℕ)) = λ buf data_in out.
      with_field buf data_in (λ f. do
        ts ← opt2intn fuel (some f.field) 4
        written f.cut out ts (λ buf'. elim f.next [
          | none ↦ pure (some (buf', out + 4))
          | some next ↦ stamp_loop fuel rounds flag buf' next (out + 4)
        ])) in
    if flag == 0
    then stamp buf data_in out
    else with_field buf data_in (λ f. elim f.next [
      | none ↦ pure none
      | some next ↦ (do
        v ← opt2v4 fuel f.field
        written f.cut out v (λ buf'. stamp buf' next (out + 4)))
    ])

-- A number up to 15 in front of a ':'. No result is an error.
abbrev pub small_field :
    ℕ → List ℕ → ℕ → (ℕ → List ℕ → ℕ → Exec (Option (List ℕ × ℕ))) → Exec (Option (List ℕ × ℕ))
small_field fuel buf data_in k = with_field buf data_in (λ f. elim f.next [
  | none ↦ pure none
  | some next ↦ (do
    i ← opt2inth fuel (some f.field) 1
    if ltb 15 i then pure none else k i f.cut next)
])

-- `-iots`: pointer, overflow, flag and timestamps. The result is the buffer and `data_out - data`.
abbrev pub timestamps : ℕ → List ℕ → Exec (Option (List ℕ × ℕ))
timestamps fuel buf = elim (hex_pointer buf) [
  | none ↦ pure none
  | some p ↦
      if get_or buf 2 0 == b':'
      then small_field fuel (set buf 0 p) 3 (λ overflow buf₁ at₁.
        small_field fuel (set buf₁ 1 (u8 (overflow * 16))) at₁ (λ flag buf₂ at₂.
          stamp_loop fuel (length buf) flag (set buf₂ 1 (u8 (get_or buf₂ 1 0 + flag))) at₂ 2))
      else pure none
]
