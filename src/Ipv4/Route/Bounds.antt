-- ===== src/Ipv4/Route/Bounds.antt =====
-- ipv4.c: the bounds of the buffer in which `buildroute` works.
use sendip.Base.{
  ℕ, zero, suc, ◌+◌, ◌%◌, ◌≤◌, ◌≡◌, refl, arith, List, [], ◌∷◌, ◌++◌, Option, none, some,
}
use sendip.Base.{
  ◌==◌, length, take, drop, get_or, set, bytes32, length-append, length-take, length-drop,
}
use sendip.Base.{Option-cases, Bool-cases, inl, inr, ◌⊎◌}
use sendip.World.{World, done, Exec, pure, bind-done}
use sendip.Args.Address.{opt2v4}
use sendip.Ipv4.Route.{
  string_at, colon_in, write4, hex_pointer, Field, field_at, written, with_field, route_loop,
  buildroute,
}

length-set : (xs : List ℕ) (i v : ℕ) → length (set xs i v) ≡ length xs
length-set [] i v = refl
length-set (x ∷ xs) zero v = refl
length-set (x ∷ xs) (suc i) v = omega (arith, length-set xs i v)

pub length-write4 :
    (buf : List ℕ) (out v : ℕ) (buf' : List ℕ)
    → write4 buf out v ≡ some buf'
    → (length buf' ≡ length buf) × (out + 4 ≤ length buf)
unfolding write4
length-write4 buf out v buf' e = ground (
  arith,
  length-append (take out buf) (bytes32 v ++ drop (out + 4) buf),
  length-append (bytes32 v) (drop (out + 4) buf),
  length-take out buf,
  length-drop (out + 4) buf,
)

pub length-field_at :
    (buf : List ℕ) (data_in : ℕ) (f : Field)
    → field_at buf data_in ≡ some f
    → length f.cut ≡ length buf
unfolding field_at
length-field_at buf data_in f e = elim (Option-cases (string_at (drop data_in buf))) [
  | inl bad ↦ ground (arith, rw (bad, field_at) at e)
  | inr (s, found) ↦ elim (Option-cases (colon_in s)) [
    | inl end ↦ ground (arith, rw (found, end, field_at) at e)
    | inr (n, colon) ↦
        ground (arith, rw (found, colon, field_at) at e, length-set buf (data_in + n) 0)
  ]
]

written-done :
    {A : Type 0} (buf : List ℕ) (out v : ℕ) (k : List ℕ → Exec A) (w w' : World) (r : A)
    → written buf out v k w ≡ done (r, w')
    → (buf' : List ℕ) × (write4 buf out v ≡ some buf') × (k buf' w ≡ done (r, w'))
written-done buf out v k w w' r e = elim (Option-cases (write4 buf out v)) [
  | inl bad ↦ absurd (ground (arith, rw (bad, written) at e))
  | inr (buf', put) ↦ (buf', put, rw (put, written) at e)
]

with_field-done :
    {A : Type 0} (buf : List ℕ) (data_in : ℕ) (k : Field → Exec A) (w w' : World) (r : A)
    → with_field buf data_in k w ≡ done (r, w')
    → (f : Field) × (field_at buf data_in ≡ some f) × (k f w ≡ done (r, w'))
with_field-done buf data_in k w w' r e = elim (Option-cases (field_at buf data_in)) [
  | inl bad ↦ absurd (ground (arith, rw (bad, with_field) at e))
  | inr (f, found) ↦ (f, found, rw (found, with_field) at e)
]

-- What the loop leaves, from `out` in a buffer of `size` bytes.
abbrev Bounded : ℕ → ℕ → List ℕ × ℕ → Type 0
Bounded size out r = (length r.0 ≡ size) × (r.1 ≤ size) × (r.1 % 4 ≡ out % 4) × (out ≤ r.1)

last_or_next :
    (fuel rounds out : ℕ) (next : Option ℕ) (buf' : List ℕ) (r : List ℕ × ℕ) (w w' : World)
    → out ≤ length buf'
    → ((n : ℕ) → route_loop fuel rounds buf' n out w ≡ done (r, w') → Bounded (length buf') out r)
    → (elim next as (λ x. Exec (List ℕ × ℕ)) [
      | none ↦ pure (buf', out)
      | some n ↦ route_loop fuel rounds buf' n out
    ])
        w
      ≡ done (r, w')
    → Bounded (length buf') out r
last_or_next fuel rounds out none buf' r w w' fits later e = ground (arith, e)
last_or_next fuel rounds out (some n) buf' r w w' fits later e = later n e

route_loop-bound :
    (fuel rounds : ℕ) (buf : List ℕ) (data_in out : ℕ) (r : List ℕ × ℕ) (w w' : World)
    → route_loop fuel rounds buf data_in out w ≡ done (r, w')
    → Bounded (length buf) out r
unfolding route_loop
route_loop-bound fuel zero buf data_in out r w w' e = absurd (ground (arith, e))
route_loop-bound fuel (suc rounds) buf data_in out r w w' e =
    let (f, found, e₁) = with_field-done buf data_in _ w w' r e in
    let (v, w₁, read, e₂) = bind-done (opt2v4 fuel f.field) _ w w' r e₁ in
    let (buf', put, e₃) = written-done f.cut out v _ w₁ w' r e₂ in
    let cut = length-field_at buf data_in f found in
    let put_length = length-write4 f.cut out v buf' put in
    let rest : Bounded (length buf') (out + 4) r =
      last_or_next fuel rounds (out + 4) f.next buf' r w₁ w' (omega (arith, put_length))
        (λ n. route_loop-bound fuel rounds buf' n (out + 4) r w₁ w') e₃ in
    omega (arith, cut, put_length, rest)

-- Where no write ends behind the buffer, the length returned is 0, for an error, or one more than a
-- multiple of four, and at most that of the buffer.
pub buildroute-bound :
    (fuel : ℕ) (buf : List ℕ) (r : List ℕ × ℕ) (w w' : World)
    → buildroute fuel buf w ≡ done (r, w')
    → (length r.0 ≡ length buf) × ((r.1 ≡ 0) ⊎ (r.1 % 4 ≡ 1)) × (r.1 ≤ length buf)
unfolding buildroute
buildroute-bound fuel buf r w w' e = elim (Option-cases (hex_pointer buf)) [
  | inl bad ↦ ground (arith, rw (bad, buildroute) at e)
  | inr (p, good) ↦ elim (Bool-cases (get_or buf 2 0 == b':')) [
    | inr other ↦ ground (arith, rw (good, other, buildroute) at e, length-set buf 0 p)
    | inl colon ↦
        let (q, w₁, e₁, e₂) =
          bind-done (route_loop fuel (length buf) (set buf 0 p) 3 1) _ w w' r
            (rw (good, colon, buildroute) at e) in
        ground (
          arith,
          e₂,
          route_loop-bound fuel (length buf) (set buf 0 p) 3 1 q w w₁ e₁,
          length-set buf 0 p,
        )
  ]
]
