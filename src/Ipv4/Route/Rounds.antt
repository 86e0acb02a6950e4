-- ===== src/Ipv4/Route/Rounds.antt =====
-- ipv4.c: how many rounds the loop over the addresses of a source route takes.
use sendip.Base.{ℕ, zero, suc, ◌+◌, ◌≤◌, ◌<◌, ◌≡◌, arith, List, [], ◌∷◌, some}
use sendip.Base.{length, drop, length-drop, Option-cases, inl, inr, ap, sym, ◌∙◌}
use sendip.World.{World, Outcome-cases}
use sendip.Args.Address.{opt2v4}
use sendip.Ipv4.Route.{string_at, colon_in, write4, Field, field_at, route_loop}
use sendip.Ipv4.Route.Bounds.{length-write4, length-field_at}

string_at-length : (xs s : List ℕ) → string_at xs ≡ some s → length s < length xs
unfolding string_at
string_at-length [] s e = absurd (ground (arith, e))
string_at-length (c ∷ xs) s e = elim (Option-cases (string_at xs)) [
  | inl bad ↦ ground (arith, e, bad)
  | inr (t, found) ↦ ground (arith, e, found, string_at-length xs t found)
]

colon_in-length : (s : List ℕ) (n : ℕ) → colon_in s ≡ some n → n < length s
unfolding colon_in
colon_in-length [] n e = absurd (ground (arith, e))
colon_in-length (c ∷ s) n e = elim (Option-cases (colon_in s)) [
  | inl bad ↦ ground (arith, e, bad)
  | inr (m, found) ↦ ground (arith, e, found, colon_in-length s m found)
]

-- The next field begins behind this one, inside the buffer.
field_at-next :
    (buf : List ℕ) (data_in : ℕ) (f : Field) (next : ℕ)
    → field_at buf data_in ≡ some f
    → f.next ≡ some next
    → (data_in < next) × (next < length buf)
unfolding field_at
field_at-next buf data_in f next e more = elim (Option-cases (string_at (drop data_in buf))) [
  | inl bad ↦ absurd (ground (arith, rw (bad, field_at) at e))
  | inr (s, found) ↦ elim (Option-cases (colon_in s)) [
    | inl end ↦ absurd (ground (arith, rw (found, end, field_at) at e, more))
    | inr (n, colon) ↦ ground (
      arith,
      rw (found, colon, field_at) at e,
      more,
      length-drop data_in buf,
      string_at-length (drop data_in buf) s found,
      colon_in-length s n colon,
    )
  ]
]

-- Where the rounds behind the next field make no difference, this one makes none.
round_enough :
    (fuel rounds : ℕ) (buf : List ℕ) (data_in out : ℕ) (w : World)
    → ((buf' : List ℕ) (next : ℕ) (w' : World)
        → length buf' ≡ length buf
        → data_in < next
        → next < length buf
        → route_loop fuel rounds buf' next (out + 4) w'
          ≡ route_loop fuel (suc rounds) buf' next (out + 4) w')
    → route_loop fuel (suc rounds) buf data_in out w
      ≡ route_loop fuel (suc (suc rounds)) buf data_in out w
unfolding route_loop
round_enough fuel rounds buf data_in out w later = elim (Option-cases (field_at buf data_in)) [
  | inl bad ↦ cc
  | inr (f, found) ↦ elim (Outcome-cases (opt2v4 fuel f.field w)) [
    | inr (inl bad) ↦ cc
    | inr (inr (inl bad)) ↦ cc
    | inr (inr (inr bad)) ↦ cc
    | inl ((v, w₁), read) ↦ elim (Option-cases (write4 f.cut out v)) [
      | inl bad ↦ cc
      | inr (buf', put) ↦ elim (Option-cases f.next) [
        | inl end ↦ cc
        | inr (next, more) ↦
            let on = field_at-next buf data_in f next found more in
            let size =
              (length-write4 f.cut out v buf' put).0 ∙ length-field_at buf data_in f found in
            let same = later buf' next w₁ size on.0 on.1 in cc
      ]
    ]
  ]
]

route_loop_enough :
    (fuel rounds : ℕ) (buf : List ℕ) (data_in out : ℕ) (w : World)
    → length buf ≤ data_in + rounds
    → route_loop fuel (suc rounds) buf data_in out w
      ≡ route_loop fuel (suc (suc rounds)) buf data_in out w
route_loop_enough fuel zero buf data_in out w enough =
    round_enough fuel zero buf data_in out w
      (λ buf' next w' size lo hi. absurd (omega (arith, enough, lo, hi)))
route_loop_enough fuel (suc rounds) buf data_in out w enough =
    round_enough fuel (suc rounds) buf data_in out w (λ buf' next w' size lo hi.
      route_loop_enough fuel rounds buf' next (out + 4) w' (omega (arith, enough, size, lo, hi)))

-- Once there is a round for each byte from `data_in` on and one more, any number of further rounds
-- changes nothing: the loop over the addresses does not stop for want of rounds.
pub route_loop-rounds :
    (more fuel rounds : ℕ) (buf : List ℕ) (data_in out : ℕ) (w : World)
    → length buf ≤ data_in + rounds
    → route_loop fuel (suc (rounds + more)) buf data_in out w
      ≡ route_loop fuel (suc rounds) buf data_in out w
route_loop-rounds zero fuel rounds buf data_in out w enough =
    ap (λ n. route_loop fuel (suc n) buf data_in out w) (omega arith)
route_loop-rounds (suc more) fuel rounds buf data_in out w enough =
    ap (λ n. route_loop fuel (suc n) buf data_in out w) (omega arith)
    ∙ (sym (route_loop_enough fuel (rounds + more) buf data_in out w (omega (arith, enough)))
        ∙ route_loop-rounds more fuel rounds buf data_in out w enough)
