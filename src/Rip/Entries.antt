-- ===== src/Rip/Entries.antt =====
-- rip.c: the entries.
use sendip.Base.{
  ℕ, zero, suc, ◌≡◌, ◌≢◌, ◌⊎◌, inl, inr, refl, arith, List, [], ◌∷◌, ◌++◌, Option, some, Bool, true,
  false, get_or, length, ◌==◌, if◌then◌else◌, ap, sym, u32, htonl,
}
use sendip.World.{World, done, bind-done}
use sendip.Libc.{codes, strtoul}
use sendip.Args.Number.{opt2intn, direct_intn}
use sendip.Args.Address.{opt2v4}
use sendip.Rip.Fields.{next_field, field_lem, scan_at, nth_field, started}
use sendip.Rip.{RipEntry, RipPack, text_of, read_entry, do_opt}

read_16 :
    (fuel v : ℕ) (w w' : World)
    → opt2intn fuel (some (codes "16")) 4 w ≡ done (v, w')
    → v ≡ 268435456
unfolding opt2intn direct_intn strtoul
read_16 zero v w w' e = absurd (ground (arith, e))
read_16 (suc fuel) v w w' e = ground (arith, e)

read_empty : (fuel v : ℕ) (w w' : World) → opt2intn fuel (some []) 4 w ≡ done (v, w') → v ≡ 0
unfolding opt2intn direct_intn strtoul
read_empty zero v w w' e = absurd (ground (arith, e))
read_empty (suc fuel) v w w' e = ground (arith, e)

-- The metric is read from one of two texts, and the user's is none of them.
read_metric :
    (fuel v : ℕ) (field : List ℕ) (w w' : World)
    → opt2intn fuel (some (if length field == 0 then field else codes "16")) 4 w ≡ done (v, w')
    → ((field ≡ []) × (v ≡ 0)) ⊎ ((field ≢ []) × (v ≡ 268435456))
read_metric fuel v [] w w' e = inl (refl, read_empty fuel v w w' e)
read_metric fuel v (c ∷ field) w w' e =
    let given : (length (c ∷ field) == 0) ≡ false = ground arith in
    inr ((λ same. absurd (ground (arith, same))), read_16 fuel v w w' (rw given at e))

read_entry-metric :
    (fuel : ℕ) (text : List ℕ) (e : RipEntry) (w w' : World)
    → read_entry fuel text w ≡ done (e, w')
    → ((nth_field 5 text ≡ []) × (e.metric ≡ 0))
      ⊎ ((nth_field 5 text ≢ []) × (e.metric ≡ 268435456))
unfolding read_entry
read_entry-metric fuel text e w w' h =
    let metric = (next_field (scan_at 5 (started text))).0 in
    let sixth : metric ≡ nth_field 5 text = field_lem 5 text in
    let (v₁, w₁, r₁, h₁) = bind-done (opt2intn fuel _ 2) _ w w' e h in
    let (v₂, w₂, r₂, h₂) = bind-done (opt2intn fuel _ 2) _ w₁ w' e h₁ in
    let (v₃, w₃, r₃, h₃) = bind-done (opt2v4 fuel _) _ w₂ w' e h₂ in
    let (v₄, w₄, r₄, h₄) = bind-done (opt2v4 fuel _) _ w₃ w' e h₃ in
    let (v₅, w₅, r₅, h₅) = bind-done (opt2v4 fuel _) _ w₄ w' e h₄ in
    let (v₆, w₆, r₆, h₆) = bind-done (opt2intn fuel _ 4) _ w₅ w' e h₅ in
    let stored : e.metric ≡ u32 v₆ = ground (arith, h₆) in
    rw (sym sixth, stored)
      (elim (read_metric fuel v₆ metric w₅ w₆ r₆) [
        | inl (nothing, zero_is) ↦ inl (nothing, ap u32 zero_is)
        | inr (given, default_is) ↦ inr (given, ap u32 default_is)
      ])

-- `-re`, whatever its argument: an entry goes behind the others, and the fields of the header and
-- the marks stay. The metric is never that of the argument. Where the text behind the fifth bar is
-- empty or missing, the metric is 0; where there is one, the metric is 16 in network byte order.
pub do_opt-metric :
    (fuel : ℕ) (opt : List ℕ) (arg : Option (List ℕ)) (d d' : RipPack) (w w' : World) (ok : Bool)
    → get_or opt 1 0 ≡ b'e'
    → do_opt fuel opt arg d w ≡ done ((ok, d'), w')
    → (e : RipEntry) × (ok ≡ true)
      × (d' ≡ record d { entries = d.entries ++ (e ∷ []) })
      × (((nth_field 5 (text_of arg) ≡ []) × (e.metric ≡ 0))
          ⊎ ((nth_field 5 (text_of arg) ≢ []) × (e.metric ≡ htonl 16)))
unfolding do_opt
do_opt-metric fuel opt arg d d' w w' ok is_e h =
    let (e, w₁, read, rest) =
      bind-done (read_entry fuel (text_of arg)) _ w w' (ok, d') (rw is_e at h) in
    (
      e,
      ground (arith, rest),
      ground (arith, rest),
      read_entry-metric fuel (text_of arg) e w w₁ read,
    )
