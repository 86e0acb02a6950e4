-- ===== src/Ripng/Entries.antt =====
-- ripng.c: the entries.
use sendip.Base.{ℕ, ◌≡◌, ◌⊎◌, List, [], ◌∷◌, Option, some, u8, u16}
use sendip.World.{World, done, Exec}
use sendip.Args.Number.{opt2intn, opt2inth}
use sendip.Rip.Fields.{nth_field}
use sendip.Ripng.{RipngEntry, inet6_addr, or_null}

-- The value is the default where the field is empty, and else what is read from the field.
abbrev pub Reads : ℕ → (List ℕ → Exec ℕ) → List ℕ → ℕ → Type 0
Reads value read field v =
    ((field ≡ []) × (v ≡ value))
    ⊎ ((c : ℕ) × (p : List ℕ) × (field ≡ c ∷ p)
        × (w : World) × (w' : World) × (read field w ≡ done (v, w')))

-- What an entry is made of, by the fields of the text.
pub record IsEntry (gethostbyname2 : List ℕ → Option (List ℕ)) (fuel : ℕ) (text : List ℕ)
    (e : RipngEntry) : Type 0 where
  pub prefix : e.prefix ≡ inet6_addr gethostbyname2 (or_null (nth_field 0 text))
  pub tag : (v : ℕ) × (e.tag ≡ u16 v) × Reads 0 (λ p. opt2intn fuel (some p) 2) (nth_field 1 text) v
  pub len :
      (v : ℕ) × (e.len ≡ u8 v) × Reads 128 (λ p. opt2inth fuel (some p) 1) (nth_field 2 text) v
  pub metric :
      (v : ℕ) × (e.metric ≡ u8 v) × Reads 16 (λ p. opt2inth fuel (some p) 1) (nth_field 3 text) v
