-- ===== src/Rip/Fields.antt =====
-- rip.c and ripng.c: NEXT_FIELD, which reads the fields of an entry one after the other.
use sendip.Base.{
  ℕ, zero, suc, ◌+◌, ◌≡◌, refl, ap, ◌∙◌, arith, List, [], ◌∷◌, inl, inr, Bool-cases, ◌==◌,
  if◌then◌else◌,
}
use sendip.Libc.{first_char, rest_of}

-- `c` and the text from `q` on, as it was before NEXT_FIELD put a NUL there.
pub record Scan : Type 0 where
  pub c : ℕ
  pub q : List ℕ

abbrev pub started : List ℕ → Scan
started text = record { c = 0; q = text }

-- `p`
abbrev pub here : Scan → List ℕ
here s = if s.c == b'|' then rest_of s.q else s.q

-- The text before the next bar, and what follows from the bar on.
abbrev pub put_before : ℕ → List ℕ × List ℕ → List ℕ × List ℕ
put_before d (field, q) = (d ∷ field, q)

unfoldable pub until_bar : List ℕ → List ℕ × List ℕ
until_bar [] = ([], [])
until_bar (d ∷ p) = let later = until_bar p in if d == b'|' then ([], d ∷ p) else put_before d later

unfoldable pub next_field : Scan → List ℕ × Scan
next_field s = let (field, q) = until_bar (here s) in (field, record { c = first_char q; q = q })

-- The text between the bars before and after; empty where there are fewer bars.
unfoldable pub nth_field : ℕ → List ℕ → List ℕ
nth_field n [] = []
nth_field zero (d ∷ s) = let rest = nth_field zero s in if d == b'|' then [] else d ∷ rest
nth_field (suc n) (d ∷ s) =
    let past = nth_field n s in
    let within = nth_field (suc n) s in if d == b'|' then past else within

until_bar-nth_field : (p : List ℕ) → (until_bar p).0 ≡ nth_field zero p
unfolding until_bar nth_field
until_bar-nth_field [] = refl
until_bar-nth_field (d ∷ p) = elim (Bool-cases (d == b'|')) [
  | inl bar ↦ rw bar refl
  | inr other ↦ rw other (ap (λ f. d ∷ f) (until_bar-nth_field p))
]

-- What the scan reads next, from what stands at and behind `q`.
abbrev pub behind : List ℕ → List ℕ
behind q = here (record { c = first_char q; q = q })

behind-nth_field : (n : ℕ) (p : List ℕ) → nth_field n (behind (until_bar p).1) ≡ nth_field (suc n) p
unfolding until_bar nth_field
behind-nth_field zero [] = refl
behind-nth_field (suc n) [] = refl
behind-nth_field n (d ∷ p) = elim (Bool-cases (d == b'|')) [
  | inl bar ↦ rw bar (rw bar refl)
  | inr other ↦ rw other (behind-nth_field n p)
]

next_field-nth_field :
    (n : ℕ) (s : Scan) → nth_field n (here (next_field s).1) ≡ nth_field (suc n) (here s)
unfolding next_field
next_field-nth_field n s = behind-nth_field n (here s)

-- The scan after `n` fields.
abbrev pub scan_at : ℕ → Scan → Scan
scan_at zero s = s
scan_at (suc n) s = (next_field (scan_at n s)).1

scan_at-nth_field :
    (n k : ℕ) (s : Scan) → nth_field k (here (scan_at n s)) ≡ nth_field (k + n) (here s)
scan_at-nth_field zero k s = ap (λ i. nth_field i (here s)) (omega arith)
scan_at-nth_field (suc n) k s =
    next_field-nth_field k (scan_at n s)
    ∙ scan_at-nth_field n (suc k) s
    ∙ ap (λ i. nth_field i (here s)) (omega arith)

-- After `n` fields, the scan reads the text between the bars `n` and `n + 1`.
pub field_lem :
    (n : ℕ) (text : List ℕ) → (next_field (scan_at n (started text))).0 ≡ nth_field n text
unfolding next_field
field_lem n text =
    until_bar-nth_field (here (scan_at n (started text)))
    ∙ scan_at-nth_field n 0 (started text)
    ∙ ap (λ i. nth_field i text) (omega arith)
