-- ===== src/Args/Split/Words.antt =====
-- The arguments as the caller reads them: the words of the string.
use mathlib.Core.List.{map}
use sendip.Base.{ℕ, zero, suc, ◌+◌, ◌<◌, ◌≡◌, ◌≢◌, refl, sym, ap, ◌∙◌, inl, inr, arith}
use sendip.Base.{List, [], ◌∷◌, ◌++◌, Option, Bool, true, false, not, if◌then◌else◌, ◌==◌}
use sendip.Base.{All, length, length-append, drop, take, Bool-cases}
use mathlib.Core.List.{append_assoc}
use mathlib.Core.Path.{ap₂}
use sendip.Args.Split.{Cut, mstrchr, parse_loop, parseargs, cut_loop, parsenargs}

-- The C string at the start of a buffer, and at an offset.
abbrev pub c_string : List ℕ → List ℕ
c_string [] = []
c_string (c ∷ s) = if c == 0 then [] else c ∷ c_string s

abbrev pub read_at : List ℕ → ℕ → List ℕ
read_at buffer pos = c_string (drop pos buffer)

abbrev pub read_args : Cut → List (List ℕ)
read_args r = map (read_at r.buffer) r.args

drop-append : (pre s : List ℕ) → drop (length pre) (pre ++ s) ≡ s
drop-append [] s = refl
drop-append (c ∷ pre) s = drop-append pre s

longer : (pre : List ℕ) (d : ℕ) {pos : ℕ} → length pre ≡ pos → length (pre ++ (d ∷ [])) ≡ pos + 1
longer pre d e = omega (arith, length-append pre (d ∷ []))

module _ (seps : Option (List ℕ)) where
  -- The rest of the word at hand.
  abbrev pub token : List ℕ → List ℕ
  token [] = []
  token (c ∷ s) = if mstrchr seps c then [] else c ∷ token s

  -- The words that begin in the string; with `inside` it starts within a word.
  abbrev pub words_from : Bool → List ℕ → List (List ℕ)
  words_from inside [] = []
  words_from true (c ∷ s) = words_from (not (mstrchr seps c)) s
  words_from false (c ∷ s) =
      let rest = words_from (not (mstrchr seps c)) s in
      if mstrchr seps c then rest else (c ∷ token s) ∷ rest

  abbrev pub words : List ℕ → List (List ℕ)
  words = words_from false

  parse_loop-token :
      (pos : ℕ) (s : List ℕ)
      → All (λ c. c ≢ 0) s
      → c_string (parse_loop seps true pos s).buffer ≡ token s
  unfolding parse_loop
  parse_loop-token pos [] h = refl
  parse_loop-token pos (c ∷ s) h = elim (Bool-cases (mstrchr seps c)) [
    | inl sep ↦ rw (sep, parse_loop) refl
    | inr letter ↦ rw (letter, parse_loop) (ground (arith, h.0, parse_loop-token (pos + 1) s h.1))
  ]

  abbrev ReadsWords : Bool → List ℕ → ℕ → List ℕ → Type 0
  ReadsWords inside pre pos s =
      map (read_at (pre ++ (parse_loop seps inside pos s).buffer))
        (parse_loop seps inside pos s).args
      ≡ words_from inside s

  -- One character more stands in front.
  ReadsWords-step :
      (inside : Bool) (pre : List ℕ) (pos d : ℕ) (s : List ℕ)
      → ReadsWords inside (pre ++ (d ∷ [])) (pos + 1) s
      → map
          (read_at (pre ++ (d ∷ (parse_loop seps inside (pos + 1) s).buffer)))
          (parse_loop seps inside (pos + 1) s).args
        ≡ words_from inside s
  ReadsWords-step inside pre pos d s h =
      ap (λ b. map (read_at b) (parse_loop seps inside (pos + 1) s).args)
        (sym (append_assoc pre (d ∷ []) (parse_loop seps inside (pos + 1) s).buffer))
      ∙ h

  parse_loop-words :
      (inside : Bool) (pre : List ℕ) (pos : ℕ) (s : List ℕ)
      → length pre ≡ pos
      → All (λ c. c ≢ 0) s
      → ReadsWords inside pre pos s
  unfolding parse_loop
  parse_loop-words inside pre pos [] e h = refl
  parse_loop-words true pre pos (c ∷ s) e h = elim (Bool-cases (mstrchr seps c)) [
    | inl sep ↦
        rw (sep, parse_loop)
          (ReadsWords-step false pre pos 0 s
            (parse_loop-words false (pre ++ (0 ∷ [])) (pos + 1) s (longer pre 0 e) h.1))
    | inr letter ↦
        rw (letter, parse_loop)
          (ReadsWords-step true pre pos c s
            (parse_loop-words true (pre ++ (c ∷ [])) (pos + 1) s (longer pre c e) h.1))
  ]
  parse_loop-words false pre pos (c ∷ s) e h = elim (Bool-cases (mstrchr seps c)) [
    | inl sep ↦
        rw (sep, parse_loop)
          (ReadsWords-step false pre pos 0 s
            (parse_loop-words false (pre ++ (0 ∷ [])) (pos + 1) s (longer pre 0 e) h.1))
    | inr letter ↦
        rw (letter, parse_loop)
          (ap₂ ◌∷◌ (word_here pre pos c s e h) (
            ReadsWords-step true pre pos c s
              (parse_loop-words true (pre ++ (c ∷ [])) (pos + 1) s (longer pre c e) h.1)))
  ]
    where
      word_here :
          (pre : List ℕ) (pos c : ℕ) (s : List ℕ)
          → length pre ≡ pos
          → All (λ c. c ≢ 0) (c ∷ s)
          → read_at (pre ++ (c ∷ (parse_loop seps true (pos + 1) s).buffer)) pos ≡ c ∷ token s
      word_here pre pos c s e h =
          rw (← e, drop-append pre _) (ground (arith, h.0, parse_loop-token (pos + 1) s h.1))

  -- The pointers that `parseargs` leaves in `args`, read from the buffer that it has cut up, are
  -- the words of the string: its runs of characters that are no separators, in order.
  pub parseargs-words : (s : List ℕ) → All (λ c. c ≢ 0) s → read_args (parseargs seps s) ≡ words s
  unfolding parseargs
  parseargs-words s h = parse_loop-words false [] 0 s refl h

  -- With room for as many arguments as the string has characters, the limit plays no part.
  cut_loop-parse_loop :
      (inside : Bool) (room pos : ℕ) (s : List ℕ)
      → length s < room
      → cut_loop seps inside room pos s ≡ parse_loop seps inside pos s
  unfolding cut_loop parse_loop
  cut_loop-parse_loop inside room pos [] h = refl
  cut_loop-parse_loop inside zero pos (c ∷ s) h = absurd (omega arith)
  cut_loop-parse_loop true (suc room) pos (c ∷ s) h = ground (
    arith,
    cut_loop-parse_loop true (suc room) (pos + 1) s,
    cut_loop-parse_loop false (suc room) (pos + 1) s,
  )
  cut_loop-parse_loop false (suc room) pos (c ∷ s) h = ground (
    arith,
    cut_loop-parse_loop true room (pos + 1) s,
    cut_loop-parse_loop false (suc room) (pos + 1) s,
  )

  cut_loop-take :
      (inside : Bool) (room pos : ℕ) (s : List ℕ)
      → (cut_loop seps inside room pos s).args ≡ take room (parse_loop seps inside pos s).args
  unfolding cut_loop parse_loop
  cut_loop-take inside zero pos [] = refl
  cut_loop-take inside (suc room) pos [] = refl
  cut_loop-take true zero pos (c ∷ s) = ground (arith, cut_loop-take true zero (pos + 1) s)
  cut_loop-take true (suc room) pos (c ∷ s) =
      ground (
        arith,
        cut_loop-take true (suc room) (pos + 1) s,
        cut_loop-take false (suc room) (pos + 1) s,
      )
  cut_loop-take false zero pos (c ∷ s) = refl
  cut_loop-take false (suc room) pos (c ∷ s) =
      ground
        (arith, cut_loop-take true room (pos + 1) s, cut_loop-take false (suc room) (pos + 1) s)

  -- `parsenargs` begins the first `limit` of the arguments that `parseargs` begins, at the same
  -- places.
  pub parsenargs-take :
      (limit : ℕ) (s : List ℕ) → (parsenargs seps limit s).args ≡ take limit (parseargs seps s).args
  unfolding parsenargs parseargs
  parsenargs-take limit s = cut_loop-take false limit 0 s

  -- With a limit above the length of the string, `parsenargs` also leaves the same buffer.
  pub parsenargs-parseargs :
      (limit : ℕ) (s : List ℕ) → length s < limit → parsenargs seps limit s ≡ parseargs seps s
  unfolding parsenargs parseargs
  parsenargs-parseargs limit s h = cut_loop-parse_loop false limit 0 s h
