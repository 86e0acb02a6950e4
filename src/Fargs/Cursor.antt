-- ===== src/Fargs/Cursor.antt =====
-- fargs.c: the cursor of a cached file.
use native.Mathlib.Nat.{mod-add-mod}
use sendip.Base.{ℕ, zero, suc, ◌+◌, ◌%◌, ◌<◌, ◌≡◌, ◌≢◌, ◌⊎◌, inl, inr, refl, ap, ◌∙◌}
use sendip.Base.{arith, ◌↔◌, List, [], ◌∷◌, Option, none, some, true}
use sendip.Base.{length, get_elem?, get_or, All, Bool-cases, Option-cases, if◌then◌else◌}
use sendip.World.{FileCache, World, Outcome, done, fault, stuck, exits}
use sendip.Fargs.{fcmp, tfind, fc_create, fc_find, set_idx, next_idx, take_line, use_entry}
use sendip.Fargs.{fileargument}

fcmp→eq : (s t : List ℕ) → fcmp s t ≡ true → s ≡ t
unfolding fcmp
fcmp→eq [] [] h = refl
fcmp→eq [] (d ∷ t) h = cc
fcmp→eq (c ∷ s) [] h = cc
fcmp→eq (c ∷ s) (d ∷ t) h = ground (arith, fcmp→eq s t)

fcmp_refl : (s : List ℕ) → fcmp s s ≡ true
unfolding fcmp
fcmp_refl [] = refl
fcmp_refl (c ∷ s) = ground (arith, fcmp_refl s)

-- `strcmp` is 0 exactly for equal paths.
pub fcmp_iff : (s t : List ℕ) → (fcmp s t ≡ true) ↔ (s ≡ t)
fcmp_iff s t = (fcmp→eq s t, λ e. rw (← e) (fcmp_refl s))

abbrev with_idx : ℕ → Option FileCache → Option FileCache
with_idx i none = none
with_idx i (some f) = some (record f { idx = i })

tfind-set_idx :
    (p q : List ℕ) (i : ℕ) (root : List FileCache)
    → tfind q (set_idx p i root) ≡ (if fcmp p q then with_idx i (tfind q root) else tfind q root)
unfolding tfind set_idx
tfind-set_idx p q i [] = ground arith
tfind-set_idx p q i (f ∷ root) =
    ground (arith, tfind-set_idx p q i root, fcmp_iff p q, fcmp_iff p f.path, fcmp_iff q f.path)

get_elem?-get_or :
    {A : Type 0} (xs : List A) (i : ℕ) (d : A)
    → i < length xs
    → get_elem? xs i ≡ some (get_or xs i d)
get_elem?-get_or [] i d h = absurd (omega arith)
get_elem?-get_or (x ∷ xs) zero d h = refl
get_elem?-get_or (x ∷ xs) (suc i) d h = get_elem?-get_or xs i d (omega arith)

next_idx-mod : (f : FileCache) → f.idx < length f.lines → next_idx f ≡ (f.idx + 1) % length f.lines
next_idx-mod f h = grind arith

abbrev after_call : List ℕ → FileCache → World → World
after_call p f w = record w { root = set_idx p (next_idx f) w.root }

fileargument-cached :
    (p : List ℕ) (f : FileCache) (w : World)
    → tfind p w.root ≡ some f
    → f.idx < length f.lines
    → fileargument p w ≡ done (some (get_or f.lines f.idx []), after_call p f w)
unfolding fileargument fc_find use_entry take_line
fileargument-cached p f w e h = ground (arith, get_elem?-get_or f.lines f.idx [])

-- `k` calls whose lines are dropped.
pub skip_lines : ℕ → List ℕ → World → Outcome World
skip_lines zero p w = done w
skip_lines (suc k) p w = elim (fileargument p w) [
  | done (line, w') ↦ skip_lines k p w'
  | fault ↦ fault
  | stuck ↦ stuck
  | exits ↦ exits
]

-- One call moves the cursor of its own file by one, round its lines, and no other cursor.
pub fileargument_step :
    (p : List ℕ) (f : FileCache) (w : World)
    → tfind p w.root ≡ some f
    → f.idx < length f.lines
    → (w' : World) × (fileargument p w ≡ done (some (get_or f.lines f.idx []), w'))
      × (tfind p w'.root ≡ some (record f { idx = (f.idx + 1) % length f.lines }))
      × ((q : List ℕ) → p ≢ q → tfind q w'.root ≡ tfind q w.root)
fileargument_step p f w e h = (
  after_call p f w,
  fileargument-cached p f w e h,
  tfind-set_idx p p (next_idx f) w.root ∙ ground (arith, fcmp_refl p, next_idx-mod f h),
  λ q ne. tfind-set_idx p q (next_idx f) w.root ∙ ground (arith, fcmp_iff p q, ne),
)

mod_step : (i k n : ℕ) → 0 < n → ((i + 1) % n + k) % n ≡ (i + suc k) % n
mod_step i k n h = mod-add-mod (i + 1) n k ∙ ap (λ t. t % n) (omega arith)

mod_here : (i n : ℕ) → i < n → (i + 0) % n ≡ i
mod_here i n h = grind arith

-- A file that is cached is served from the cache: after `k` calls for it, the next returns line
-- `idx + k` of its lines, counted modulo their number.
pub fileargument_round :
    (k : ℕ) (p : List ℕ) (f : FileCache) (w : World)
    → tfind p w.root ≡ some f
    → f.idx < length f.lines
    → (w' w'' : World) × (skip_lines k p w ≡ done w')
      × (fileargument p w' ≡ done (some (get_or f.lines ((f.idx + k) % length f.lines) []), w''))
unfolding skip_lines
fileargument_round zero p f w e h = (
  w,
  after_call p f w,
  refl,
  rw (mod_here f.idx (length f.lines) h) (fileargument-cached p f w e h),
)
fileargument_round (suc k) p f w e h =
    let (w₁, called, moved, others) = fileargument_step p f w e h in
    let (w', w'', skipped, next) =
      fileargument_round k p (record f { idx = (f.idx + 1) % length f.lines }) w₁ moved
        (grind arith) in
    (
      w',
      w'',
      ground (arith, called, skipped),
      rw (← mod_step f.idx k (length f.lines) (omega arith)) next,
    )

-- The cursor of every entry stands on one of its lines.
abbrev pub IsWellFormed : World → Type 0
IsWellFormed w = All (λ f. f.idx < length f.lines) w.root

set_idx-All :
    (p : List ℕ) (f : FileCache) (root : List FileCache)
    → tfind p root ≡ some f
    → All (λ g. g.idx < length g.lines) root
    → f.idx < length f.lines
    → All (λ g. g.idx < length g.lines) (set_idx p (next_idx f) root)
unfolding tfind set_idx
set_idx-All p f [] e h k = cc
set_idx-All p f (g ∷ root) e h k = elim (Bool-cases (fcmp p g.path)) [
  | inl same ↦ ground arith
  | inr other ↦ ground (arith, set_idx-All p f root)
]

tfind-All :
    (p : List ℕ) (f : FileCache) (root : List FileCache)
    → tfind p root ≡ some f
    → All (λ g. g.idx < length g.lines) root
    → f.idx < length f.lines
unfolding tfind
tfind-All p f [] e h = cc
tfind-All p f (g ∷ root) e h = ground (arith, tfind-All p f root)

fc_create-idx :
    (w : World) (p : List ℕ) (f : FileCache) → fc_create w p ≡ some f → (f.idx ≡ 0) × (f.path ≡ p)
unfolding fc_create
fc_create-idx w p f e = ground arith

List-cases : {A : Type 0} (xs : List A) → (xs ≡ []) ⊎ ((x : A) × (ys : List A) × (xs ≡ x ∷ ys))
List-cases [] = inl refl
List-cases (x ∷ xs) = inr (x, xs, refl)

-- `fileargument` keeps every cursor on a line, and it faults only where it has just cached a file
-- that has no line at all.
pub fileargument-IsWellFormed :
    (p : List ℕ) (w : World)
    → IsWellFormed w
    → ((r : Option (List ℕ)) × (w' : World) × (fileargument p w ≡ done (r, w')) × IsWellFormed w')
      ⊎ ((fileargument p w ≡ fault)
          × (tfind p w.root ≡ none)
          × (f : FileCache) × (fc_create w p ≡ some f)
          × (f.lines ≡ []))
unfolding fileargument fc_find use_entry take_line
fileargument-IsWellFormed p w h = elim (Option-cases (tfind p w.root)) [
  | inl new ↦ elim (Option-cases (fc_create w p)) [
    | inl missing ↦ inl (none, w, ground arith, h)
    | inr (f, made) ↦ elim (List-cases f.lines) [
      | inl empty ↦ inr (ground (arith, fc_create-idx w p f made), new, f, made, empty)
      | inr (line, more, lines) ↦
          let fits : f.idx < length f.lines = ground (arith, fc_create-idx w p f made) in
          inl (
            some (get_or f.lines f.idx []),
            after_call p f (record w { root = f ∷ w.root }),
            ground (arith, get_elem?-get_or f.lines f.idx []),
            set_idx-All p f (f ∷ w.root)
                (ground (arith, fcmp_iff p f.path, fc_create-idx w p f made)) (fits, h) fits,
          )
    ]
  ]
  | inr (f, old) ↦
      let fits = tfind-All p f w.root old h in
      inl (
        some (get_or f.lines f.idx []),
        after_call p f w,
        fileargument-cached p f w old fits,
        set_idx-All p f w.root old h fits,
      )
]
