-- ===== src/Hop/Finalize.antt =====
-- hop.c: the header that finalize leaves.
use sendip.Base.{
  ℕ, ◌+◌, ◌-◌, ◌*◌, ◌/◌, ◌%◌, ◌<◌, ◌≡◌, ◌⊎◌, inl, inr, refl, ap, sym, ◌∙◌, arith, List, [], ◌∷◌,
  ◌++◌, true, false, Bool-cases, length, length-append, length-replicate, replicate, drop, set,
  write_bytes, write_bytes-append, u8, ◌==◌, if◌then◌else◌,
}
use sendip.Base.Flags.{has}
use sendip.Headers.{header_type}
use sendip.Pack.{Frame, next_hdr}
use sendip.Hop.{HopPack, hoplen, close, finalize, hop_mod_nexthdr}
use sendip.Hop.Space.{Holds}
use mathlib.Core.List.{append-nil}

drop-length : (xs : List ℕ) → drop (length xs) xs ≡ []
drop-length [] = refl
drop-length (x ∷ xs) = drop-length xs

zero_spare :
    (n h : ℕ) (content spare : List ℕ)
    → write_bytes (2 + length content) (replicate (length spare) 0) (n ∷ h ∷ content ++ spare)
      ≡ n ∷ h ∷ content ++ replicate (length spare) 0
zero_spare n h content spare =
    let front = n ∷ h ∷ content in
    let zeros : List ℕ = replicate (length spare) 0 in
    let place : 2 + length content ≡ length front = omega arith in
    let none_left : drop (length zeros) spare ≡ [] =
      ap (λ k. drop k spare) (length-replicate (length spare) 0) ∙ drop-length spare in
    ap (λ i. write_bytes i zeros (front ++ spare)) place
    ∙ write_bytes-append front zeros spare
    ∙ ap (λ rest. front ++ (zeros ++ rest)) none_left
    ∙ ap (λ zs. front ++ zs) (append-nil zeros)

-- A block that is full stays; of any other the rest is zeroed and the length set.
close-full : (d : HopPack) → hoplen d ≡ length d.data' → (close d).data' ≡ d.data'
close-full d full =
    let yes : (hoplen d == length d.data') ≡ true = ground (arith, full) in rw yes refl

close-spare :
    (n h : ℕ) (content spare : List ℕ) (d : HopPack)
    → d.data' ≡ n ∷ h ∷ content ++ spare
    → hoplen d ≡ 2 + length content
    → 0 < length spare
    → (close d).data'
      ≡ n ∷ u8 ((2 + length content + length spare) / 8 - 1) ∷ content ++ replicate (length spare) 0
close-spare n h content spare d e used some_left =
    let whole : length d.data' ≡ 2 + length content + length spare =
      omega (arith, ap length e, length-append content spare) in
    let no : (hoplen d == length d.data') ≡ false = ground (arith, whole, used) in
    let left : length d.data' - hoplen d ≡ length spare = omega arith in
    let zeroed : write_bytes (hoplen d) (replicate (length d.data' - hoplen d) 0) d.data'
        ≡ n ∷ h ∷ content ++ replicate (length spare) 0 =
      ap (λ k. write_bytes (hoplen d) (replicate k 0) d.data') left
      ∙ ap (λ i. write_bytes i (replicate (length spare) 0) d.data') used
      ∙ ap (write_bytes (2 + length content) (replicate (length spare) 0)) e
      ∙ zero_spare n h content spare in
    let v = u8 (length d.data' / 8 - 1) in
    let same : v ≡ u8 ((2 + length content + length spare) / 8 - 1) =
      ap (λ k. u8 (k / 8 - 1)) whole in
    let closed : (close d).data'
        ≡ set (write_bytes (hoplen d) (replicate (length d.data' - hoplen d) 0) d.data') 1 v =
      rw no refl in
    closed
    ∙ ap (λ b. set b 1 v) zeroed
    ∙ ap (λ x. n ∷ x ∷ content ++ replicate (length spare) 0) same

abbrev pub next_type : Frame → List ℕ → ℕ → HopPack → ℕ → ℕ
next_type f hdrs index d old =
    if has d.modified hop_mod_nexthdr then old else header_type (next_hdr f hdrs index)

-- The block behind its first byte: the length, the options and the padding.
abbrev pub Closed : ℕ → List ℕ → HopPack → Type 0
Closed n content d =
    (length d.data' % 8 ≡ 0)
    × (hdrlen : ℕ) × (pad : ℕ) × (d.data' ≡ n ∷ hdrlen ∷ content ++ replicate pad 0)
    × (((0 < pad) × (hdrlen + 1 ≡ length d.data' / 8))
        ⊎ ((pad ≡ 0) × (hdrlen ≡ length d.data' / 8)))

close-Closed :
    (n h : ℕ) (content spare : List ℕ) (d : HopPack)
    → d.data' ≡ n ∷ h ∷ content ++ spare
    → hoplen d ≡ 2 + length content
    → h * 8 + d.modified % 8 ≡ 2 + length content
    → length d.data' % 8 ≡ 0
    → length d.data' < 2048
    → Closed n content (close d)
close-Closed n h content [] d e place used whole short =
    let size : length d.data' ≡ 2 + length content =
      omega (arith, ap length e, length-append content []) in
    let same = close-full d (place ∙ sym size) in
    (
      ap (λ b. length b % 8) same ∙ whole,
      h,
      0,
      same ∙ e,
      inr (refl, omega (arith, ap length same, size, used, whole)),
    )
close-Closed n h content (y ∷ ys) d e place used whole short =
    let spare = y ∷ ys in
    let size : length d.data' ≡ 2 + length content + length spare =
      omega (arith, ap length e, length-append content spare) in
    let new = close-spare n h content spare d e place (omega arith) in
    let zeros : length (replicate {A = ℕ} (length spare) 0) ≡ length spare =
      length-replicate (length spare) 0 in
    let same : length (close d).data' ≡ length d.data' =
      omega
        (arith, ap length new, length-append content (replicate (length spare) 0), zeros, size) in
    (
      ap (λ k. k % 8) same ∙ whole,
      u8 ((2 + length content + length spare) / 8 - 1),
      length spare,
      new,
      inl (omega arith, omega (arith, same, size, whole, short)),
    )

-- finalize succeeds on a pack that holds `content`, of at most 2040 bytes with the spare ones. It
-- leaves the options followed by Pad1 options up to a multiple of 8 bytes, and the type of the next
-- header unless the user set it. Where bytes were spare, the length stored is that of RFC 8200, the
-- count of 8-byte units but the first; where the options fill the block, it counts the first too.
pub finalize-Closed :
    (f : Frame) (hdrs content : List ℕ) (index : ℕ) (d : HopPack)
    → (h : Holds content d) → length d.data' < 2048
    → (d' : HopPack) × (finalize f hdrs index d ≡ (true, d'))
      × Closed (next_type f hdrs index d h.nexthdr) content d'
unfolding finalize
finalize-Closed f hdrs content index d h short =
    let place : hoplen d ≡ 2 + length content = rw h.block h.used in
    elim (Bool-cases (has d.modified hop_mod_nexthdr)) [
      | inl kept ↦ (
        close d,
        rw kept refl,
        rw kept
            (close-Closed h.nexthdr h.hdrlen content h.spare d h.block place h.used h.whole short),
      )
      | inr free ↦
          let p = header_type (next_hdr f hdrs index) in
          let d₁ = record d { data' = set d.data' 0 p } in
          let block : d₁.data' ≡ p ∷ h.hdrlen ∷ content ++ h.spare = ap (λ b. set b 0 p) h.block in
          let size : length d₁.data' ≡ length d.data' =
            omega (arith, ap length block, ap length h.block) in
          (
            close d₁,
            rw free refl,
            rw free (
                close-Closed p h.hdrlen content h.spare d₁ block (rw h.block h.used) h.used
                  (ap (λ k. k % 8) size ∙ h.whole) (omega (arith, size, short))),
          )
    ]
