-- ===== src/Gre/Finalize.antt =====
-- gre.c: the checksum and the protocol that finalize stores.
use sendip.Base.{
  ℕ, ◌+◌, ◌*◌, ◌/◌, ◌%◌, ◌^◌, ◌≡◌, ◌≤◌, ◌↔◌, refl, sym, ap, ◌∙◌, arith, List, [], ◌∷◌, ◌++◌, true,
  false, ◌==◌, if◌then◌else◌, length, get_or, All, IsByte, All-append, htons, bytes16,
  length-append,
}
use mathlib.Core.Path.{subst}
use sendip.Base.Flags.{has, has_seven}
use sendip.World.{done}
use sendip.Csum.{csum, csumv}
use sendip.Csum.Sum.{IsBlock}
use sendip.Csum.Verify.{csum_replaced, csumv-pair}
use sendip.Headers.{found, inner_header}
use sendip.Pack.{Frame}
use sendip.Gre.{
  GreData, gre_data, word_bytes, put_checksum, sum_up, infer_protocol, by_header, finalize,
  gre_csum, gre_mod_checksum, gre_mod_protocol,
}

word_bytes-IsByte : (words : List ℕ) → All IsByte (word_bytes words)
word_bytes-IsByte [] = ground arith
word_bytes-IsByte (v ∷ words) = ground (arith, word_bytes-IsByte words)

-- The parts of the packet before and behind the checksum, in a header whose first word is `x`.
abbrev front_of : GreData → List ℕ
front_of d = bytes16 d.header.gre_flag ++ bytes16 d.header.gre_protocol

abbrev back_of : ℕ → List ℕ → List ℕ → List ℕ
back_of x words rest = x / 65536 % 256 ∷ x / 16777216 % 256 ∷ word_bytes words ++ rest

word_bytes-even : (words : List ℕ) → length (word_bytes words) % 2 ≡ 0
word_bytes-even [] = refl
word_bytes-even (v ∷ words) = omega (arith, word_bytes-even words)

old_data :
    (x : ℕ) (words rest : List ℕ) (d : GreData)
    → d.header.gre_info ≡ x ∷ words
    → gre_data d ++ rest ≡ front_of d ++ (x % 256 ∷ x / 256 % 256 ∷ back_of x words rest)
old_data x words rest d e = rw e refl

put_checksum-data :
    (c x : ℕ) (words rest : List ℕ) (d : GreData)
    → d.header.gre_info ≡ x ∷ words
    → gre_data (put_checksum c d) ++ rest ≡ front_of d ++ (bytes16 c ++ back_of x words rest)
put_checksum-data c x words rest d e = ground (arith, e)

-- A checksum that the user did not set is taken over the header as it stands. With the data behind
-- it, the header passes exactly where the field was 0 or 65535.
pub sum_up-passes :
    (x : ℕ) (words rest : List ℕ) (d : GreData)
    → d.header.gre_info ≡ x ∷ words
    → has d.header.gre_flag gre_csum ≡ true
    → has d.modified gre_mod_checksum ≡ false
    → IsBlock (gre_data d ++ rest)
    → (csum (gre_data (sum_up rest d) ++ rest) ≡ 0) ↔ (x % 2 ^ 16 % 65535 ≡ 0)
unfolding sum_up
sum_up-passes x words rest d e flag unset h =
    let old = old_data x words rest d e in
    let even : length (gre_data d) % 2 ≡ 0 = omega (arith, word_bytes-even d.header.gre_info) in
    let c = csum (front_of d ++ (x % 256 ∷ x / 256 % 256 ∷ back_of x words rest)) in
    let same : csumv (gre_data d ∷ rest ∷ [] ∷ []) ≡ c =
      csumv-pair (gre_data d) rest even (omega arith) ∙ ap csum old in
    let low = has_seven d.header.gre_flag flag in
    let (to, from) =
      csum_replaced (front_of d) (back_of x words rest) (x % 256) (x / 256 % 256) refl
        (omega (arith, low)) (subst IsBlock old h) in
    let field : x % 256 + x / 256 % 256 * 256 ≡ x % 2 ^ 16 = omega arith in
    rw (flag, unset, same, put_checksum-data c x words rest d e, sym field) (to, from)

gre_data-IsBlock :
    (d : GreData) (rest : List ℕ)
    → All IsByte rest
    → length (gre_data d ++ rest) ≤ 2 ^ 31
    → IsBlock (gre_data d ++ rest)
gre_data-IsBlock d rest bytes short = (
  All-append IsByte (gre_data d) rest (ground (arith, word_bytes-IsByte d.header.gre_info)) bytes,
  short,
)

-- The protocol that GRE gives a header, by its letter.
abbrev pub ether_type : ℕ → ℕ → ℕ
ether_type c other = if c == b'i' then htons 2048 else if c == b'6' then htons 34525 else other

-- Where the header has a checksum that the user did not set, and an IPv4 or IPv6 header follows
-- further in: finalize succeeds, stores the Ethernet type of that header unless the user set the
-- protocol, and the header with the data behind it, at most 2 ^ 31 bytes, passes a receiver's check
-- exactly where 0 or 65535 stood in the checksum field before, which finalize does not reset.
pub finalize-passes :
    (f : Frame) (hdrs : List ℕ) (index i x : ℕ) (words rest : List ℕ) (d : GreData)
    → inner_header hdrs index (b'i' ∷ b'6' ∷ []) ≡ found i
    → d.header.gre_info ≡ x ∷ words
    → has d.header.gre_flag gre_csum ≡ true
    → has d.modified gre_mod_checksum ≡ false
    → All IsByte rest
    → length (gre_data d ++ rest) ≤ 2 ^ 31
    → (d' : GreData) × (finalize f hdrs index rest d ≡ done (true, d'))
      × ((csum (gre_data d' ++ rest) ≡ 0) ↔ (x % 2 ^ 16 % 65535 ≡ 0))
      × (d'.header.gre_flag ≡ d.header.gre_flag)
      × (d'.header.gre_protocol ≡ (
          if has d.modified gre_mod_protocol
          then d.header.gre_protocol
          else ether_type (get_or hdrs i 0) d.header.gre_protocol))
unfolding finalize infer_protocol sum_up
finalize-passes f hdrs index i x words rest d inner e flag unset bytes short =
    let d₁ = if has d.modified gre_mod_protocol then d else by_header (get_or hdrs i 0) d in
    let same_info : d₁.header.gre_info ≡ d.header.gre_info = ground arith in
    let same_flag : d₁.header.gre_flag ≡ d.header.gre_flag = ground arith in
    let same_mod : d₁.modified ≡ d.modified = ground arith in
    (
      sum_up rest d₁,
      ground (arith, inner),
      sum_up-passes x words rest d₁ (same_info ∙ e) (ap (λ m. has m gre_csum) same_flag ∙ flag)
          (ap (λ m. has m gre_mod_checksum) same_mod ∙ unset)
          (gre_data-IsBlock d₁ rest bytes (
            omega (
              arith,
              short,
              length-append (word_bytes d₁.header.gre_info) rest,
              length-append (word_bytes d.header.gre_info) rest,
              ap (λ info. length (word_bytes info)) same_info,
            ))),
      ground arith,
      ground arith,
    )
