-- ===== src/Sctp/Chunks.antt =====
-- sctp.c: what the options that add to a chunk do.
use sendip.Base.{
  ℕ, ◌+◌, ◌*◌, ◌≤◌, ◌≡◌, ◌⊎◌, inl, inr, refl, ap, ◌∙◌, arith, List, [], ◌∷◌, ◌++◌, Option, none,
  some, true, false, Bool-cases, ltb, ◌==◌, length, get_or, get_or-append, length-append, htonl,
  length-write_bytes, grown, length-grown, u16, bytes16, bytes32, htons,
}
use sendip.World.{World, Outcome, done, fault, Exec, ◌>>=◌}
use sendip.Args.Number.{opt2intn}
use sendip.Args.Value.{opt2val}
use sendip.Args.Stream.{Val}
use sendip.Sctp.{
  SctpPack, chunk_length, with_room, grow_chunk, grown_ok, with_chunk, add_chunk, bufsiz,
}
use sendip.Sctp.Options.{put_data, put_init, param, do_opt, field_texts, field_or, then_grown}

-- The current chunk, if there is one, is the last: its length leads to the end of the pack.
abbrev pub IsWhole : SctpPack → Type 0
IsWhole d =
    (d.currentchunk ≡ none)
    ⊎ ((chunk : ℕ) × (d.currentchunk ≡ some chunk)
        × (4 ≤ chunk_length chunk d.data')
        × (chunk + chunk_length chunk d.data' ≡ length d.data'))

length-with_room :
    (heap : ℕ → ℕ) (chunk more : ℕ) (block : List ℕ)
    → chunk + 4 ≤ length block
    → length (with_room heap chunk more block) ≡ length block + more
length-with_room heap chunk more block h =
    let larger = grown heap (length block + more) block in
    let size : length larger ≡ length block + more =
      length-grown heap (length block + more) block (omega arith) in
    length-write_bytes (chunk + 2) (bytes16 (htons (u16 (chunk_length chunk larger + more)))) larger
      (omega (arith, size))
    ∙ size

-- The bytes would end behind the block.
grow_chunk-overruns :
    (heap : ℕ → ℕ) (bytes : List ℕ) (d : SctpPack) → IsWhole d → grow_chunk heap bytes d ≡ fault
unfolding grow_chunk
grow_chunk-overruns heap bytes d (inl null) = rw null refl
grow_chunk-overruns heap bytes d (inr (chunk, is, some_length, last)) =
    let size =
      length-with_room heap chunk (length bytes) d.data' (omega (arith, last, some_length)) in
    let past : ltb (length (with_room heap chunk (length bytes) d.data'))
          (chunk + 4 * chunk_length chunk d.data' + length bytes)
        ≡ true =
      ground (arith, size, last, some_length) in
    rw (is, past) refl

add_chunk-IsWhole : (type : ℕ) (d : SctpPack) → IsWhole (add_chunk type d)
add_chunk-IsWhole type d =
    let back = type ∷ 0 ∷ 0 ∷ 4 ∷ [] in
    let four : chunk_length (length d.data') (d.data' ++ back) ≡ 4 =
      omega (arith, get_or-append d.data' back 2 0, get_or-append d.data' back 3 0) in
    inr (length d.data', refl, omega (arith, four), omega (arith, four, length-append d.data' back))

with_chunk-IsWhole : (d : SctpPack) → IsWhole d → IsWhole (with_chunk d)
with_chunk-IsWhole d (inl null) = rw null (add_chunk-IsWhole 0 d)
with_chunk-IsWhole d (inr (chunk, is, four, last)) = rw is (inr (chunk, refl, four, last))

-- A reading of the argument that ends with `a`.
abbrev pub Read : {A : Type 0} → Exec A → World → A → World → Type 0
Read m w a w' = m w ≡ done (a, w')

bind-Read :
    {A B : Type 0} (m : Exec A) (f : A → Exec B) (a : A) (w w' : World)
    → Read m w a w'
    → (m >>= f) w ≡ f a w'
bind-Read m f a w w' e = rw (e, ◌>>=◌) refl

grown_ok-fault : (r : Outcome SctpPack) (w : World) → r ≡ fault → grown_ok r w ≡ fault
grown_ok-fault r w e = rw (e, grown_ok) refl

grow-fault :
    (heap : ℕ → ℕ) (bytes : List ℕ) (e : SctpPack) (w : World)
    → IsWhole e
    → grown_ok (grow_chunk heap bytes e) w ≡ fault
grow-fault heap bytes e w h = grown_ok-fault _ w (grow_chunk-overruns heap bytes e h)

grow_both-fault :
    (heap : ℕ → ℕ) (bytes : List ℕ) (f : SctpPack → Outcome SctpPack) (d : SctpPack) (w : World)
    → IsWhole d
    → grown_ok (then_grown (grow_chunk heap bytes d) f) w ≡ fault
grow_both-fault heap bytes f d w h =
    grown_ok-fault _ w (ap (λ r. then_grown r f) (grow_chunk-overruns heap bytes d h))

put_data-fault :
    (heap : ℕ → ℕ) (d : SctpPack) (v : Val) (w : World)
    → (v.count == 0) ≡ false
    → IsWhole d
    → put_data heap d v w ≡ fault
put_data-fault heap d v w some_bytes h = elim (Bool-cases (ltb bufsiz (u16 v.count))) [
  | inl large ↦ rw (some_bytes, large) refl
  | inr fits ↦ rw (some_bytes, fits) (grow-fault heap _ (with_chunk d) w (with_chunk-IsWhole d h))
]

-- The five fields of `-sI`, from the last on, can be read.
abbrev pub ReadsFields : ℕ → List ℕ → World → Type 0
ReadsFields fuel arg w =
    let texts = field_texts 5 arg in
    (v₄ v₃ v₂ v₁ v₀ : ℕ) × (w₄ w₃ w₂ w₁ w₀ : World) × Read (field_or fuel 4 4 texts (htonl 1)) w v₄
      w₄
    × Read (field_or fuel 3 2 texts (htons 1)) w₄ v₃ w₃
    × Read (field_or fuel 2 2 texts (htons 1)) w₃ v₂ w₂
    × Read (field_or fuel 1 4 texts (htonl 4096)) w₂ v₁ w₁
    × Read (field_or fuel 0 4 texts (htonl 1)) w₁ v₀ w₀

put_init-fault :
    (heap : ℕ → ℕ) (fuel : ℕ) (arg : List ℕ) (d : SctpPack) (w : World)
    → ReadsFields fuel arg w
    → put_init heap fuel arg d w ≡ fault
unfolding put_init
put_init-fault heap fuel arg d w (v₄, v₃, v₂, v₁, v₀, w₄, w₃, w₂, w₁, w₀, e₄, e₃, e₂, e₁, e₀) =
    bind-Read (field_or fuel 4 4 (field_texts 5 arg) (htonl 1)) _ v₄ w w₄ e₄
    ∙ bind-Read (field_or fuel 3 2 (field_texts 5 arg) (htons 1)) _ v₃ w₄ w₃ e₃
    ∙ bind-Read (field_or fuel 2 2 (field_texts 5 arg) (htons 1)) _ v₂ w₃ w₂ e₂
    ∙ bind-Read (field_or fuel 1 4 (field_texts 5 arg) (htonl 4096)) _ v₁ w₂ w₁ e₁
    ∙ bind-Read (field_or fuel 0 4 (field_texts 5 arg) (htonl 1)) _ v₀ w₁ w₀ e₀
    ∙ grow-fault heap (bytes32 v₀ ++ (bytes32 v₁ ++ (bytes16 v₂ ++ (bytes16 v₃ ++ bytes32 v₄))))
        (add_chunk 1 d) w₀ (add_chunk-IsWhole 1 d)

-- The options that add bytes to a chunk.
pub data Growing : Type 0 where
  data' init ipv4 ipv6 cookie hostname types ecn forward adaptation : Growing

abbrev pub letter : Growing → ℕ
letter data' = b'D'
letter init = b'I'
letter ipv4 = b'4'
letter ipv6 = b'6'
letter cookie = b'C'
letter hostname = b'H'
letter types = b'A'
letter ecn = b'E'
letter forward = b'W'
letter adaptation = b'Y'

-- The argument can be read, and there is something to add: data of one byte or more, an address.
abbrev pub HasBytes :
    (List ℕ → Option (List ℕ)) → (List ℕ → Option (List ℕ)) → ℕ → List ℕ → World → Growing → Type 0
HasBytes inet_aton inet_pton6 fuel arg w data' =
    (v : Val) × (w' : World) × Read (opt2val fuel (some arg) bufsiz) w v w'
    × ((v.count == 0) ≡ false)
HasBytes inet_aton inet_pton6 fuel arg w init = ReadsFields fuel arg w
HasBytes inet_aton inet_pton6 fuel arg w ipv4 = (a : List ℕ) × (inet_aton arg ≡ some a)
HasBytes inet_aton inet_pton6 fuel arg w ipv6 = (a : List ℕ) × (inet_pton6 arg ≡ some a)
HasBytes inet_aton inet_pton6 fuel arg w cookie =
    (v : ℕ) × (w' : World) × Read (opt2intn fuel (some arg) 4) w v w'
HasBytes inet_aton inet_pton6 fuel arg w hostname = Unit
HasBytes inet_aton inet_pton6 fuel arg w types = Unit
HasBytes inet_aton inet_pton6 fuel arg w ecn = Unit
HasBytes inet_aton inet_pton6 fuel arg w forward = Unit
HasBytes inet_aton inet_pton6 fuel arg w adaptation =
    (v : ℕ) × (w' : World) × Read (opt2intn fuel (some arg) 4) w v w'

-- Where the length of the current chunk leads to the end of the pack, or no chunk is current, every
-- option that adds to a chunk is undefined behaviour, for every argument that can be read and has
-- something to add: it writes behind the block or follows NULL.
pub do_opt-overruns :
    (inet_aton inet_pton6 : List ℕ → Option (List ℕ)) (heap : ℕ → ℕ) (fuel : ℕ) (opt arg : List ℕ)
    (kind : Growing) (d : SctpPack) (w : World)
    → get_or opt 1 0 ≡ letter kind
    → IsWhole d
    → HasBytes inet_aton inet_pton6 fuel arg w kind
    → do_opt inet_aton inet_pton6 heap fuel opt arg d w ≡ fault
unfolding do_opt
do_opt-overruns inet_aton inet_pton6 heap fuel opt arg data' d w is h (v, w', e, some_bytes) =
    rw is (
      bind-Read (opt2val fuel (some arg) bufsiz) (put_data heap d) v w w' e
      ∙ put_data-fault heap d v w' some_bytes h)
do_opt-overruns inet_aton inet_pton6 heap fuel opt arg init d w is h reads =
    rw is (put_init-fault heap fuel arg d w reads)
do_opt-overruns inet_aton inet_pton6 heap fuel opt arg ipv4 d w is h (a, e) =
    rw (is, e) (grow-fault heap (param 5 8 a) d w h)
do_opt-overruns inet_aton inet_pton6 heap fuel opt arg ipv6 d w is h (a, e) =
    rw (is, e) (grow-fault heap (param 6 20 a) d w h)
do_opt-overruns inet_aton inet_pton6 heap fuel opt arg cookie d w is h (v, w', e) = rw is (
    bind-Read (opt2intn fuel (some arg) 4) _ v w w' e
    ∙ grow-fault heap (param 7 8 (bytes32 v)) d w' h)
do_opt-overruns inet_aton inet_pton6 heap fuel opt arg hostname d w is h reads =
    rw is (grow_both-fault heap _ _ d w h)
do_opt-overruns inet_aton inet_pton6 heap fuel opt arg types d w is h reads =
    rw is (grow_both-fault heap _ _ d w h)
do_opt-overruns inet_aton inet_pton6 heap fuel opt arg ecn d w is h reads =
    rw is (grow-fault heap (param 32768 4 []) d w h)
do_opt-overruns inet_aton inet_pton6 heap fuel opt arg forward d w is h reads =
    rw is (grow-fault heap (param 49152 4 []) d w h)
do_opt-overruns inet_aton inet_pton6 heap fuel opt arg adaptation d w is h (v, w', e) = rw is (
    bind-Read (opt2intn fuel (some arg) 4) _ v w w' e
    ∙ grow-fault heap (param 49158 8 (bytes32 v)) d w' h)
