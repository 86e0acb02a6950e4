-- ===== src/Hop/Space.antt =====
-- hop.c: the space that the options take.
use sendip.Base.{
  ℕ, ◌+◌, ◌-◌, ◌*◌, ◌/◌, ◌%◌, ◌<◌, ◌≤◌, ◌≡◌, ap, sym, ◌∙◌, arith, List, ◌∷◌, ◌++◌, length, drop,
  length-append, length-drop, write_bytes, write_bytes-append, grown, gained, length-gained, u8,
  set,
}
use sendip.Hop.{HopPack, hoplen, new_size, append}
use mathlib.Core.List.{append_assoc}

-- The pack holds the bytes `content` of options: they stand behind `nexthdr` and `hdrlen`, the
-- length used counts these two and them, and the block is a multiple of 8.
pub record Holds (content : List ℕ) (d : HopPack) : Type 0 where
  pub nexthdr : ℕ
  pub hdrlen : ℕ
  pub spare : List ℕ
  pub block : d.data' ≡ nexthdr ∷ hdrlen ∷ content ++ spare
  pub used : hdrlen * 8 + d.modified % 8 ≡ 2 + length content
  pub whole : length d.data' % 8 ≡ 0

new_size-whole :
    (used alloclen : ℕ)
    → alloclen % 8 ≡ 0
    → (new_size used alloclen % 8 ≡ 0)
      × (used ≤ new_size used alloclen)
      × (alloclen ≤ new_size used alloclen)
new_size-whole used alloclen h = ground arith

-- The block behind its first two bytes, once `bytes` are stored.
append-block :
    (heap : ℕ → ℕ) (n h size v : ℕ) (content spare bytes : List ℕ)
    → let old = n ∷ h ∷ content ++ spare in
      set (write_bytes (2 + length content) bytes (grown heap size old)) 1 v
      ≡ n ∷ v ∷ (content ++ bytes)
        ++ drop (length bytes) (spare ++ gained heap (length old) (size - length old))
append-block heap n h size v content spare bytes =
    let old = n ∷ h ∷ content ++ spare in
    let more = gained heap (length old) (size - length old) in
    let place : 2 + length content ≡ length (n ∷ h ∷ content) = omega arith in
    let joined : grown heap size old ≡ (n ∷ h ∷ content) ++ (spare ++ more) =
      ap (λ r. n ∷ h ∷ r) (append_assoc content spare more) in
    let stored : write_bytes (2 + length content) bytes (grown heap size old)
        ≡ (n ∷ h ∷ content) ++ (bytes ++ drop (length bytes) (spare ++ more)) =
      ap (λ i. write_bytes i bytes (grown heap size old)) place
      ∙ ap (write_bytes (length (n ∷ h ∷ content)) bytes) joined
      ∙ write_bytes-append (n ∷ h ∷ content) bytes (spare ++ more) in
    ap (λ b. set b 1 v) stored
    ∙ ap (λ r. n ∷ v ∷ r) (sym (append_assoc content bytes (drop (length bytes) (spare ++ more))))

pub append-Holds :
    (heap : ℕ → ℕ) (content bytes : List ℕ) (d : HopPack)
    → Holds content d
    → 2 + length content + length bytes < 2048
    → Holds (content ++ bytes) (append heap bytes d)
unfolding append
append-Holds heap content bytes d h short =
    let old = h.nexthdr ∷ h.hdrlen ∷ content ++ h.spare in
    let used = 2 + length content + length bytes in
    let size = new_size used (length old) in
    let more = gained heap (length old) (size - length old) in
    let place : hoplen d ≡ 2 + length content = rw h.block h.used in
    let block : (append heap bytes d).data'
        ≡ h.nexthdr ∷ u8 (used / 8) ∷ (content ++ bytes) ++ drop (length bytes) (h.spare ++ more) =
      rw (place, h.block)
        (append-block heap h.nexthdr h.hdrlen size (u8 (used / 8)) content h.spare bytes) in
    let same : length d.data' ≡ length old = ap length h.block in
    let new = new_size-whole used (length old) (omega (arith, same, h.whole)) in
    record {
      nexthdr = h.nexthdr;
      hdrlen = u8 (used / 8);
      spare = drop (length bytes) (h.spare ++ more);
      block = block;
      used = omega (arith, place, length-append content bytes);
      whole = omega (
        arith,
        ap length block,
        length-append (content ++ bytes) (drop (length bytes) (h.spare ++ more)),
        length-append content bytes,
        length-drop (length bytes) (h.spare ++ more),
        length-append h.spare more,
        length-append content h.spare,
        length-gained heap (length old) (size - length old),
        new,
      );
    }
