-- ===== src/Gre/Words.antt =====
-- gre.c: where gre_resize makes room, and what do_opt stores there.
use sendip.Base.{ℕ, ◌^◌, ◌≡◌, arith, [], ◌∷◌, Option, none, some, ◌==◌, bit_or, u32, ◌||◌, length}
use sendip.Base.Flags.{has, has-mark}
use sendip.Gre.{
  GreData, gre_where, wanted_size, shove, make_room, resize_csum, gre_resize, put_word, put_csum,
  gre_csum, gre_routing, gre_key, gre_seq,
}
use sendip.Gre.Layout.{word, Lays}

-- What the four flags say once one more is set.
pub flags_after :
    (m j : ℕ)
    → (has (bit_or m (2 ^ j)) gre_csum ≡ ((j == 7) || has m gre_csum))
      × (has (bit_or m (2 ^ j)) gre_key ≡ ((j == 5) || has m gre_key))
      × (has (bit_or m (2 ^ j)) gre_seq ≡ ((j == 4) || has m gre_seq))
      × (has (bit_or m (2 ^ j)) gre_routing ≡ ((j == 6) || has m gre_routing))
flags_after m j = (has-mark m j 7, has-mark m j 5, has-mark m j 4, has-mark m j 6)

put_word-flag :
    (heap : ℕ → ℕ) (flag bit v : ℕ) (d : GreData)
    → (put_word heap flag bit v d).header.gre_flag ≡ bit_or d.header.gre_flag flag
unfolding put_word gre_resize make_room resize_csum
put_word-flag heap flag bit v d = ground arith

pub put_word-flags :
    (heap : ℕ → ℕ) (j bit v : ℕ) (d : GreData)
    → let m = (put_word heap (2 ^ j) bit v d).header.gre_flag in
      (has m gre_csum ≡ ((j == 7) || has d.header.gre_flag gre_csum))
      × (has m gre_key ≡ ((j == 5) || has d.header.gre_flag gre_key))
      × (has m gre_seq ≡ ((j == 4) || has d.header.gre_flag gre_seq))
      × (has m gre_routing ≡ ((j == 6) || has d.header.gre_flag gre_routing))
put_word-flags heap j bit v d =
    rw (put_word-flag heap (2 ^ j) bit v d) (flags_after d.header.gre_flag j)

-- The last word is what it was, or comes from the heap.
abbrev pub last_after : (ℕ → ℕ) → Option ℕ → ℕ → GreData → ℕ
last_after heap none last d = heap (length d.header.gre_info)
last_after heap (some x) last d = last

pub put_key-info :
    (heap : ℕ → ℕ) (bit v : ℕ) (c k s r : Option ℕ) (d : GreData) (h : Lays c k s r d)
    → (put_word heap gre_key bit v d).header.gre_info
      ≡ word c (u32 v ∷ word s (word r (last_after heap k h.last d ∷ [])))
unfolding put_word gre_resize make_room shove wanted_size gre_where resize_csum
put_key-info heap bit v none none s r d h = ground (arith, h, flags_after d.header.gre_flag 5)
put_key-info heap bit v none (some x) s r d h = ground (arith, h, flags_after d.header.gre_flag 5)
put_key-info heap bit v (some y) none s r d h = ground (arith, h, flags_after d.header.gre_flag 5)
put_key-info heap bit v (some y) (some x) s r d h =
    ground (arith, h, flags_after d.header.gre_flag 5)

pub put_seq-info :
    (heap : ℕ → ℕ) (bit v : ℕ) (c k s r : Option ℕ) (d : GreData) (h : Lays c k s r d)
    → (put_word heap gre_seq bit v d).header.gre_info
      ≡ word c (word k (u32 v ∷ word r (last_after heap s h.last d ∷ [])))
unfolding put_word gre_resize make_room shove wanted_size gre_where resize_csum
put_seq-info heap bit v none k none r d h = ground (arith, h, flags_after d.header.gre_flag 4)
put_seq-info heap bit v none k (some x) r d h = ground (arith, h, flags_after d.header.gre_flag 4)
put_seq-info heap bit v (some y) k none r d h = ground (arith, h, flags_after d.header.gre_flag 4)
put_seq-info heap bit v (some y) k (some x) r d h =
    ground (arith, h, flags_after d.header.gre_flag 4)

pub put_routing-info :
    (heap : ℕ → ℕ) (bit v x : ℕ) (k s r : Option ℕ) (d : GreData) (h : Lays (some x) k s r d)
    → (put_word heap gre_routing bit v d).header.gre_info
      ≡ x ∷ word k (word s (u32 v ∷ last_after heap r h.last d ∷ []))
unfolding put_word gre_resize make_room shove wanted_size gre_where resize_csum
put_routing-info heap bit v x k s none d h = ground (arith, h, flags_after d.header.gre_flag 6)
put_routing-info heap bit v x k s (some y) d h = ground (arith, h, flags_after d.header.gre_flag 6)

pub put_csum-info :
    (heap : ℕ → ℕ) (k s : Option ℕ) (d : GreData) (h : Lays none k s none d)
    → (put_csum heap d).header.gre_info ≡ 0 ∷ word k (word s (heap (length d.header.gre_info) ∷ []))
unfolding put_csum gre_resize make_room shove wanted_size gre_where resize_csum
put_csum-info heap k s d h = ground (arith, h, flags_after d.header.gre_flag 7)
