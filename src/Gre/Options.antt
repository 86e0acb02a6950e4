-- ===== src/Gre/Options.antt =====
-- gre.c: the options that add words to the header.
use sendip.Base.{
  ℕ, ◌≡◌, ◌⊎◌, inl, inr, refl, ap, get_or, u16, ◌∙◌, arith, List, Option, none, some, true, false,
  bit_or, u32, length,
}
use sendip.Base.Flags.{has, mark}
use sendip.Gre.{
  GreData, make_room, resize_csum, gre_resize, put_word, put_csum, do_opt, put_checksum, marked,
  gre_mod_checksum, gre_csum, gre_routing, gre_key, gre_seq, gre_mod_key, gre_mod_sequence,
  gre_mod_routing,
}
use sendip.World.{World, done}
use sendip.Args.Number.{opt2intn}
use sendip.Gre.Layout.{
  Fields, fields, Field, key, seq, routing, FitsFields, with_field, flag_of, bit_of, char_of,
  has_csum, is_there, Lays,
}
use sendip.Gre.Words.{
  flags_after, put_word-flags, put_key-info, put_seq-info, put_routing-info, put_csum-info,
  last_after,
}

put_word-Lays :
    (heap : ℕ → ℕ) (v : ℕ) (a : Fields) (field : Field) (d : GreData)
    → FitsFields a d
    → (field ≡ routing → has_csum a ≡ true)
    → FitsFields (with_field field (u32 v) a) (put_word heap (flag_of field) (bit_of field) v d)
put_word-Lays heap v (fields c k s r) key d h ok =
    let flags = put_word-flags heap 5 gre_mod_key v d in
    record {
      csum_flag = flags.0 ∙ h.csum_flag;
      key_flag = flags.1;
      seq_flag = flags.2 ∙ h.seq_flag;
      routing_flag = flags.3 ∙ h.routing_flag;
      last = last_after heap k h.last d;
      info = put_key-info heap gre_mod_key v c k s r d h;
      with_csum = h.with_csum;
    }
put_word-Lays heap v (fields c k s r) seq d h ok =
    let flags = put_word-flags heap 4 gre_mod_sequence v d in
    record {
      csum_flag = flags.0 ∙ h.csum_flag;
      key_flag = flags.1 ∙ h.key_flag;
      seq_flag = flags.2;
      routing_flag = flags.3 ∙ h.routing_flag;
      last = last_after heap s h.last d;
      info = put_seq-info heap gre_mod_sequence v c k s r d h;
      with_csum = h.with_csum;
    }
put_word-Lays heap v (fields none k s r) routing d h ok = absurd (ground (arith, ok refl))
put_word-Lays heap v (fields (some x) k s r) routing d h ok =
    let flags = put_word-flags heap 6 gre_mod_routing v d in
    record {
      csum_flag = flags.0 ∙ h.csum_flag;
      key_flag = flags.1 ∙ h.key_flag;
      seq_flag = flags.2 ∙ h.seq_flag;
      routing_flag = flags.3;
      last = last_after heap r h.last d;
      info = put_routing-info heap gre_mod_routing v x k s r d h;
      with_csum = inr refl;
    }

-- `-gk`, `-gs` and `-gr`, for a value that can be read: the option succeeds, and the words of the
-- header, which stood in the order of RFC 1701 as the flags tell, stand in that order again with
-- the value in its place and its flag set. A routing field needs a checksum given before.
pub do_opt-FitsFields :
    (heap : ℕ → ℕ) (fuel : ℕ) (opt arg : List ℕ) (field : Field) (v : ℕ) (a : Fields) (d : GreData)
    (w w' : World)
    → get_or opt 1 0 ≡ char_of field
    → opt2intn fuel (some arg) 4 w ≡ done (v, w')
    → FitsFields a d
    → (field ≡ routing → has_csum a ≡ true)
    → (d' : GreData) × (do_opt heap fuel opt arg d w ≡ done ((true, d'), w'))
      × FitsFields (with_field field (u32 v) a) d'
unfolding do_opt
do_opt-FitsFields heap fuel opt arg field v a d w w' is_field read h ok = (
  put_word heap (flag_of field) (bit_of field) v d,
  elim field [
    | key ↦ ground (arith, is_field, read)
    | seq ↦ ground (arith, is_field, read)
    | routing ↦ ground (arith, is_field, read)
  ],
  put_word-Lays heap v a field d h ok,
)

put_csum-flag :
    (heap : ℕ → ℕ) (d : GreData)
    → (put_csum heap d).header.gre_flag ≡ bit_or d.header.gre_flag gre_csum
unfolding put_csum gre_resize make_room resize_csum
put_csum-flag heap d = ground arith

put_csum-flags :
    (heap : ℕ → ℕ) (d : GreData)
    → let m = (put_csum heap d).header.gre_flag in
      (has m gre_csum ≡ true)
      × (has m gre_key ≡ has d.header.gre_flag gre_key)
      × (has m gre_seq ≡ has d.header.gre_flag gre_seq)
      × (has m gre_routing ≡ has d.header.gre_flag gre_routing)
put_csum-flags heap d = rw (put_csum-flag heap d) (flags_after d.header.gre_flag 7)

put_csum-modified : (heap : ℕ → ℕ) (d : GreData) → (put_csum heap d).modified ≡ d.modified
unfolding put_csum gre_resize make_room resize_csum
put_csum-modified heap d = ground arith

put_csum-Lays :
    (heap : ℕ → ℕ) (k s : Option ℕ) (d : GreData)
    → Lays none k s none d
    → Lays (some 0) k s none (put_csum heap d)
put_csum-Lays heap k s d h =
    let flags = put_csum-flags heap d in
    record {
      csum_flag = flags.0;
      key_flag = flags.1 ∙ h.key_flag;
      seq_flag = flags.2 ∙ h.seq_flag;
      routing_flag = flags.3 ∙ h.routing_flag;
      last = heap (length d.header.gre_info);
      info = put_csum-info heap k s d h;
      with_csum = inr refl;
    }

put_checksum-Lays :
    (v : ℕ) (k s r : Option ℕ) (d : GreData)
    → Lays (some 0) k s r d
    → Lays (some (u16 v)) k s r (marked gre_mod_checksum (put_checksum v d))
put_checksum-Lays v k s r d h = record {
  csum_flag = h.csum_flag;
  key_flag = h.key_flag;
  seq_flag = h.seq_flag;
  routing_flag = h.routing_flag;
  last = h.last;
  info = ground (arith, h);
  with_csum = inr refl;
}

-- `-gC` and `-gc`, for an argument that can be read, on a header whose words stand in the order of
-- RFC 1701 as the flags tell, with a routing field behind a checksum only: after -gr without a
-- checksum a header is not so. Where a checksum is there, both fail and change nothing. Else they
-- put the checksum and offset in front, set the flag and keep the other words: the checksum is 0
-- for `-gC` and the value for `-gc`, the offset is 0, and the mark is left for `-gc` alone.
pub do_opt-csum :
    (heap : ℕ → ℕ) (fuel : ℕ) (opt arg : List ℕ) (v : ℕ) (c k s r : Option ℕ) (d : GreData)
    (w w' : World)
    → (get_or opt 1 0 ≡ b'c') ⊎ (get_or opt 1 0 ≡ b'C')
    → opt2intn fuel (some arg) 2 w ≡ done (v, w')
    → Lays c k s r d
    → ((is_there c ≡ true) × (do_opt heap fuel opt arg d w ≡ done ((false, d), w)))
      ⊎ ((is_there c ≡ false)
          × (w₁ : World) × (d' : GreData) × (do_opt heap fuel opt arg d w ≡ done ((true, d'), w₁))
          × (((get_or opt 1 0 ≡ b'c')
                × (w₁ ≡ w')
                × Lays (some (u16 v)) k s r d'
                × (d'.modified ≡ mark d.modified gre_mod_checksum))
              ⊎ ((get_or opt 1 0 ≡ b'C')
                  × (w₁ ≡ w)
                  × Lays (some 0) k s r d'
                  × (d'.modified ≡ d.modified))))
unfolding do_opt
do_opt-csum heap fuel opt arg v (some x) k s r d w w' (inl is_c) read h =
    inl (refl, ground (arith, is_c, h))
do_opt-csum heap fuel opt arg v (some x) k s r d w w' (inr is_c) read h =
    inl (refl, ground (arith, is_c, h))
do_opt-csum heap fuel opt arg v none k s (some y) d w w' which read h =
    absurd (ground (arith, h.with_csum))
do_opt-csum heap fuel opt arg v none k s none d w w' (inl is_c) read h =
    let room = put_csum-Lays heap k s d h in
    inr (
      refl,
      w',
      marked gre_mod_checksum (put_checksum v (put_csum heap d)),
      ground (arith, is_c, read, h),
      inl (
        is_c,
        refl,
        put_checksum-Lays v k s none (put_csum heap d) room,
        ap (λ m. mark m gre_mod_checksum) (put_csum-modified heap d),
      ),
    )
do_opt-csum heap fuel opt arg v none k s none d w w' (inr is_c) read h = inr (
  refl,
  w,
  put_csum heap d,
  ground (arith, is_c, h),
  inr (is_c, refl, put_csum-Lays heap k s d h, put_csum-modified heap d),
)
