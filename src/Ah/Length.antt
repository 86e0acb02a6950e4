-- ===== src/Ah/Length.antt =====
-- ah.c: the length field.
use sendip.Base.{
  ℕ, ◌+◌, ◌-◌, ◌/◌, ◌≡◌, inl, inr, ap, arith, List, Option, some, Bool, false, Bool-cases, ltb,
  ◌==◌, length, get_or, take, length-take, write_bytes, grown, gained, length-gained, drop,
  length-drop, length-append, u8,
}
use sendip.World.{World, Outcome, done, fault, stuck, exits, bind-done}
use sendip.Protoname.{Protocols, name_to_proto}
use sendip.Args.Number.{opt2intn}
use sendip.Args.Stream.{Val}
use sendip.Args.Value.{opt2val}
use sendip.Ah.{
  AhPack, AhState, CryptoModule, ah_data, put_auth_data, put_key, set_nexthdr, pack_opt, do_opt,
  bufsiz,
}

-- The field is the length of the header in units of 4 bytes, minus 2, in 8 bits.
abbrev pub Measured : AhPack → Type 0
Measured d = d.header.hdrlen ≡ u8 (length (ah_data d) / 4 - 2)

stored-length :
    (heap : ℕ → ℕ) (n : ℕ) (bytes block : List ℕ)
    → length (write_bytes 0 (take n bytes) (take n (grown heap n block))) ≡ n
stored-length heap n bytes block =
    let block' = take n (grown heap n block) in
    let front = take n bytes in
    omega (
      arith,
      length-append front (drop (0 + length front) block'),
      length-drop (0 + length front) block',
      length-take n bytes,
      length-take n (grown heap n block),
      length-append block (gained heap (length block) (n - length block)),
      length-gained heap (length block) (n - length block),
    )

-- The fixed part is three units.
in_units :
    (bytes : List ℕ) (n : ℕ) → length bytes ≡ n → u8 (1 + n / 4) ≡ u8 ((12 + length bytes) / 4 - 2)
in_units bytes n e = ap u8 (omega (arith, e))

put_auth_data-Measured :
    (heap : ℕ → ℕ) (d d' : AhPack) (v : Val) (w w' : World) (ok : Bool)
    → put_auth_data heap d v w ≡ done ((ok, d'), w')
    → Measured d'
unfolding put_auth_data
put_auth_data-Measured heap d d' v w w' ok e = elim (Bool-cases (ltb bufsiz v.count)) [
  | inl big ↦ absurd (ground (arith, rw big at e))
  | inr fits ↦
      let stored =
        write_bytes 0 (take v.count v.written) (take v.count (grown heap v.count d.auth_data)) in
      ground (
        arith,
        rw fits at e,
        in_units stored v.count (stored-length heap v.count v.written d.auth_data),
      )
]

put_key-Measured :
    (d d' : AhPack) (v : Val) (w w' : World) (ok : Bool)
    → Measured d
    → put_key d v w ≡ done ((ok, d'), w')
    → Measured d'
unfolding put_key
put_key-Measured d d' v w w' ok m e = ground (arith, m, e)

set_nexthdr-Measured :
    (o : Outcome ℕ) (d d' : AhPack) (w w' : World) (ok : Bool)
    → Measured d
    → set_nexthdr o d w ≡ done ((ok, d'), w')
    → Measured d'
unfolding set_nexthdr
set_nexthdr-Measured (done p) d d' w w' ok m e = ground (arith, m, e)
set_nexthdr-Measured fault d d' w w' ok m e = absurd (ground (arith, e))
set_nexthdr-Measured stuck d d' w w' ok m e = absurd (ground (arith, e))
set_nexthdr-Measured exits d d' w w' ok m e = absurd (ground (arith, e))

pack_opt-Measured :
    (db : Protocols) (heap : ℕ → ℕ) (fuel : ℕ) (opt arg : List ℕ) (d d' : AhPack) (w w' : World)
    (ok : Bool)
    → Measured d
    → pack_opt db heap fuel opt arg d w ≡ done ((ok, d'), w')
    → Measured d'
unfolding pack_opt
pack_opt-Measured db heap fuel opt arg d d' w w' ok m e =
    let c = get_or opt 1 0 in
    let r : Bool × AhPack = (ok, d') in
    elim (Bool-cases (c == b's')) [
      | inl s ↦
          let (v, w₁, read, rest) = bind-done (opt2intn fuel (some arg) 4) _ w w' r (rw s at e) in
          ground (arith, m, rest)
      | inr not_s ↦ elim (Bool-cases (c == b'q')) [
        | inl q ↦
            let (v, w₁, read, rest) =
              bind-done (opt2intn fuel (some arg) 4) _ w w' r (rw (not_s, q) at e) in
            ground (arith, m, rest)
        | inr not_q ↦ elim (Bool-cases (c == b'd')) [
          | inl is_d ↦
              let (v, w₁, read, rest) =
                bind-done (opt2val fuel (some arg) bufsiz) _ w w' r
                  (rw (not_s, not_q, is_d) at e) in
              put_auth_data-Measured heap d d' v w₁ w' ok rest
          | inr not_d ↦ elim (Bool-cases (c == b'k')) [
            | inl k ↦
                let (v, w₁, read, rest) =
                  bind-done (opt2val fuel (some arg) bufsiz) _ w w' r
                    (rw (not_s, not_q, not_d, k) at e) in
                put_key-Measured d d' v w₁ w' ok m rest
            | inr not_k ↦ elim (Bool-cases (c == b'n')) [
              | inl n ↦
                  set_nexthdr-Measured (name_to_proto db arg) d d' w w' ok m
                    (rw (not_s, not_q, not_d, not_k, n) at e)
              | inr not_n ↦ ground (arith, m, rw (not_s, not_q, not_d, not_k, not_n) at e)
            ]
          ]
        ]
      ]
    ]

-- Whatever option is given, but one that loads a module: if the length field is the length of the
-- header in units of 4 bytes, minus 2, in 8 bits, then it is so afterwards. Authentication data
-- that is no whole number of units counts rounded down.
pub do_opt-Measured :
    (db : Protocols) (load_crypto_module : List ℕ → Option CryptoModule) (heap : ℕ → ℕ) (fuel : ℕ)
    (opt arg : List ℕ) (s s' : AhState) (w w' : World) (ok : Bool)
    → (get_or opt 1 0 == b'm') ≡ false
    → Measured s.pack
    → do_opt db load_crypto_module heap fuel opt arg s w ≡ done ((ok, s'), w')
    → Measured s'.pack
unfolding do_opt
do_opt-Measured db load_crypto_module heap fuel opt arg s s' w w' ok not_m m e =
    let ((ok₁, d'), w₁, changed, rest) =
      bind-done (pack_opt db heap fuel opt arg s.pack) _ w w' (ok, s') (rw not_m at e) in
    let same : s'.pack ≡ d' = ground (arith, rest) in
    rw same (pack_opt-Measured db heap fuel opt arg s.pack d' w w₁ ok₁ m changed)
