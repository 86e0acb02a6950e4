-- ===== src/Tcp/Options/Fits.antt =====
-- What the options of the TCP module leave.
use sendip.Base.{
  ℕ, ◌+◌, ◌-◌, ◌≡◌, ◌≤◌, arith, List, [], ◌∷◌, ◌++◌, Bool, some, length, take, length-append,
  length-take,
}
use sendip.Base.{bytes16, bytes32, u8, u16, htonl, ◌||◌}
use sendip.Libc.{codes, streq, first_char, rest_of, has_char, scan_unsigned}
use sendip.Args.Number.{opt2intn, opt2inth}
use sendip.World.{World, done, Exec, ◌>>=◌, Outcome-cases}
use sendip.Base.{Option-cases, Bool-cases, inl, inr, ◌==◌, get_or, drop, ◌%◌}
use sendip.Args.Stream.{str2val}
use sendip.Tcp.Options.{
  TcpData, added, sizeof_dst, addoption, num_option, sack_option, ts_option, ts_tail, tcp_option,
}

-- An option takes as many bytes as its length says, behind those that are there.
pub addoption-length :
    (opt len : ℕ) (data' : List ℕ) (d d' : TcpData)
    → addoption opt len data' d ≡ some d'
    → (length d'.tail ≡ length d.tail + len) × (d'.header ≡ d.header) × (d'.modified ≡ d.modified)
unfolding addoption
addoption-length opt len data' d d' e = ground (
  arith,
  length-append d.tail (opt ∷ []),
  length-append d.tail (opt ∷ len ∷ take (len - 2) data'),
  length-take (len - 2) data',
)

-- What an option keeps.
abbrev pub Keeps : TcpData → TcpData → Type 0
Keeps d d' = (d'.header ≡ d.header) × (d'.modified ≡ d.modified) × (length d.tail ≤ length d'.tail)

added-Keeps :
    (d d' : TcpData) (ok : Bool) (w' : World) (opt len : ℕ) (data' : List ℕ) (w : World)
    → added (addoption opt len data' d) w ≡ done ((ok, d'), w')
    → Keeps d d'
added-Keeps d d' ok w' opt len data' w e = elim (Option-cases (addoption opt len data' d)) [
  | inl none_e ↦ ground (arith, none_e, e)
  | inr (x, some_e) ↦ ground (arith, some_e, e, addoption-length opt len data' d x some_e)
]

num_option-Keeps :
    (arg : List ℕ) (d d' : TcpData) (ok : Bool) (w w' : World)
    → num_option arg d w ≡ done ((ok, d'), w')
    → Keeps d d'
unfolding num_option
num_option-Keeps arg d d' ok w w' e =
    let val = str2val (b'0' ∷ b'x' ∷ arg) sizeof_dst in
    let kind = get_or val.written 0 (w.junk % 256) in
    elim (Bool-cases (val.count == 1)) [
      | inl one ↦ added-Keeps d d' ok w' kind 1 [] w (rw one at e)
      | inr other ↦
          added-Keeps d d' ok w' kind (val.count + 1) (drop 1 val.written) w (rw other at e)
    ]

read-Keeps :
    (d d' : TcpData) (ok : Bool) (w' : World) (opt len : ℕ) (data' : ℕ → List ℕ) (read : Exec ℕ)
    (w : World)
    → (read >>= λ v. added (addoption opt len (data' v) d)) w ≡ done ((ok, d'), w')
    → Keeps d d'
read-Keeps d d' ok w' opt len data' read w e = elim (Outcome-cases (read w)) [
  | inl ((v, w₁), e₁) ↦ added-Keeps d d' ok w' opt len (data' v) w₁ (rw (e₁, ◌>>=◌) at e)
  | inr (inl bad) ↦ ground (arith, e, bad)
  | inr (inr (inl bad)) ↦ ground (arith, e, bad)
  | inr (inr (inr bad)) ↦ ground (arith, e, bad)
]

sack_option-Keeps :
    (fuel : ℕ) (arg : List ℕ) (d d' : TcpData) (ok : Bool) (w w' : World)
    → sack_option fuel arg d w ≡ done ((ok, d'), w')
    → Keeps d d'
unfolding sack_option
sack_option-Keeps fuel [] d d' ok w w' e =
    added-Keeps d d' ok w' 5 10 (bytes32 w.junk ++ bytes32 w.junk) w e
sack_option-Keeps fuel (c ∷ s) d d' ok w w' e =
    elim (Bool-cases (has_char (c ∷ s) b':' || has_char (c ∷ s) b',')) [
      | inl crash ↦ ground (arith, rw crash at e)
      | inr plain ↦
          read-Keeps d d' ok w' 5 10 (λ re. bytes32 0 ++ bytes32 re)
            (opt2intn fuel (some (c ∷ s)) 4) w (rw plain at e)
    ]

ts_tail-Keeps :
    (tsval : ℕ) (s : List ℕ) (d d' : TcpData) (ok : Bool) (w w' : World)
    → ts_tail tsval s d w ≡ done ((ok, d'), w')
    → Keeps d d'
unfolding ts_tail
ts_tail-Keeps tsval s d d' ok w w' e = elim (Bool-cases (first_char s == b':')) [
  | inl colon ↦ elim (Option-cases (scan_unsigned (rest_of s))) [
    | inl bad ↦ ground (arith, e, colon, bad)
    | inr ((tsecr, t), good) ↦
        added-Keeps d d' ok w' 8 10 (bytes32 (htonl tsval) ++ bytes32 (htonl tsecr)) w
          (rw (colon, good) at e)
  ]
  | inr other ↦ ground (arith, e, other)
]

ts_option-Keeps :
    (arg : List ℕ) (d d' : TcpData) (ok : Bool) (w w' : World)
    → ts_option arg d w ≡ done ((ok, d'), w')
    → Keeps d d'
unfolding ts_option
ts_option-Keeps arg d d' ok w w' e = elim (Option-cases (scan_unsigned arg)) [
  | inl bad ↦ ground (arith, e, bad)
  | inr ((tsval, s), good) ↦ ts_tail-Keeps tsval s d d' ok w w' (rw (good, ts_option) at e)
]

-- An option that succeeds leaves the header itself as it is, and takes no byte away.
pub tcp_option-Keeps :
    (fuel : ℕ) (name arg : List ℕ) (d d' : TcpData) (ok : Bool) (w w' : World)
    → tcp_option fuel name arg d w ≡ done ((ok, d'), w')
    → Keeps d d'
unfolding tcp_option
tcp_option-Keeps fuel name arg d d' ok w w' e = elim (Bool-cases (streq name (codes "num"))) [
  | inl is_num ↦ num_option-Keeps arg d d' ok w w' (rw is_num at e)
  | inr no_num ↦ elim (Bool-cases (streq name (codes "eol"))) [
    | inl is_eol ↦ added-Keeps d d' ok w' 0 1 [] w (rw (no_num, is_eol) at e)
    | inr no_eol ↦ elim (Bool-cases (streq name (codes "nop"))) [
      | inl is_nop ↦ added-Keeps d d' ok w' 1 1 [] w (rw (no_num, no_eol, is_nop) at e)
      | inr no_nop ↦ elim (Bool-cases (streq name (codes "mss"))) [
        | inl is_mss ↦
            read-Keeps d d' ok w' 2 4 (λ mss. bytes16 (u16 mss)) (opt2intn fuel (some arg) 2) w
              (rw (no_num, no_eol, no_nop, is_mss) at e)
        | inr no_mss ↦ elim (Bool-cases (streq name (codes "wscale"))) [
          | inl is_wscale ↦
              read-Keeps d d' ok w' 3 3 (λ wscale. u8 wscale ∷ []) (opt2inth fuel (some arg) 1) w
                (rw (no_num, no_eol, no_nop, no_mss, is_wscale) at e)
          | inr no_wscale ↦ elim (Bool-cases (streq name (codes "sackok"))) [
            | inl is_sackok ↦
                added-Keeps d d' ok w' 4 2 [] w
                  (rw (no_num, no_eol, no_nop, no_mss, no_wscale, is_sackok) at e)
            | inr no_sackok ↦ elim (Bool-cases (streq name (codes "sack"))) [
              | inl is_sack ↦
                  sack_option-Keeps fuel arg d d' ok w w'
                    (rw (no_num, no_eol, no_nop, no_mss, no_wscale, no_sackok, is_sack) at e)
              | inr no_sack ↦ elim (Bool-cases (streq name (codes "ts"))) [
                | inl is_ts ↦
                    ts_option-Keeps arg d d' ok w w' (
                      rw (no_num, no_eol, no_nop, no_mss, no_wscale, no_sackok, no_sack, is_ts) at
                        e)
                | inr no_ts ↦
                    ground (
                      arith, e, no_num, no_eol, no_nop, no_mss, no_wscale, no_sackok, no_sack,
                      no_ts,
                    )
              ]
            ]
          ]
        ]
      ]
    ]
  ]
]
