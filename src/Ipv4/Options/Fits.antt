-- ===== src/Ipv4/Options/Fits.antt =====
-- What the options of the IPv4 module leave.
use sendip.Base.{
  ℕ, ◌+◌, ◌-◌, ◌*◌, ◌/◌, ◌%◌, ◌≡◌, ◌≤◌, arith, List, [], ◌∷◌, Bool, some, length, take, drop,
  length-append, length-take,
}
use sendip.Base.{Option-cases, Bool-cases, inl, inr, ◌==◌, get_or, bytes16, u8, u16}
use sendip.Libc.{codes, streq}
use sendip.World.{World, done, ◌>>=◌, bind-done}
use sendip.Args.Stream.{str2val}
use sendip.Args.Number.{opt2intn}
use sendip.Pack.{IsIp}
use sendip.Ipv4.{IpData, addoption}
use sendip.Ipv4.Route.{strdup, buildroute, timestamps}
use sendip.Ipv4.Options.{
  added, sizeof_dst, num_option, route_option, stamp_option, ip_option, flag_opt, do_opt,
}

-- An option takes as many bytes as its length says, behind those that are there.
pub addoption-length :
    (copy class num len : ℕ) (data' : List ℕ) (d d' : IpData)
    → addoption copy class num len data' d ≡ some d'
    → (length d'.tail ≡ length d.tail + len) × (d'.header ≡ d.header)
addoption-length copy class num len data' d d' e = ground (
  arith,
  length-append d.tail ((copy % 2 * 128 + class % 4 * 32 + num % 32) ∷ []),
  length-append d.tail ((copy % 2 * 128 + class % 4 * 32 + num % 32) ∷ len ∷ take (len - 2) data'),
  length-take (len - 2) data',
)

-- What an option keeps.
abbrev pub Keeps : IpData → IpData → Type 0
Keeps d d' = (d'.header ≡ d.header) × (length d.tail ≤ length d'.tail)

added-Keeps :
    (d d' : IpData) (ok : Bool) (w' : World) (copy class num len : ℕ) (data' : List ℕ) (w : World)
    → added (addoption copy class num len data' d) w ≡ done ((ok, d'), w')
    → Keeps d d'
added-Keeps d d' ok w' copy class num len data' w e =
    elim (Option-cases (addoption copy class num len data' d)) [
      | inl none_e ↦ ground (arith, rw (none_e, added) at e)
      | inr (x, some_e) ↦
          ground
            (arith, rw (some_e, added) at e, addoption-length copy class num len data' d x some_e)
    ]

num_option-Keeps :
    (arg : List ℕ) (d d' : IpData) (ok : Bool) (w w' : World)
    → num_option arg d w ≡ done ((ok, d'), w')
    → Keeps d d'
unfolding num_option
num_option-Keeps arg d d' ok w w' e =
    let val = str2val (b'0' ∷ b'x' ∷ arg) sizeof_dst in
    let kind = get_or val.written 0 (w.junk % 256) in
    added-Keeps d d' ok w' (kind / 128) (kind / 32 % 4) (kind % 32) (u8 (u8 val.count + 1))
      (drop 1 val.written) w e

route_option-Keeps :
    (fuel copy num : ℕ) (arg : List ℕ) (d d' : IpData) (ok : Bool) (w w' : World)
    → route_option fuel copy num arg d w ≡ done ((ok, d'), w')
    → Keeps d d'
unfolding route_option
route_option-Keeps fuel copy num arg d d' ok w w' e =
    let (r, w₁, built, e₁) = bind-done (buildroute fuel (strdup arg)) _ w w' (ok, d') e in
    elim (Bool-cases (r.1 == 0)) [
      | inl bad ↦ ground (arith, rw bad at e₁)
      | inr good ↦ added-Keeps d d' ok w' copy 0 num (u8 (r.1 + 2)) r.0 w₁ (rw good at e₁)
    ]

stamp_option-Keeps :
    (fuel : ℕ) (arg : List ℕ) (d d' : IpData) (ok : Bool) (w w' : World)
    → stamp_option fuel arg d w ≡ done ((ok, d'), w')
    → Keeps d d'
unfolding stamp_option
stamp_option-Keeps fuel arg d d' ok w w' e =
    let (r, w₁, built, e₁) = bind-done (timestamps fuel (strdup arg)) _ w w' (ok, d') e in
    elim (Option-cases r) [
      | inl bad ↦ ground (arith, rw bad at e₁)
      | inr ((buf, n), good) ↦ added-Keeps d d' ok w' 0 2 4 (u8 (n + 2)) buf w₁ (rw good at e₁)
    ]

sid-Keeps :
    (fuel : ℕ) (arg : List ℕ) (d d' : IpData) (ok : Bool) (w w' : World)
    → (opt2intn fuel (some arg) 2 >>= λ sid. added (addoption 1 0 8 4 (bytes16 (u16 sid)) d)) w
      ≡ done ((ok, d'), w')
    → Keeps d d'
sid-Keeps fuel arg d d' ok w w' e =
    let (sid, w₁, read, e₁) = bind-done (opt2intn fuel (some arg) 2) _ w w' (ok, d') e in
    added-Keeps d d' ok w' 1 0 8 4 (bytes16 (u16 sid)) w₁ e₁

-- An option that succeeds leaves the header itself as it is, and takes no byte away.
pub ip_option-Keeps :
    (fuel : ℕ) (name arg : List ℕ) (d d' : IpData) (ok : Bool) (w w' : World)
    → ip_option fuel name arg d w ≡ done ((ok, d'), w')
    → Keeps d d'
unfolding ip_option
ip_option-Keeps fuel name arg d d' ok w w' e = elim (Bool-cases (streq name (codes "num"))) [
  | inl is_num ↦ num_option-Keeps arg d d' ok w w' (rw is_num at e)
  | inr no_num ↦ elim (Bool-cases (streq name (codes "eol"))) [
    | inl is_eol ↦ added-Keeps d d' ok w' 0 0 0 1 [] w (rw (no_num, is_eol) at e)
    | inr no_eol ↦ elim (Bool-cases (streq name (codes "nop"))) [
      | inl is_nop ↦ added-Keeps d d' ok w' 0 0 1 1 [] w (rw (no_num, no_eol, is_nop) at e)
      | inr no_nop ↦ elim (Bool-cases (streq name (codes "rr"))) [
        | inl is_rr ↦
            route_option-Keeps fuel 0 7 arg d d' ok w w' (rw (no_num, no_eol, no_nop, is_rr) at e)
        | inr no_rr ↦ elim (Bool-cases (streq name (codes "ssr"))) [
          | inl is_ssr ↦
              route_option-Keeps fuel 1 9 arg d d' ok w w'
                (rw (no_num, no_eol, no_nop, no_rr, is_ssr) at e)
          | inr no_ssr ↦ elim (Bool-cases (streq name (codes "lsr"))) [
            | inl is_lsr ↦
                route_option-Keeps fuel 1 3 arg d d' ok w w'
                  (rw (no_num, no_eol, no_nop, no_rr, no_ssr, is_lsr) at e)
            | inr no_lsr ↦ elim (Bool-cases (streq name (codes "ts"))) [
              | inl is_ts ↦
                  stamp_option-Keeps fuel arg d d' ok w w'
                    (rw (no_num, no_eol, no_nop, no_rr, no_ssr, no_lsr, is_ts) at e)
              | inr no_ts ↦ elim (Bool-cases (streq name (codes "sid"))) [
                | inl is_sid ↦
                    sid-Keeps fuel arg d d' ok w w'
                      (rw (no_num, no_eol, no_nop, no_rr, no_ssr, no_lsr, no_ts, is_sid) at e)
                | inr no_sid ↦
                    ground (arith, e, no_num, no_eol, no_nop, no_rr, no_ssr, no_lsr, no_ts, no_sid)
              ]
            ]
          ]
        ]
      ]
    ]
  ]
]

-- An option of the IPv4 module that succeeds leaves header fields that fit their widths if those
-- before did, and takes no byte of the IP options away.
pub do_opt-IsIp :
    (fuel : ℕ) (opt arg : List ℕ) (d d' : IpData) (ok : Bool) (w w' : World)
    → IsIp d.header
    → do_opt fuel opt arg d w ≡ done ((ok, d'), w')
    → IsIp d'.header × (length d.tail ≤ length d'.tail)
unfolding do_opt flag_opt
do_opt-IsIp fuel opt arg d d' ok w w' h e =
    ground (arith, h, ip_option-Keeps fuel (drop 2 opt) arg d d' ok w w')
