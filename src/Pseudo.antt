-- ===== src/Pseudo.antt =====
-- The IPv6 pseudo header of a checksum, as RFC 8200 has it, and the sums over addresses.
use sendip.Base.{ℕ, ◌+◌, ◌-◌, ◌/◌, ◌%◌, ◌^◌, ◌≤◌, ◌≡◌, arith, List, [], ◌∷◌, ◌++◌}
use sendip.Base.{length, length-append, All, All-append, IsByte}
use sendip.Csum.Sum.{IsBlock, word_sum, word_sum-append}
use sendip.Pack.{Ip6Header, IsIp6}

-- The pseudo header of RFC 8200: addresses, the length in network order, and the next header.
abbrev pub rfc_pseudo6 : Ip6Header → ℕ → ℕ → List ℕ
rfc_pseudo6 h len next =
    h.ip6_src
    ++ (h.ip6_dst
        ++ (len / 16777216 % 256
            ∷ len / 65536 % 256
            ∷ len / 256 % 256
            ∷ len % 256
            ∷ 0
            ∷ 0
            ∷ 0
            ∷ next
            ∷ []))

-- The sum of eight bytes behind the addresses, and of what follows.
pub word_sum-pseudo6 :
    (h : Ip6Header) (eight more : List ℕ)
    → IsIp6 h
    → length eight ≡ 8
    → word_sum ((h.ip6_src ++ (h.ip6_dst ++ eight)) ++ more)
      ≡ word_sum h.ip6_src + word_sum h.ip6_dst + word_sum eight + word_sum more
word_sum-pseudo6 h eight more w e = omega (
  arith,
  word_sum-append (h.ip6_src ++ (h.ip6_dst ++ eight)) more (
      omega (
        arith,
        w.ip6_src.1,
        w.ip6_dst.1,
        length-append h.ip6_src (h.ip6_dst ++ eight),
        length-append h.ip6_dst eight,
      )),
  word_sum-append h.ip6_src (h.ip6_dst ++ eight) (omega (arith, w.ip6_src.1)),
  word_sum-append h.ip6_dst eight (omega (arith, w.ip6_dst.1)),
)

pub pseudo6-IsBlock :
    (h : Ip6Header) (eight more : List ℕ)
    → IsIp6 h
    → length eight ≡ 8
    → All IsByte eight
    → All IsByte more
    → length more ≤ 2 ^ 31 - 40
    → IsBlock ((h.ip6_src ++ (h.ip6_dst ++ eight)) ++ more)
pseudo6-IsBlock h eight more w e he hm short = (
  All-append IsByte (h.ip6_src ++ (h.ip6_dst ++ eight)) more
      (All-append IsByte h.ip6_src (h.ip6_dst ++ eight) w.ip6_src.0
        (All-append IsByte h.ip6_dst eight w.ip6_dst.0 he))
      hm,
  omega (
    arith,
    w.ip6_src.1,
    w.ip6_dst.1,
    length-append (h.ip6_src ++ (h.ip6_dst ++ eight)) more,
    length-append h.ip6_src (h.ip6_dst ++ eight),
    length-append h.ip6_dst eight,
  ),
)
