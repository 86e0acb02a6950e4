-- ===== src/Headers.antt =====
-- headers.c: option characters and protocol numbers, and the search for enclosing headers.
pub mod Search
use sendip.Base.{ℕ, zero, suc, ◌+◌, List, [], ◌∷◌, Option, none, some, Bool, true, false}
use sendip.Base.{◌==◌, if◌then◌else◌, get_or, drop}
use sendip.Libc.{has_char}

abbrev pub ipproto_hopopts : ℕ
ipproto_hopopts = 0

abbrev pub ipproto_icmp : ℕ
ipproto_icmp = 1

abbrev pub ipproto_ipip : ℕ
ipproto_ipip = 4

abbrev pub ipproto_tcp : ℕ
ipproto_tcp = 6

abbrev pub ipproto_udp : ℕ
ipproto_udp = 17

abbrev pub ipproto_ipv6 : ℕ
ipproto_ipv6 = 41

abbrev pub ipproto_routing : ℕ
ipproto_routing = 43

abbrev pub ipproto_fragment : ℕ
ipproto_fragment = 44

abbrev pub ipproto_gre : ℕ
ipproto_gre = 47

abbrev pub ipproto_esp : ℕ
ipproto_esp = 50

abbrev pub ipproto_ah : ℕ
ipproto_ah = 51

abbrev pub ipproto_icmpv6 : ℕ
ipproto_icmpv6 = 58

abbrev pub ipproto_none : ℕ
ipproto_none = 59

abbrev pub ipproto_dstopts : ℕ
ipproto_dstopts = 60

abbrev pub ipproto_sctp : ℕ
ipproto_sctp = 132

abbrev pub ipproto_wesp : ℕ
ipproto_wesp = 141

abbrev pub ipproto_raw : ℕ
ipproto_raw = 255

-- The table up to the entry '\0', where the search stops.
unfoldable pub sendip_headers : List (ℕ × ℕ)
sendip_headers =
    (b'H', ipproto_hopopts)
    ∷ (b'F', ipproto_fragment)
    ∷ (b'g', ipproto_gre)
    ∷ (b'e', ipproto_esp)
    ∷ (b'a', ipproto_ah)
    ∷ (b'c', ipproto_icmpv6)
    ∷ (b't', ipproto_tcp)
    ∷ (b'u', ipproto_udp)
    ∷ (b'i', ipproto_ipip)
    ∷ (b'6', ipproto_ipv6)
    ∷ (b'd', ipproto_dstopts)
    ∷ (b'o', ipproto_routing)
    ∷ (b's', ipproto_sctp)
    ∷ (b'w', ipproto_wesp)
    ∷ []

unfoldable pub find_type : ℕ → List (ℕ × ℕ) → ℕ
find_type c [] = ipproto_none
find_type c ((opt_char, ipproto) ∷ table) = if c == opt_char then ipproto else find_type c table

unfoldable pub header_type : ℕ → ℕ
unfolding find_type sendip_headers
header_type hdr_char = find_type hdr_char sendip_headers

-- The loop from `index - 1` down; -1 is `none`.
unfoldable pub outer_header : List ℕ → ℕ → List ℕ → Option ℕ
outer_header hdrs zero choices = none
outer_header hdrs (suc i) choices =
    let further = outer_header hdrs i choices in
    if has_char choices (get_or hdrs i 0) then some i else further

-- `off_end` is a read behind the array, which no '\0' ended.
pub data Scan : Type 0 where
  found : ℕ → Scan
  absent off_end : Scan

unfoldable pub inner_loop : ℕ → List ℕ → List ℕ → Scan
inner_loop i [] choices = off_end
inner_loop i (c ∷ hdrs) choices =
    let further = inner_loop (i + 1) hdrs choices in
    if c == 0 then absent else if has_char choices c then found i else further

unfoldable pub inner_header : List ℕ → ℕ → List ℕ → Scan
unfolding inner_loop
inner_header hdrs index choices = inner_loop (index + 1) (drop (index + 1) hdrs) choices
