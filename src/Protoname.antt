-- ===== src/Protoname.antt =====
-- protoname.c: protocol numbers and their names.
pub mod RoundTrip
use sendip.Base.{
  ℕ, List, [], ◌∷◌, Option, none, some, Bool, true, false, ◌&&◌, not, ◌==◌, if◌then◌else◌, u8,
}
use sendip.Libc.{codes, streq, first_char, isdigit, strtoul}
use sendip.World.{Outcome, done, exits}
use sendip.Headers.{
  ipproto_hopopts, ipproto_raw, ipproto_dstopts, ipproto_routing, ipproto_fragment,
}
use sendip.Headers.{ipproto_ah, ipproto_esp, ipproto_none, ipproto_wesp}

-- /etc/protocols: `getprotobyname` and `getprotobynumber`.
pub record Protocols : Type 0 where
  pub by_name : List ℕ → Option ℕ
  pub by_number : ℕ → Option (List ℕ)

unfoldable pub chain_protos : List (List ℕ × ℕ)
chain_protos =
    (codes "hop-by-hop", ipproto_hopopts)
    ∷ (codes "protocol", ipproto_raw)
    ∷ (codes "hop", ipproto_hopopts)
    ∷ (codes "dst", ipproto_dstopts)
    ∷ (codes "route", ipproto_routing)
    ∷ (codes "frag", ipproto_fragment)
    ∷ (codes "auth", ipproto_ah)
    ∷ (codes "esp", ipproto_esp)
    ∷ (codes "none", ipproto_none)
    ∷ (codes "prot", ipproto_raw)
    ∷ (codes "wesp", ipproto_wesp)
    ∷ (codes "0", ipproto_hopopts)
    ∷ (codes "60", ipproto_dstopts)
    ∷ (codes "43", ipproto_routing)
    ∷ (codes "44", ipproto_fragment)
    ∷ (codes "51", ipproto_ah)
    ∷ (codes "50", ipproto_esp)
    ∷ (codes "59", ipproto_none)
    ∷ (codes "141", ipproto_wesp)
    ∷ (codes "255", ipproto_raw)
    ∷ []

unfoldable pub name_of : ℕ → List (List ℕ × ℕ) → Option (List ℕ)
name_of proto [] = none
name_of proto ((name, num) ∷ table) = if num == proto then some name else name_of proto table

unfoldable pub num_of : List ℕ → List (List ℕ × ℕ) → Option ℕ
unfolding streq
num_of s [] = none
num_of s ((name, num) ∷ table) = if streq s name then some num else num_of s table

-- `db` is consulted only if `nolookup` is false.
unfoldable pub proto_to_name : Protocols → ℕ → Bool → Option (List ℕ)
unfolding name_of chain_protos
proto_to_name db proto nolookup =
    let listed = name_of proto chain_protos in
    if not (proto == 0) && not nolookup
    then elim (db.by_number proto) [ some name ↦ some name | none ↦ listed ]
    else listed

-- An unknown name ends the program.
unfoldable pub name_to_proto : Protocols → List ℕ → Outcome ℕ
unfolding num_of chain_protos strtoul
name_to_proto db s =
    if isdigit (first_char s) then done (u8 (strtoul s 0)) else elim (db.by_name s) [
      | some proto ↦ done (u8 proto)
      | none ↦ elim (num_of s chain_protos) [ some proto ↦ done (u8 proto) | none ↦ exits ]
    ]
