-- ===== src/Gre/Layout.antt =====
-- gre.c: the order that RFC 1701 gives the optional words.
use sendip.Base.{ℕ, ◌≡◌, ◌⊎◌, List, [], ◌∷◌, Option, none, some, Bool, true, false}
use sendip.Base.Flags.{has}
use sendip.Gre.{
  GreData, gre_csum, gre_routing, gre_key, gre_seq, gre_mod_key, gre_mod_sequence, gre_mod_routing,
}

-- The optional words of a header: checksum with offset, key, sequence number, routing.
pub data Fields : Type 0 where
  fields : (csum key seq routing : Option ℕ) → Fields

abbrev pub word : Option ℕ → List ℕ → List ℕ
word none rest = rest
word (some v) rest = v ∷ rest

abbrev pub is_there : Option ℕ → Bool
is_there none = false
is_there (some v) = true

-- The flags tell which words are there, these stand in order, one word without meaning follows, and
-- a routing field comes with a checksum.
pub record Lays (csum key seq routing : Option ℕ) (d : GreData) : Type 0 where
  pub csum_flag : has d.header.gre_flag gre_csum ≡ is_there csum
  pub key_flag : has d.header.gre_flag gre_key ≡ is_there key
  pub seq_flag : has d.header.gre_flag gre_seq ≡ is_there seq
  pub routing_flag : has d.header.gre_flag gre_routing ≡ is_there routing
  pub last : ℕ
  pub info : d.header.gre_info ≡ word csum (word key (word seq (word routing (last ∷ []))))
  pub with_csum : (routing ≡ none) ⊎ (is_there csum ≡ true)

-- An option for one of the fields behind the checksum.
pub data Field : Type 0 where
  key seq routing : Field

abbrev pub char_of : Field → ℕ
char_of key = b'k'
char_of seq = b's'
char_of routing = b'r'

abbrev pub flag_of : Field → ℕ
flag_of key = gre_key
flag_of seq = gre_seq
flag_of routing = gre_routing

abbrev pub bit_of : Field → ℕ
bit_of key = gre_mod_key
bit_of seq = gre_mod_sequence
bit_of routing = gre_mod_routing

abbrev pub with_field : Field → ℕ → Fields → Fields
with_field key v (fields c k s r) = fields c (some v) s r
with_field seq v (fields c k s r) = fields c k (some v) r
with_field routing v (fields c k s r) = fields c k s (some v)

abbrev pub FitsFields : Fields → GreData → Type 0
FitsFields (fields c k s r) d = Lays c k s r d

abbrev pub has_csum : Fields → Bool
has_csum (fields c k s r) = is_there c
