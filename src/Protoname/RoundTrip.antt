-- ===== src/Protoname/RoundTrip.antt =====
-- protoname.c: from numbers to names and back.
use sendip.Base.{ℕ, ◌≡◌, arith, List, none, some, true, false}
use sendip.Libc.{streq, first_char, isdigit}
use sendip.World.{done}
use sendip.Protoname.{Protocols, chain_protos, name_of, num_of, proto_to_name, name_to_proto}

-- The names that the table lists first for a number, and what the table says of each.
name_of-num_of :
    (proto : ℕ) (name : List ℕ)
    → name_of proto chain_protos ≡ some name
    → (isdigit (first_char name) ≡ false) × (num_of name chain_protos ≡ some proto)
unfolding name_of chain_protos num_of streq
name_of-num_of proto name e = ground arith

-- Without /etc/protocols, or where it is not to be looked up and does not know the name, a name
-- that `proto_to_name` gives to a number is taken by `name_to_proto` for that number.
pub name_to_proto-proto_to_name :
    (db : Protocols) (proto : ℕ) (name : List ℕ)
    → proto_to_name db proto true ≡ some name
    → db.by_name name ≡ none
    → name_to_proto db name ≡ done proto
unfolding proto_to_name name_to_proto
name_to_proto-proto_to_name db proto name e unknown = ground (arith, name_of-num_of proto name)
