-- ===== src/Rip.antt =====
-- rip.c: RIP packets.
pub mod Fields
pub mod Entries
use sendip.Base.{
  ℕ, ◌+◌, ◌-◌, ◌^◌, List, [], ◌∷◌, ◌++◌, Option, none, some, Bool, true, false, ◌==◌, ltb,
  if◌then◌else◌, length, get_or, take, drop, replicate, u8, u16, u32, htons, bytes16, bytes32,
  from_bytes,
}
use sendip.Base.Flags.{mark}
use sendip.World.{World, Outcome, done, fault, stuck, exits, Exec, pure, ◌>>=◌}
use sendip.Libc.{codes}
use sendip.Args.Number.{opt2intn}
use sendip.Args.Address.{opt2v4}
use sendip.Rip.Fields.{Scan, started, next_field}

pub record RipHeader : Type 0 where
  pub command : ℕ
  pub version : ℕ
  pub res : ℕ

-- `rip_options`
pub record RipEntry : Type 0 where
  pub address_family : ℕ
  pub route_tag : ℕ
  pub address : ℕ
  pub subnet_mask : ℕ
  pub next_hop : ℕ
  pub metric : ℕ

-- The entries stand one behind the other, and RIP_OPTION is the last.
pub record RipPack : Type 0 where
  pub header : RipHeader
  pub entries : List RipEntry
  pub modified : ℕ

abbrev pub rip_mod_command : ℕ
rip_mod_command = 1

abbrev pub rip_mod_version : ℕ
rip_mod_version = 2 ^ 1

abbrev pub rip_mod_reserved : ℕ
rip_mod_reserved = 2 ^ 2

abbrev pub entry_bytes : RipEntry → List ℕ
entry_bytes e =
    bytes16 e.address_family
    ++ (bytes16 e.route_tag
        ++ (bytes32 e.address
            ++ (bytes32 e.subnet_mask ++ (bytes32 e.next_hop ++ bytes32 e.metric))))

abbrev pub entries_bytes : List RipEntry → List ℕ
entries_bytes [] = []
entries_bytes (e ∷ es) = entry_bytes e ++ entries_bytes es

abbrev pub rip_data : RipPack → List ℕ
rip_data d = d.header.command ∷ d.header.version ∷ bytes16 d.header.res ++ entries_bytes d.entries

abbrev pub initialize : RipPack
initialize = record {
  header = record { command = 0; version = 0; res = 0 };
  entries = [];
  modified = 0;
}

abbrev pub marked : ℕ → RipPack → RipPack
marked bit d = record d { modified = mark d.modified bit }

abbrev pub add_entry : RipEntry → RipPack → RipPack
add_entry e d = record d { entries = d.entries ++ (e ∷ []) }

-- The four bytes at `i`.
abbrev pub word_at : ℕ → List ℕ → ℕ
word_at i bytes = from_bytes (take 4 (drop i bytes))

-- `strncpy((char *) &(ripopt->address), p, len)` over zeros, after `len` is cut to 16.
abbrev pub password_entry : ℕ → List ℕ → RipEntry
password_entry type password =
    let bytes = take 16 (take 16 password ++ replicate 16 0) in
    record {
      address_family = 65535;
      route_tag = type;
      address = word_at 0 bytes;
      subnet_mask = word_at 4 bytes;
      next_hop = word_at 8 bytes;
      metric = word_at 12 bytes;
    }

-- `arg == NULL ? "" : arg`
abbrev pub text_of : Option (List ℕ) → List ℕ
text_of none = []
text_of (some s) = s

-- `-ra`: without a bar, the one field is the password.
unfoldable pub auth_entry : ℕ → List ℕ → Exec RipEntry
auth_entry fuel text =
    let (field, s) = next_field (started text) in
    do
      type ← opt2intn fuel (some (if s.c == b'|' then field else codes "2")) 2
      pure (password_entry (u16 type) (if s.c == b'|' then (next_field s).0 else field))

-- `len == 0 ? text : p`
abbrev pub or_default : List ℕ → List ℕ → List ℕ
or_default text field = if length field == 0 then text else field

-- `-re`. Of the last field, the text stands for the metric where it is empty.
unfoldable pub read_entry : ℕ → List ℕ → Exec RipEntry
read_entry fuel text =
    let (family, s₁) = next_field (started text) in
    let (tag, s₂) = next_field s₁ in
    let (address, s₃) = next_field s₂ in
    let (mask, s₄) = next_field s₃ in
    let (hop, s₅) = next_field s₄ in
    let (metric, s₆) = next_field s₅ in
    do
      v₁ ← opt2intn fuel (some (or_default (codes "2") family)) 2
      v₂ ← opt2intn fuel (some (or_default (codes "2") tag)) 2
      v₃ ← opt2v4 fuel (or_default (codes "0.0.0.0") address)
      v₄ ← opt2v4 fuel (or_default (codes "255.255.255.0") mask)
      v₅ ← opt2v4 fuel (or_default (codes "0.0.0.0") hop)
      v₆ ← opt2intn fuel (some (if length metric == 0 then metric else codes "16")) 4
      pure (record {
        address_family = u16 v₁;
        route_tag = u16 v₂;
        address = u32 v₃;
        subnet_mask = u32 v₄;
        next_hop = u32 v₅;
        metric = u32 v₆;
      })

-- `-rd`: `htons((u_int16_t) 16)` goes into the 32 bits of the metric.
abbrev pub request_entry : RipEntry
request_entry = record {
  address_family = 0;
  route_tag = 0;
  address = 0;
  subnet_mask = 0;
  next_hop = 0;
  metric = htons 16;
}

unfoldable pub do_opt : ℕ → List ℕ → Option (List ℕ) → RipPack → Exec (Bool × RipPack)
do_opt fuel opt arg d =
    let c = get_or opt 1 0 in
    if c == b'v'
    then (do
      v ← opt2intn fuel arg 1
      pure
          (true, marked rip_mod_version (record d { header = record d.header { version = u8 v } })))
    else if c == b'c'
    then (do
      v ← opt2intn fuel arg 1
      pure
          (true, marked rip_mod_command (record d { header = record d.header { command = u8 v } })))
    else if c == b'a'
    then (do e ← auth_entry fuel (text_of arg); pure (true, add_entry e d))
    else if c == b'e'
    then (do e ← read_entry fuel (text_of arg); pure (true, add_entry e d))
    else if c == b'd'
    then pure
        (true, add_entry request_entry (record d { header = record d.header { command = 1 } }))
    else if c == b'r'
    then (do
      v ← opt2intn fuel arg 2
      pure (true, marked rip_mod_reserved (record d { header = record d.header { res = u16 v } })))
    else pure (false, d)

-- It but warns where no UDP header is around it.
abbrev pub finalize : RipPack → Bool × RipPack
finalize d = (true, d)
