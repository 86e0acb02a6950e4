-- ===== src/Ripng.antt =====
-- ripng.c: RIPng packets.
pub mod Entries
use sendip.Base.{
  ℕ, ◌+◌, ◌^◌, List, [], ◌∷◌, ◌++◌, Option, none, some, Bool, true, false, ◌==◌, if◌then◌else◌,
  length, get_or, replicate, u8, u16, htons, bytes16,
}
use sendip.Base.Flags.{mark}
use sendip.World.{World, Outcome, done, fault, stuck, exits, Exec, pure, ◌>>=◌}
use sendip.Args.Number.{opt2intn, opt2inth}
use sendip.Rip.{text_of}
use sendip.Rip.Fields.{started, next_field}

pub record RipngHeader : Type 0 where
  pub command : ℕ
  pub version : ℕ
  pub res : ℕ

-- `ripng_entry`, with the sixteen bytes of the prefix.
pub record RipngEntry : Type 0 where
  pub prefix : List ℕ
  pub tag : ℕ
  pub len : ℕ
  pub metric : ℕ

-- The entries stand one behind the other, and RIPNG_ENTRY is the last.
pub record RipngPack : Type 0 where
  pub header : RipngHeader
  pub entries : List RipngEntry
  pub modified : ℕ

abbrev pub ripng_mod_command : ℕ
ripng_mod_command = 1

abbrev pub ripng_mod_version : ℕ
ripng_mod_version = 2 ^ 1

abbrev pub ripng_mod_reserved : ℕ
ripng_mod_reserved = 2 ^ 2

abbrev pub entry_bytes : RipngEntry → List ℕ
entry_bytes e = e.prefix ++ (bytes16 e.tag ++ (e.len ∷ e.metric ∷ []))

abbrev pub entries_bytes : List RipngEntry → List ℕ
entries_bytes [] = []
entries_bytes (e ∷ es) = entry_bytes e ++ entries_bytes es

abbrev pub ripng_data : RipngPack → List ℕ
ripng_data d = d.header.command ∷ d.header.version ∷ bytes16 d.header.res ++ entries_bytes d.entries

abbrev pub in6addr_any : List ℕ
in6addr_any = replicate 16 0

abbrev pub in6addr_loopback : List ℕ
in6addr_loopback = replicate 15 0 ++ (1 ∷ [])

-- `gethostbyname2` gives the bytes at `h_addr`, `h_length` of them.
unfoldable pub inet6_addr : (List ℕ → Option (List ℕ)) → Option (List ℕ) → List ℕ
inet6_addr gethostbyname2 none = in6addr_any
inet6_addr gethostbyname2 (some hostname) = elim (gethostbyname2 hostname) [
  | none ↦ in6addr_loopback
  | some addr ↦ if length addr == 16 then addr else in6addr_loopback
]

abbrev pub initialize : RipngPack
initialize = record {
  header = record { command = 0; version = 0; res = 0 };
  entries = [];
  modified = 0;
}

abbrev pub marked : ℕ → RipngPack → RipngPack
marked bit d = record d { modified = mark d.modified bit }

abbrev pub add_entry : RipngEntry → RipngPack → RipngPack
add_entry e d = record d { entries = d.entries ++ (e ∷ []) }

-- `len == 0 ? NULL : p`
abbrev pub or_null : List ℕ → Option (List ℕ)
or_null [] = none
or_null (c ∷ p) = some (c ∷ p)

-- `len == 0 ? value : …`
abbrev pub or_value : ℕ → (List ℕ → Exec ℕ) → List ℕ → Exec ℕ
or_value value read [] = pure value
or_value value read (c ∷ p) = read (c ∷ p)

-- `-Re`
unfoldable pub read_entry : (List ℕ → Option (List ℕ)) → ℕ → List ℕ → Exec RipngEntry
read_entry gethostbyname2 fuel text =
    let (prefix, s₁) = next_field (started text) in
    let (tag, s₂) = next_field s₁ in
    let (len, s₃) = next_field s₂ in
    let (metric, s₄) = next_field s₃ in
    do
      v₁ ← or_value 0 (λ p. opt2intn fuel (some p) 2) tag
      v₂ ← or_value 128 (λ p. opt2inth fuel (some p) 1) len
      v₃ ← or_value 16 (λ p. opt2inth fuel (some p) 1) metric
      pure (record {
        prefix = inet6_addr gethostbyname2 (or_null prefix);
        tag = u16 v₁;
        len = u8 v₂;
        metric = u8 v₃;
      })

-- `-Rd`: the metric keeps the low 8 bits of `htons((u_int16_t) 16)`.
abbrev pub request : RipngPack → RipngPack
request d =
    add_entry (record { prefix = in6addr_any; tag = 0; len = 0; metric = u8 (htons 16) })
      (marked ripng_mod_reserved (
        marked ripng_mod_version (
          marked ripng_mod_command
            (record d { header = record { command = 1; version = 1; res = 0 } }))))

unfoldable pub do_opt :
    (List ℕ → Option (List ℕ)) → ℕ → List ℕ → Option (List ℕ) → RipngPack → Exec (Bool × RipngPack)
do_opt gethostbyname2 fuel opt arg d =
    let c = get_or opt 1 0 in
    if c == b'v'
    then (do
      v ← opt2inth fuel arg 1
      pure (
        true,
        marked ripng_mod_version (record d { header = record d.header { version = u8 v } }),
      ))
    else if c == b'c'
    then (do
      v ← opt2inth fuel arg 1
      pure (
        true,
        marked ripng_mod_command (record d { header = record d.header { command = u8 v } }),
      ))
    else if c == b'r'
    then (do
      v ← opt2intn fuel arg 2
      pure
          (true, marked ripng_mod_reserved (record d { header = record d.header { res = u16 v } })))
    else if c == b'e'
    then (do e ← read_entry gethostbyname2 fuel (text_of arg); pure (true, add_entry e d))
    else if c == b'd'
    then pure (true, request d)
    else pure (true, d)

-- It but warns where no UDP header is around it.
abbrev pub finalize : RipngPack → Bool × RipngPack
finalize d = (true, d)
