-- ===== src/Base/Words.antt =====
-- Casts to the fixed widths and the byte order conversions of a little-endian machine.
use Prim.Native.Nat.{ℕ, ◌+◌, ◌*◌, ◌/◌, ◌%◌, ◌^◌}
use mathlib.Core.List.{List, [], ◌∷◌}

abbrev pub u8 : ℕ → ℕ
u8 n = n % 2 ^ 8

abbrev pub u16 : ℕ → ℕ
u16 n = n % 2 ^ 16

abbrev pub u32 : ℕ → ℕ
u32 n = n % 2 ^ 32

abbrev pub u64 : ℕ → ℕ
u64 n = n % 2 ^ 64

-- The bytes of a `u_int16_t` and of a `u_int32_t` in memory.
abbrev pub bytes16 : ℕ → List ℕ
bytes16 v = v % 256 ∷ v / 256 % 256 ∷ []

abbrev pub bytes32 : ℕ → List ℕ
bytes32 v = v % 256 ∷ v / 256 % 256 ∷ v / 65536 % 256 ∷ v / 16777216 % 256 ∷ []

-- `htons` and `ntohs`; `htonl` and `ntohl`.
abbrev pub htons : ℕ → ℕ
htons v = v % 256 * 256 + v / 256 % 256

abbrev pub htonl : ℕ → ℕ
htonl v = v % 256 * 16777216 + v / 256 % 256 * 65536 + v / 65536 % 256 * 256 + v / 16777216 % 256

-- The number that bytes in memory stand for.
abbrev pub from_bytes : List ℕ → ℕ
from_bytes [] = 0
from_bytes (b ∷ bytes) = b + 256 * from_bytes bytes
