-- ===== src/Libc.antt =====
-- The functions of the C library that parseargs.c, protoname.c and the modules call, in the C
-- locale. A C string is the list of its characters (1 to 255) without the final '\0'.
use Prim.Native.Char.{code}
use Prim.Native.String.{String}
use sendip.Base.{ℕ, zero, suc, ◌+◌, ◌-◌, ◌*◌, ◌%◌, ◌^◌, min, List, [], ◌∷◌}
use sendip.Base.{Bool, true, false, ◌&&◌, ◌||◌, ltb, leb, ◌==◌, if◌then◌else◌, Option, none, some}
use sendip.Base.{u32}

-- The characters of an ASCII text of the source.
abbrev pub codes : String → List ℕ
codes String.[] = []
codes (String.◌∷◌ c s) = code c ∷ codes s

-- `strcmp(s, t) == 0`
unfoldable pub streq : List ℕ → List ℕ → Bool
streq [] [] = true
streq [] (d ∷ t) = false
streq (c ∷ s) [] = false
streq (c ∷ s) (d ∷ t) = c == d && streq s t

-- `*s`
abbrev pub first_char : List ℕ → ℕ
first_char [] = 0
first_char (c ∷ s) = c

-- `s + 1`, for a string that is not empty.
abbrev pub rest_of : List ℕ → List ℕ
rest_of [] = []
rest_of (c ∷ s) = s

abbrev pub isdigit : ℕ → Bool
isdigit c = leb b'0' c && leb c b'9'

abbrev pub isspace : ℕ → Bool
isspace c = c == 32 || (leb 9 c && leb c 13)

-- `strchr(s, c) != NULL`: the final '\0' counts.
unfoldable pub has_char : List ℕ → ℕ → Bool
has_char [] c = c == 0
has_char (d ∷ s) c = d == c || has_char s c

-- What stands before and behind the first `c` of the string, as `strchr` finds it.
abbrev pub keep_char : ℕ → Option (List ℕ × List ℕ) → Option (List ℕ × List ℕ)
keep_char d none = none
keep_char d (some (a, b)) = some (d ∷ a, b)

unfoldable pub split_at : ℕ → List ℕ → Option (List ℕ × List ℕ)
split_at c [] = none
split_at c (d ∷ s) =
    let later = keep_char d (split_at c s) in if d == c then some ([], s) else later

-- The value of a digit in any base; 36 for what is none.
abbrev pub digit_value : ℕ → ℕ
digit_value c =
    if isdigit c
    then c - b'0'
    else if leb b'a' c && leb c b'z'
    then c - b'a' + 10
    else if leb b'A' c && leb c b'Z'
    then c - b'A' + 10
    else 36

unfoldable pub digits_from : ℕ → ℕ → List ℕ → ℕ
digits_from base acc [] = acc
digits_from base acc (c ∷ s) =
    let rest = digits_from base (acc * base + digit_value c) s in
    if ltb (digit_value c) base then rest else acc

unfoldable pub skip_spaces : List ℕ → List ℕ
skip_spaces [] = []
skip_spaces (c ∷ s) = if isspace c then skip_spaces s else c ∷ s

-- The base that base 0 stands for, and the digits.
abbrev pub detect_base : List ℕ → ℕ × List ℕ
detect_base (z ∷ x ∷ d ∷ s) =
    if z == b'0' && (x == b'x' || x == b'X') && ltb (digit_value d) 16
    then (16, d ∷ s)
    else if z == b'0'
    then (8, z ∷ x ∷ d ∷ s)
    else (10, z ∷ x ∷ d ∷ s)
detect_base s = if first_char s == b'0' then (8, s) else (10, s)

-- The magnitude of a number without sign, before it is cut to a width.
unfoldable pub magnitude : ℕ → List ℕ → ℕ
unfolding digits_from
magnitude zero s = let (base, t) = detect_base s in digits_from base 0 t
magnitude (suc b) s = digits_from (suc b) 0 s

-- The sign, and the magnitude behind it.
unfoldable pub signed_magnitude : ℕ → List ℕ → Bool × ℕ
unfolding magnitude
signed_magnitude base [] = (false, 0)
signed_magnitude base (c ∷ s) =
    if c == b'-'
    then (true, magnitude base s)
    else if c == b'+'
    then (false, magnitude base s)
    else (false, magnitude base (c ∷ s))

abbrev pub ulong_max : ℕ
ulong_max = 2 ^ 64 - 1

-- ULONG_MAX where the magnitude does not fit; a negative number wraps.
unfoldable pub strtoul : List ℕ → ℕ → ℕ
unfolding signed_magnitude skip_spaces
strtoul s base =
    let (negative, v) = signed_magnitude base (skip_spaces s) in
    if ltb ulong_max v then ulong_max else if negative then (2 ^ 64 - v) % 2 ^ 64 else v

-- `strtol` cut to the 32 bits of an `int`.
unfoldable pub strtol_int : List ℕ → ℕ → ℕ
unfolding signed_magnitude skip_spaces
strtol_int s base =
    let (negative, v) = signed_magnitude base (skip_spaces s) in
    if negative then u32 (2 ^ 64 - min v (2 ^ 63)) else u32 (min v (2 ^ 63 - 1))

unfoldable pub atoi : List ℕ → ℕ
unfolding strtol_int
atoi s = strtol_int s 10

-- What `%u` of `sscanf` reads, as an `unsigned int`, and what it leaves; it wants a digit.
unfoldable pub drop_digits : List ℕ → List ℕ
drop_digits [] = []
drop_digits (c ∷ s) = if isdigit c then drop_digits s else c ∷ s

abbrev pub unsigned_int : Bool → ℕ → ℕ
unsigned_int negative v =
    if ltb ulong_max v then u32 ulong_max else if negative then u32 (2 ^ 64 - v) else u32 v

unfoldable pub scan_digits : Bool → List ℕ → Option (ℕ × List ℕ)
unfolding digits_from drop_digits
scan_digits negative s =
    if isdigit (first_char s)
    then some (unsigned_int negative (digits_from 10 0 s), drop_digits s)
    else none

unfoldable pub scan_unsigned : List ℕ → Option (ℕ × List ℕ)
unfolding scan_digits skip_spaces
scan_unsigned s =
    let t = skip_spaces s in
    if first_char t == b'-'
    then scan_digits true (rest_of t)
    else if first_char t == b'+'
    then scan_digits false (rest_of t)
    else scan_digits false t
