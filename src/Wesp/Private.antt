-- ===== src/Wesp/Private.antt =====
-- wesp.c: where finalize reads the private data of the header behind.
use sendip.Base.{ℕ, ◌≡◌, Bool, true, false, not, ◌&&◌, ◌==◌}
use sendip.Base.Flags.{has}
use sendip.Wesp.{WespData, Behind, null, esp, other}

abbrev pub is_esp : Behind → Bool
is_esp null = false
is_esp (esp p) = true
is_esp other = false

-- The field is to be filled from private data that are not there.
abbrev pub blocked : ℕ → Behind → WespData → Bool
blocked bit behind d =
    not (has d.modified bit) && ((d.header.encrypted == 0) && not (is_esp behind))

-- What finalize does not touch.
abbrev pub Keeps : WespData → WespData → Type 0
Keeps d d' =
    (d'.modified ≡ d.modified) × (d'.tail ≡ d.tail) × (d'.header.encrypted ≡ d.header.encrypted)
