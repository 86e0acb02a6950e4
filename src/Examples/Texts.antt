-- ===== src/Examples/Texts.antt =====
-- Arguments, files and names, on concrete input.
use sendip.Base.{ℕ, ◌+◌, ◌≡◌, ◌≢◌, ◌⊎◌, refl, arith, List, [], ◌∷◌, Option, none, some}
use sendip.Base.{take, min, get_or, ◌%◌}
use sendip.Libc.{codes, strtol_int}
use sendip.World.{World, FileCache, done, fault}
use sendip.Fargs.{fileargument, fc_create, tfind, fcmp}
use sendip.Fargs.Cursor.{skip_lines, fileargument_round, IsWellFormed, fileargument-IsWellFormed}
use sendip.Fargs.Lines.{text, fc_create-text}
use sendip.Args.Stream.{str2val}
use sendip.Args.Stream.Hex.{to_hex, str2val-to_hex}
use sendip.Args.Stream.Octal.{quad_text, quad_bytes, str2val-quad_text}
use sendip.Args.Stream.Bounds.{KeepsTo, str2val-KeepsTo}
use sendip.Args.Address.{cidr2addr}
use sendip.Args.Address.Cidr.{cidr2addr_31}
use sendip.Args.Split.{parseargs}
use sendip.Args.Split.Words.{read_args, words, parseargs-words}
use sendip.Headers.{outer_header}
use sendip.Headers.Search.{IsNearest, outer_header-IsNearest}
use sendip.Protoname.{Protocols, name_to_proto, proto_to_name}
use sendip.Protoname.RoundTrip.{name_to_proto-proto_to_name}
use sendip.Examples.{idle}

abbrev ports : FileCache
ports = record { path = codes "p"; lines = codes "80" ∷ codes "443" ∷ []; idx = 1 }

abbrev cached : World
cached = record idle { root = ports ∷ [] }

abbrev with_file : World
with_file = record idle { disk = λ p. some (text (codes "80" ∷ codes "443" ∷ [])) }

fileargument_round_example :
    (w' w'' : World) × (skip_lines 2 (codes "p") cached ≡ done w')
    × (fileargument (codes "p") w' ≡ done (some (get_or ports.lines ((1 + 2) % 2) []), w''))
unfolding tfind fcmp
fileargument_round_example = fileargument_round 2 (codes "p") ports cached refl (omega arith)

fileargument-IsWellFormed_example :
    ((r : Option (List ℕ)) × (w' : World) × (fileargument (codes "p") cached ≡ done (r, w'))
      × IsWellFormed w')
    ⊎ ((fileargument (codes "p") cached ≡ fault)
        × (tfind (codes "p") cached.root ≡ none)
        × (f : FileCache) × (fc_create cached (codes "p") ≡ some f)
        × (f.lines ≡ []))
fileargument-IsWellFormed_example = fileargument-IsWellFormed (codes "p") cached (omega arith)

fc_create-text_example :
    fc_create with_file (codes "p")
    ≡ some (record { path = codes "p"; lines = codes "80" ∷ codes "443" ∷ []; idx = 0 })
fc_create-text_example =
    fc_create-text with_file (codes "p") (codes "80" ∷ codes "443" ∷ []) refl (ground arith)

str2val-to_hex_example :
    str2val (b'0' ∷ b'x' ∷ to_hex (222 ∷ 173 ∷ 7 ∷ [])) 2
    ≡ record { written = take 2 (222 ∷ 173 ∷ 7 ∷ []); count = min 2 3 }
str2val-to_hex_example = str2val-to_hex (222 ∷ 173 ∷ 7 ∷ []) 2 (omega arith)

str2val-quad_text_example :
    str2val (b'0' ∷ quad_text ((0, 3, 7, 7) ∷ [])) 8
    ≡ record { written = take 8 (quad_bytes ((0, 3, 7, 7) ∷ [])); count = min 8 1 }
str2val-quad_text_example = str2val-quad_text ((0, 3, 7, 7) ∷ []) 8 (omega arith)

str2val-KeepsTo_example : KeepsTo 2 (codes "abc") (str2val (codes "abc") 2)
str2val-KeepsTo_example = str2val-KeepsTo (codes "abc") 2

cidr2addr_31_example : cidr2addr 9 (codes "10.0.0.0/31") (codes "31") idle ≢ done (167772161, idle)
unfolding strtol_int
cidr2addr_31_example = cidr2addr_31 9 (codes "10.0.0.0/31") (codes "31") 167772161 idle idle refl

parseargs-words_example : read_args (parseargs none (codes "a  bc")) ≡ words none (codes "a  bc")
parseargs-words_example = parseargs-words none (codes "a  bc") (ground arith)

outer_header-IsNearest_example :
    IsNearest (codes "i6u") 2 (codes "i6") (outer_header (codes "i6u") 2 (codes "i6"))
outer_header-IsNearest_example = outer_header-IsNearest (codes "i6u") 2 (codes "i6")

abbrev no_db : Protocols
no_db = record { by_name = λ s. none; by_number = λ n. none }

name_to_proto-proto_to_name_example : name_to_proto no_db (codes "frag") ≡ done 44
unfolding proto_to_name
name_to_proto-proto_to_name_example = name_to_proto-proto_to_name no_db 44 (codes "frag") refl refl
