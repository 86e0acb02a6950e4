-- ===== src/Examples/Payloads.antt =====
-- SCTP and ESP, on concrete input.
use sendip.Base.{
  ℕ, ◌+◌, ◌%◌, ◌<◌, ◌≡◌, inl, inr, refl, ◌∙◌, replicate, arith, List, [], ◌∷◌, ◌++◌, none, some,
  true, false, bytes32,
}
use sendip.Base.Flags.{has, has-zero, has-mark}
use sendip.World.{done, fault}
use sendip.Libc.{codes, strtoul}
use sendip.Args.Number.{opt2intn, direct_intn}
use sendip.Crc.{crc32, crc_loop, crc_step, crc_c}
use sendip.Crc.Bitwise.{crc32c}
use sendip.Crc.Table.{crc32-crc32c}
use sendip.Sctp
use sendip.Sctp.{SctpPack}
use sendip.Sctp.Options as SctpOptions
use sendip.Sctp.Chunks.{adaptation, do_opt-overruns}
use sendip.Sctp.Checksum.{finalize-crc32c}
use sendip.Protoname.{Protocols}
use sendip.Args.Value.{opt2val, direct_val}
use sendip.Args.Stream.{str2val}
use sendip.Esp
use sendip.Esp.{EspState, EspPrivate}
use sendip.Esp.Finalize as EspFinalize
use sendip.Esp.Layout.{plain_packet, Leaves, finalize-Leaves}
use sendip.Esp.Xor.{xor_module, espcrypto, finalize-espcrypto}
use sendip.Examples.{idle, frame}

crc32-crc32c_example : crc32 (codes "123456789") ≡ crc32c (codes "123456789")
crc32-crc32c_example = crc32-crc32c (codes "123456789") (ground arith)

-- The check value of CRC32c.
crc32_check : crc32 (codes "123456789") ≡ 3808858755
unfolding crc32 crc_loop crc_step crc_c
crc32_check = refl

abbrev no_db : Protocols
no_db = record { by_name = λ s. none; by_number = λ n. none }

abbrev heap : ℕ → ℕ
heap i = 165

-- After `-sT 1`: a chunk header of type 1 and length 4, which is the current chunk.
abbrev one_chunk : SctpPack
one_chunk = record {
  data' = Sctp.initialize.data' ++ (1 ∷ 0 ∷ 0 ∷ 4 ∷ []);
  modified = 0;
  currentchunk = some 12;
}

do_opt-overruns_example :
    SctpOptions.do_opt (λ s. none) (λ s. none) heap 9 (codes "sY") (codes "7") one_chunk idle
    ≡ fault
unfolding opt2intn direct_intn strtoul
do_opt-overruns_example =
    do_opt-overruns (λ s. none) (λ s. none) heap 9 (codes "sY") (codes "7") adaptation one_chunk
      idle refl (inr (12, refl, omega arith, refl)) (117440512, idle, refl)

finalize-crc32c_example : Sctp.finalize Sctp.initialize ≡ (
  true,
  record Sctp.initialize {
    data' = 0 ∷ 0 ∷ 0 ∷ 0 ∷ 0 ∷ 0 ∷ 0 ∷ 0 ∷ bytes32 (crc32c Sctp.initialize.data') ++ [];
  },
)
finalize-crc32c_example =
    finalize-crc32c (0 ∷ 0 ∷ 0 ∷ 0 ∷ 0 ∷ 0 ∷ 0 ∷ 0 ∷ []) [] Sctp.initialize refl refl (ground arith)
      (has-zero 8)

-- After `-ei abcd`, whose four bytes stand in front of the padding.
abbrev with_iv : EspState
with_iv = record {
  pack = record {
    data' = replicate 12 0 ++ (codes "abcd" ++ replicate 4 165);
    modified = 16;
    private = record Esp.initialize.private { ivlen = 4 };
  };
  authesp = none;
  cryptoesp = none;
}

with_iv_run :
    Esp.pack_opt no_db heap 9 (codes "ei") (codes "abcd") Esp.initialize idle
    ≡ done ((true, with_iv.pack), idle)
unfolding Esp.pack_opt Esp.put_iv Esp.copied opt2val direct_val str2val
with_iv_run = refl

no_padding : has 16 4 ≡ false
no_padding = has-mark 0 4 2 ∙ has-zero 4

finalize-Leaves_example : Leaves frame (b'e' ∷ b't' ∷ []) 0 (1 ∷ 2 ∷ 3 ∷ []) with_iv
finalize-Leaves_example =
    finalize-Leaves frame (b'e' ∷ b't' ∷ []) 0 (1 ∷ 2 ∷ 3 ∷ []) with_iv no_padding
      (record { iv = omega arith; icv = inl refl })

-- After `-ei a` and `-eI xy`, with the byte 85 as the key.
abbrev keyed : EspState
keyed = record {
  pack = record {
    data' = replicate 12 0 ++ (codes "a" ++ (0 ∷ 0 ∷ 0 ∷ codes "xy" ++ (165 ∷ [])));
    modified = 48;
    private = record Esp.initialize.private { ivlen = 1; icvlen = 2; key = 85 ∷ [] };
  };
  authesp = none;
  cryptoesp = some xor_module;
}

finalize-espcrypto_example :
    (pad type : ℕ) × (packet : List ℕ) × (pad < 4)
    × ((1 + 3 + pad + 2) % 4 ≡ 0)
    × (EspFinalize.finalize frame (b'e' ∷ b't' ∷ []) 0 (1 ∷ 2 ∷ 3 ∷ []) keyed ≡ done (true, packet))
    × (espcrypto keyed.pack.private packet
        ≡ (true, plain_packet keyed.pack (1 ∷ 2 ∷ 3 ∷ []) pad type))
finalize-espcrypto_example =
    finalize-espcrypto frame (b'e' ∷ b't' ∷ []) 0 (1 ∷ 2 ∷ 3 ∷ []) keyed refl refl
      (has-mark 16 5 2 ∙ no_padding) (record { iv = omega arith; icv = inr (omega arith) })
