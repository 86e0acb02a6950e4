-- ===== src/Sctp/Checksum.antt =====
-- sctp.c: the checksum.
use sendip.Base.{
  ℕ, ◌≡◌, ap, sym, ◌∙◌, List, ◌∷◌, ◌++◌, true, false, length, write_bytes, write_bytes-append, All,
  IsByte, bytes32,
}
use sendip.Base.Flags.{has}
use sendip.Crc.{crc32}
use sendip.Crc.Bitwise.{crc32c}
use sendip.Crc.Table.{crc32-crc32c}
use sendip.Sctp.{SctpPack, finalize, sctp_mod_checksum}

-- Where the user did not set the checksum and its four bytes are zero, finalize stores there the
-- CRC32c of the whole pack, the low byte first, as RFC 3309 has it, and keeps the rest.
pub finalize-crc32c :
    (front back : List ℕ) (d : SctpPack)
    → d.data' ≡ front ++ (0 ∷ 0 ∷ 0 ∷ 0 ∷ back)
    → length front ≡ 8
    → All IsByte d.data'
    → has d.modified sctp_mod_checksum ≡ false
    → finalize d ≡ (true, record d { data' = front ++ (bytes32 (crc32c d.data') ++ back) })
unfolding finalize
finalize-crc32c front back d e eight bytes unset =
    let c = crc32 d.data' in
    let stored : write_bytes 8 (bytes32 c) d.data' ≡ front ++ (bytes32 c ++ back) =
      ap (λ i. write_bytes i (bytes32 c) d.data') (sym eight)
      ∙ ap (write_bytes (length front) (bytes32 c)) e
      ∙ write_bytes-append front (bytes32 c) (0 ∷ 0 ∷ 0 ∷ 0 ∷ back) in
    let same : c ≡ crc32c d.data' = crc32-crc32c d.data' bytes in
    rw unset (
      ap (λ b. (true, record d { data' = b }))
        (stored ∙ ap (λ v. front ++ (bytes32 v ++ back)) same))
