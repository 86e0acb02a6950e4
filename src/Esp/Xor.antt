-- ===== src/Esp/Xor.antt =====
-- xorcrypto.c: the demonstration crypto module.
use sendip.Base.{
  ℕ, zero, suc, ◌+◌, ◌%◌, ◌≡◌, refl, ap, sym, ◌∙◌, List, [], ◌∷◌, ◌++◌, none, some, Bool, true,
  false, ◌==◌, if◌then◌else◌, length, get_or, take, drop, replicate, bit_xor, length-take,
  length-append, take-front, drop-front, arith, ◌≤◌, ◌<◌,
}
use sendip.Base.Xor.{bit_xor_assoc, bit_xor_self, bit_xor-zero}
use sendip.Base.Flags.{has}
use sendip.World.{done}
use sendip.Pack.{Frame}
use sendip.Esp.{EspPrivate, EspPack, EspState, CryptoModule, esp_mod_padding}
use sendip.Esp.Finalize.{finalize, module_run}
use sendip.Esp.Layout.{IsRoomy, iv_of, icv_bytes, plain_packet, finalize-Leaves}

-- `data[d] ^= key[k]`, from the key's byte `k` on and round again.
unfoldable pub xorcrypto : List ℕ → ℕ → List ℕ → List ℕ
xorcrypto key k [] = []
xorcrypto key k (b ∷ bytes) =
    bit_xor b (get_or key k 0) ∷ xorcrypto key ((k + 1) % length key) bytes

-- Everything behind the ESP header's eight bytes; a key of one zero byte where there is none.
unfoldable pub espcrypto : EspPrivate → List ℕ → Bool × List ℕ
espcrypto private packet =
    let key = if length private.key == 0 then 0 ∷ [] else private.key in
    (true, take 8 packet ++ xorcrypto key 0 (drop 8 packet))

-- What the module exports; its `cryptoinit` does nothing.
abbrev pub xor_module : CryptoModule
xor_module = record { cryptoinit = some (λ (d : EspPack). (true, d)); cryptomod = some espcrypto }

xorcrypto-twice :
    (key : List ℕ) (k : ℕ) (bytes : List ℕ) → xorcrypto key k (xorcrypto key k bytes) ≡ bytes
unfolding xorcrypto
xorcrypto-twice key k [] = refl
xorcrypto-twice key k (b ∷ bytes) =
    let x = get_or key k 0 in
    let back : bit_xor (bit_xor b x) x ≡ b =
      bit_xor_assoc b x x ∙ ap (bit_xor b) (bit_xor_self x) ∙ bit_xor-zero b in
    ap (λ c. c ∷ xorcrypto key ((k + 1) % length key) (xorcrypto key ((k + 1) % length key) bytes))
      back
    ∙ ap (λ cs. b ∷ cs) (xorcrypto-twice key ((k + 1) % length key) bytes)

take-append-drop : (n : ℕ) (xs : List ℕ) → take n xs ++ drop n xs ≡ xs
take-append-drop zero xs = refl
take-append-drop (suc n) [] = refl
take-append-drop (suc n) (x ∷ xs) = ap (λ ys. x ∷ ys) (take-append-drop n xs)

-- Run again with the same key, the module gives back a packet with a whole header.
espcrypto-twice :
    (private : EspPrivate) (packet : List ℕ)
    → 8 ≤ length packet
    → espcrypto private (espcrypto private packet).1 ≡ (true, packet)
unfolding espcrypto
espcrypto-twice private packet h =
    let key = if length private.key == 0 then 0 ∷ [] else private.key in
    let front = take 8 packet in
    let back = xorcrypto key 0 (drop 8 packet) in
    let size : length front ≡ 8 = omega (arith, length-take 8 packet) in
    let front_kept : take 8 (front ++ back) ≡ front =
      ap (λ n. take n (front ++ back)) (sym size) ∙ take-front front back in
    let whole : 8 ≡ length front + 0 = omega (arith, size) in
    let back_kept : drop 8 (front ++ back) ≡ back =
      ap (λ n. drop n (front ++ back)) whole ∙ drop-front front back 0 in
    ap (λ v. (true, v ++ xorcrypto key 0 (drop 8 (front ++ back)))) front_kept
    ∙ ap (λ v. (true, front ++ xorcrypto key 0 v)) back_kept
    ∙ ap (λ v. (true, front ++ v)) (xorcrypto-twice key 0 (drop 8 packet))
    ∙ ap (λ v. (true, v)) (take-append-drop 8 packet)

-- With the module xorcrypto for encryption and none for authentication, finalize succeeds, and the
-- module run once more on the packet that it leaves, with the same key, gives the packet in the
-- clear: header, IV, data, aligned padding, its length, a type, and the ICV. The user set no
-- padding, the pack has room for IV and ICV, and the ICV, if there is one, stands in the pack where
-- finalize looks for it, which an IV of two bytes or more may prevent.
pub finalize-espcrypto :
    (f : Frame) (hdrs : List ℕ) (index : ℕ) (rest : List ℕ) (s : EspState)
    → s.authesp ≡ none
    → s.cryptoesp ≡ some xor_module
    → has s.pack.modified esp_mod_padding ≡ false
    → IsRoomy s.pack
    → (pad type : ℕ) × (packet : List ℕ) × (pad < 4)
      × ((s.pack.private.ivlen + length rest + pad + 2) % 4 ≡ 0)
      × (finalize f hdrs index rest s ≡ done (true, packet))
      × (espcrypto s.pack.private packet ≡ (true, plain_packet s.pack rest pad type))
unfolding espcrypto
finalize-espcrypto f hdrs index rest s no_auth xors unset h =
    let (pad, type, few, aligned, ends, _) = finalize-Leaves f hdrs index rest s unset h in
    let plain = plain_packet s.pack rest pad type in
    let head : length (take 8 s.pack.data') ≡ 8 = omega (arith, length-take 8 s.pack.data', h) in
    let whole : 8 ≤ length plain = omega (
      arith,
      head,
      length-append (take 8 s.pack.data')
          (iv_of s.pack ++ (rest ++ (replicate pad 0 ++ (pad ∷ type ∷ icv_bytes s.pack)))),
    ) in
    (
      pad,
      type,
      (espcrypto s.pack.private plain).1,
      few,
      aligned,
      ends
          ∙ ap
              (λ a.
                done (
                  module_run s.cryptoesp s.pack.private
                    (module_run a s.pack.private (true, plain))))
              no_auth
          ∙ ap (λ c. done (module_run c s.pack.private (true, plain))) xors,
      espcrypto-twice s.pack.private plain whole,
    )
