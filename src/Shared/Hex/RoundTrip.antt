-- ===== src/Shared/Hex/RoundTrip.antt =====
-- Bytes to hexadecimal and back.
use Prim.Native.Nat.{◌/◌, ◌%◌}
use open_cawt.Base.{
  ℕ, ◌<◌, ◌+◌, ◌*◌, some, List, [], ◌∷◌, ◌++◌, All, ltb, Bool-cases, inl, inr, ◌≡◌, ◌∙◌, refl, ap,
  arith,
}
use open_cawt.Shared.Hex.{
  hex_char, hex_of_byte, bytes_to_hex, hex_value, byte_of, and_byte, hex_to_bytes,
}

hex_value-hex_char : (d : ℕ) → d < 16 → hex_value (hex_char d) ≡ some d
hex_value-hex_char d h = ground arith

two-digits : (hi lo : ℕ) → hi < 16 → lo < 16 → byte_of (hex_char hi) (hex_char lo) ≡ 16 * hi + lo
unfolding byte_of
two-digits hi lo h k = rw (hex_value-hex_char hi h, hex_value-hex_char lo k) refl

-- The padding makes it two digits for every byte.
hex_of_byte-eq : (byte : ℕ) → hex_of_byte byte ≡ hex_char (byte / 16) ∷ hex_char (byte % 16) ∷ []
hex_of_byte-eq byte = elim (Bool-cases (ltb byte 16)) [
  | inl e ↦
      let high : byte / 16 ≡ 0 = ground arith in
      let low : byte % 16 ≡ byte = ground arith in rw (e, high, low) refl
  | inr e ↦ rw e refl
]

bytes-digits :
    (byte : ℕ) (rest : List ℕ)
    → byte < 256
    → hex_to_bytes (hex_of_byte byte ++ rest) ≡ and_byte byte (hex_to_bytes rest)
unfolding hex_to_bytes
bytes-digits byte rest h =
    let whole : 16 * (byte / 16) + byte % 16 ≡ byte = omega arith in
    ap (λ l. hex_to_bytes (l ++ rest)) (hex_of_byte-eq byte)
    ∙ ap (λ b. and_byte b (hex_to_bytes rest))
        (two-digits (byte / 16) (byte % 16) (omega arith) (omega arith) ∙ whole)

-- Bytes that are written in hexadecimal are read back as the same bytes.
pub hex_to_bytes-bytes_to_hex :
    (bytes : List ℕ) → All (λ b. b < 256) bytes → hex_to_bytes (bytes_to_hex bytes) ≡ some bytes
unfolding bytes_to_hex hex_to_bytes
hex_to_bytes-bytes_to_hex [] a = refl
hex_to_bytes-bytes_to_hex (byte ∷ bytes) (h, a) =
    bytes-digits byte (bytes_to_hex bytes) h
    ∙ ap (and_byte byte) (hex_to_bytes-bytes_to_hex bytes a)
