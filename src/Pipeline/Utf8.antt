-- ===== src/Pipeline/Utf8.antt =====
-- Texts in UTF-8, by RFC 3629.
use ebpf_ldms.Prelude.{
  ℕ, zero, suc, List, [], ◌∷◌, Bool, true, false, ◌&&◌, Option, some, none, ltb, leb, ◌==◌,
  if◌then◌else◌,
}

-- The first byte of a character: how many bytes follow it, and the range of the next one.
unfoldable first_byte : ℕ → Option (ℕ × ℕ × ℕ)
first_byte b =
    if ltb b 0x80
    then some (0, 0x80, 0xbf)
    else if ltb b 0xc2
    then none
    else if ltb b 0xe0
    then some (1, 0x80, 0xbf)
    else if b == 0xe0
    then some (2, 0xa0, 0xbf)
    else if b == 0xed
    then some (2, 0x80, 0x9f)
    else if ltb b 0xf0
    then some (2, 0x80, 0xbf)
    else if b == 0xf0
    then some (3, 0x90, 0xbf)
    else if ltb b 0xf4
    then some (3, 0x80, 0xbf)
    else if b == 0xf4
    then some (3, 0x80, 0x8f)
    else none

-- The bytes that are left of a character come first, the next one in the given range.
unfoldable utf8_from : ℕ → ℕ → ℕ → List ℕ → Bool
unfolding first_byte
utf8_from zero low high [] = true
utf8_from (suc n) low high [] = false
utf8_from zero low high (b ∷ bs) = elim (first_byte b) [
  | none ↦ false
  | some (n, low', high') ↦ utf8_from n low' high' bs
]
utf8_from (suc n) low high (b ∷ bs) = (leb low b && leb b high) && utf8_from n 0x80 0xbf bs

unfoldable pub is_utf8 : List ℕ → Bool
unfolding utf8_from
is_utf8 bs = utf8_from 0 0x80 0xbf bs
