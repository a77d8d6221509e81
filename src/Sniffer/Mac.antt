-- ===== src/Sniffer/Mac.antt =====
-- `format_mac` of 08/udp_sniffer.c.
use eltex_modul.Common.{
  ℕ, ◌+◌, ◌-◌, ◌*◌, ◌/◌, ◌%◌, ◌<◌, ◌≡◌, refl, [], ◌∷◌, ◌++◌, if◌then◌else◌, ltb, arith, length,
  get_or,
}
use eltex_modul.Common.Text.{Bytes}

abbrev pub hex_digit : ℕ → ℕ
hex_digit d = if ltb d 10 then 48 + d else 55 + d

-- `%02X` of a byte.
unfoldable pub hex_byte : ℕ → Bytes
hex_byte b = hex_digit (b / 16) ∷ hex_digit (b % 16) ∷ []

unfoldable pub format_mac : Bytes → Bytes
unfolding hex_byte
format_mac mac =
    let m = λ (i : ℕ). get_or mac i 0 in
    hex_byte (m 0)
    ++ (b':' ∷ hex_byte (m 1))
    ++ (b':' ∷ hex_byte (m 2))
    ++ (b':' ∷ hex_byte (m 3))
    ++ (b':' ∷ hex_byte (m 4))
    ++ (b':' ∷ hex_byte (m 5))

-- How a reader takes the text apart again.
abbrev hex_value : ℕ → ℕ
hex_value c = if ltb c 58 then c - 48 else c - 55

unfoldable pub read_byte : Bytes → ℕ → ℕ
read_byte text i = hex_value (get_or text (3 * i) 0) * 16 + hex_value (get_or text (3 * i + 1) 0)

abbrev pub read_mac : Bytes → Bytes
read_mac text = let r = read_byte text in r 0 ∷ r 1 ∷ r 2 ∷ r 3 ∷ r 4 ∷ r 5 ∷ []

hex_value-digit : (d : ℕ) → d < 16 → hex_value (hex_digit d) ≡ d
hex_value-digit d h = ground arith

read-hex :
    (b : ℕ) → b < 256 → hex_value (hex_digit (b / 16)) * 16 + hex_value (hex_digit (b % 16)) ≡ b
read-hex b h =
    omega (arith, hex_value-digit (b / 16) (omega arith), hex_value-digit (b % 16) (omega arith))

-- The text of six bytes has 17 characters, one fewer than the buffers for it, and it gives the six
-- bytes back: two addresses with one text are equal.
pub read-format :
    (a b c d e f : ℕ)
    → a < 256
    → b < 256
    → c < 256
    → d < 256
    → e < 256
    → f < 256
    → (length (format_mac (a ∷ b ∷ c ∷ d ∷ e ∷ f ∷ [])) ≡ 17)
      × (read_mac (format_mac (a ∷ b ∷ c ∷ d ∷ e ∷ f ∷ [])) ≡ a ∷ b ∷ c ∷ d ∷ e ∷ f ∷ [])
unfolding format_mac read_byte
read-format a b c d e f ha hb hc hd he hf = (
  refl,
  rw (read-hex a ha, read-hex b hb, read-hex c hc, read-hex d hd, read-hex e he, read-hex f hf),
)
