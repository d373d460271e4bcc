-- ===== src/MonsterNames.antt =====
-- linux/host/ntpl/monsternames.py: the codec of the language archive, and its name tables.
pub mod Codec
pub mod Archive
use Prim.Native.Nat.{bit_xor}
use nostale_packet_logger.Base.{
  ℕ, zero, suc, ◌+◌, ◌-◌, ◌*◌, ◌/◌, ◌%◌, Bool, true, false, ◌&&◌, ◌||◌, Option, none, some, List,
  [], ◌∷◌, ◌++◌, if◌then◌else◌, get_elem?, leb, ltb,
}
use nostale_packet_logger.Base.Keys.{◌==◌, nat_eq}

-- The alphabet of sixteen characters.
unfoldable pub alphabet : List ℕ
alphabet =
    0x00 ∷ 0x20 ∷ 0x2d ∷ 0x2e ∷ 0x30 ∷ 0x31 ∷ 0x32 ∷ 0x33 ∷ 0x34 ∷ 0x35 ∷ 0x36 ∷ 0x37 ∷ 0x38 ∷ 0x39
    ∷ 0x0a ∷ 0x00 ∷ []

abbrev byte_or_zero : Option ℕ → ℕ
byte_or_zero none = 0
byte_or_zero (some b) = b

-- _CRYPTO[n], for a half-byte.
unfoldable pub letter : ℕ → ℕ
unfolding alphabet
letter n = byte_or_zero (get_elem? alphabet n)

-- Where the decoder stands: before a control byte, or inside of a run of which `n + 1` characters
-- are left. Each turn of each of the three loops reads one byte.
pub data Mode : Type 0 where
  control : Mode
  packed : ℕ → Mode
  plain : ℕ → Mode

unfoldable pub run : (ℕ → Mode) → ℕ → Mode
run mode zero = control
run mode (suc n) = mode n

-- The mode that a control byte starts: the low seven bits are the count, the high bit is the kind.
unfoldable pub start : ℕ → Mode
unfolding run
start b = if leb 128 b then run packed (b % 128) else run plain (b % 128)

-- A byte of a packed run gives two characters, or one if the count is used up or if the second is
-- the zero of the alphabet, which ends the run.
unfoldable pub packed_output : ℕ → ℕ → List ℕ
unfolding letter
packed_output zero b = letter (b / 16) ∷ []
packed_output (suc n) b =
    if letter (b % 16) == 0 then letter (b / 16) ∷ [] else letter (b / 16) ∷ letter (b % 16) ∷ []

unfoldable pub packed_mode : ℕ → ℕ → Mode
unfolding letter run
packed_mode zero b = control
packed_mode (suc n) b = if letter (b % 16) == 0 then control else run packed n

abbrev pub unmask : ℕ → ℕ
unmask b = bit_xor b 0x33

unfoldable pub decode : Mode → List ℕ → List ℕ
unfolding start packed_output packed_mode run
decode mode [] = []
decode control (b ∷ bs) =
    let ended = decode control bs in
    let started = decode (start b) bs in if b == 0xff then 0x0d ∷ ended else started
decode (packed n) (b ∷ bs) = packed_output n b ++ decode (packed_mode n b) bs
decode (plain n) (b ∷ bs) = unmask b ∷ decode (run plain n) bs

-- decrypt_text_dat
unfoldable pub decrypt_text_dat : List ℕ → List ℕ
unfolding decode
decrypt_text_dat bytes = decode control bytes
