-- ===== src/Python/Utf8.antt =====
-- UTF-8 as `str.encode` writes it and as `bytes.decode("utf-8", "replace")` reads it: every
-- maximal part of a sequence that cannot be completed is replaced by U+FFFD.
use nostale_packet_logger.Base.{
  ℕ, zero, suc, ◌+◌, ◌-◌, ◌*◌, ◌/◌, ◌%◌, ◌≤◌, ◌<◌, ◌≡◌, refl, ap, ◌∙◌, ◌⊎◌, inl, inr, false, ◌&&◌,
  Option, none, some, List, [], ◌∷◌, ◌++◌, arith, All, ltb, leb, if◌then◌else◌, append_assoc,
  Bool-cases,
}
use nostale_packet_logger.Base.Keys.{Text, ◌==◌, nat_eq}

-- The bytes of one code point; `none` for a surrogate is a UnicodeEncodeError.
unfoldable pub encode_char : ℕ → Option (List ℕ)
encode_char c =
    if ltb c 0x80
    then some (c ∷ [])
    else if ltb c 0x800
    then some ((0xc0 + c / 64) ∷ (0x80 + c % 64) ∷ [])
    else if leb 0xd800 c && leb c 0xdfff
    then none
    else if ltb c 0x10000
    then some ((0xe0 + c / 4096) ∷ (0x80 + c / 64 % 64) ∷ (0x80 + c % 64) ∷ [])
    else some (
        (0xf0 + c / 262_144) ∷ (0x80 + c / 4096 % 64) ∷ (0x80 + c / 64 % 64) ∷ (0x80 + c % 64) ∷ [])

unfoldable pub join : Option (List ℕ) → Option (List ℕ) → Option (List ℕ)
join (some bytes) (some more) = some (bytes ++ more)
join _ _ = none

-- text.encode("utf-8")
unfoldable pub encode_utf8 : Text → Option (List ℕ)
unfolding encode_char join
encode_utf8 [] = some []
encode_utf8 (c ∷ text) = join (encode_char c) (encode_utf8 text)

-- Inside a sequence: `n + 1` bytes are missing, the next of them from `low` to `high`, and
-- `value` is the code point so far.
pub data Progress : Type 0 where
  fresh : Progress
  inside : (n value low high : ℕ) → Progress

unfoldable pub lead : ℕ → List ℕ × Progress
lead b =
    if ltb b 0x80
    then (b ∷ [], fresh)
    else if ltb b 0xc2
    then (0xfffd ∷ [], fresh)
    else if ltb b 0xe0
    then ([], inside 0 (b - 0xc0) 0x80 0xbf)
    else if ltb b 0xf0
    then (
      [],
      inside 1 (b - 0xe0) (if b == 0xe0 then 0xa0 else 0x80) (if b == 0xed then 0x9f else 0xbf),
    )
    else if ltb b 0xf5
    then (
      [],
      inside 2 (b - 0xf0) (if b == 0xf0 then 0x90 else 0x80) (if b == 0xf4 then 0x8f else 0xbf),
    )
    else (0xfffd ∷ [], fresh)

unfoldable pub continued : ℕ → ℕ → List ℕ × Progress
continued zero value = (value ∷ [], fresh)
continued (suc n) value = ([], inside n value 0x80 0xbf)

unfoldable pub next_byte : Progress → ℕ → List ℕ × Progress
unfolding lead continued
next_byte fresh b = lead b
next_byte (inside n value low high) b =
    if leb low b && leb b high
    then continued n (value * 64 + (b - 0x80))
    else (0xfffd ∷ (lead b).0, (lead b).1)

unfoldable pub decode_from : Progress → List ℕ → Text
unfolding next_byte
decode_from fresh [] = []
decode_from (inside n value low high) [] = 0xfffd ∷ []
decode_from p (b ∷ bytes) = let step = next_byte p b in step.0 ++ decode_from step.1 bytes

-- bytes.decode("utf-8", "replace")
unfoldable pub decode_utf8 : List ℕ → Text
unfolding decode_from
decode_utf8 bytes = decode_from fresh bytes

-- A code point that is no surrogate.
abbrev pub IsScalar : ℕ → Type 0
IsScalar c = (c < 0xd800) ⊎ ((0xdfff < c) × (c < 0x110000))

decode_next :
    (p p' : Progress) (b : ℕ) (out bytes : List ℕ)
    → next_byte p b ≡ (out, p')
    → decode_from p (b ∷ bytes) ≡ out ++ decode_from p' bytes
unfolding decode_from
decode_next fresh p' b out bytes h = ap (λ s. s.0 ++ decode_from s.1 bytes) h
decode_next (inside n value low high) p' b out bytes h = ap (λ s. s.0 ++ decode_from s.1 bytes) h

lead_of_two :
    (b : ℕ) → 0xc2 ≤ b → b < 0xe0 → next_byte fresh b ≡ ([], inside 0 (b - 0xc0) 0x80 0xbf)
unfolding next_byte lead
lead_of_two b lo hi = ground arith

lead_of_three :
    (b : ℕ)
    → 0xe0 ≤ b
    → b < 0xf0
    → next_byte fresh b ≡ (
      [],
      inside 1 (b - 0xe0) (if b == 0xe0 then 0xa0 else 0x80) (if b == 0xed then 0x9f else 0xbf),
    )
unfolding next_byte lead
lead_of_three b lo hi = ground arith

lead_of_four :
    (b : ℕ)
    → 0xf0 ≤ b
    → b < 0xf5
    → next_byte fresh b ≡ (
      [],
      inside 2 (b - 0xf0) (if b == 0xf0 then 0x90 else 0x80) (if b == 0xf4 then 0x8f else 0xbf),
    )
unfolding next_byte lead
lead_of_four b lo hi = ground arith

inside_next :
    (n value low high b : ℕ)
    → low ≤ b
    → b ≤ high
    → next_byte (inside n value low high) b ≡ continued n (value * 64 + (b - 0x80))
unfolding next_byte
inside_next n value low high b lo hi = ground arith

decode_two :
    (c : ℕ) (rest : List ℕ)
    → 0x80 ≤ c
    → c < 0x800
    → decode_from fresh ((0xc0 + c / 64) ∷ (0x80 + c % 64) ∷ rest) ≡ c ∷ decode_from fresh rest
unfolding continued
decode_two c rest lo hi =
    let a = 0xc0 + c / 64 in
    let b = 0x80 + c % 64 in
    let whole : (a - 0xc0) * 64 + (b - 0x80) ≡ c = omega arith in
    decode_next fresh (inside 0 (a - 0xc0) 0x80 0xbf) a [] (b ∷ rest)
      (lead_of_two a (omega arith) (omega arith))
    ∙ decode_next (inside 0 (a - 0xc0) 0x80 0xbf) fresh b (c ∷ []) rest (
        inside_next 0 (a - 0xc0) 0x80 0xbf b (omega arith) (omega arith)
        ∙ ap (λ v. (v ∷ [], fresh)) whole)

decode_three :
    (c : ℕ) (rest : List ℕ)
    → 0x800 ≤ c
    → c < 0x10000
    → IsScalar c
    → decode_from fresh ((0xe0 + c / 4096) ∷ (0x80 + c / 64 % 64) ∷ (0x80 + c % 64) ∷ rest)
      ≡ c ∷ decode_from fresh rest
unfolding continued
decode_three c rest lo hi h =
    let a = 0xe0 + c / 4096 in
    let b = 0x80 + c / 64 % 64 in
    let d = 0x80 + c % 64 in
    let low : ℕ = if a == 0xe0 then 0xa0 else 0x80 in
    let high : ℕ = if a == 0xed then 0x9f else 0xbf in
    let v = (a - 0xe0) * 64 + (b - 0x80) in
    let whole : v * 64 + (d - 0x80) ≡ c = omega arith in
    decode_next fresh (inside 1 (a - 0xe0) low high) a [] (b ∷ d ∷ rest)
      (lead_of_three a (omega arith) (omega arith))
    ∙ (decode_next (inside 1 (a - 0xe0) low high) (inside 0 v 0x80 0xbf) b [] (d ∷ rest)
          (inside_next 1 (a - 0xe0) low high b (ground arith) (ground arith))
        ∙ decode_next (inside 0 v 0x80 0xbf) fresh d (c ∷ []) rest (
            inside_next 0 v 0x80 0xbf d (omega arith) (omega arith)
            ∙ ap (λ w. (w ∷ [], fresh)) whole))

decode_four :
    (c : ℕ) (rest : List ℕ)
    → 0x10000 ≤ c
    → c < 0x110000
    → decode_from fresh (
        (0xf0 + c / 262_144)
        ∷ (0x80 + c / 4096 % 64)
        ∷ (0x80 + c / 64 % 64)
        ∷ (0x80 + c % 64)
        ∷ rest)
      ≡ c ∷ decode_from fresh rest
unfolding continued
decode_four c rest lo hi =
    let a = 0xf0 + c / 262_144 in
    let b = 0x80 + c / 4096 % 64 in
    let d = 0x80 + c / 64 % 64 in
    let f = 0x80 + c % 64 in
    let low : ℕ = if a == 0xf0 then 0x90 else 0x80 in
    let high : ℕ = if a == 0xf4 then 0x8f else 0xbf in
    let v = (a - 0xf0) * 64 + (b - 0x80) in
    let w = v * 64 + (d - 0x80) in
    let whole : w * 64 + (f - 0x80) ≡ c = omega arith in
    decode_next fresh (inside 2 (a - 0xf0) low high) a [] (b ∷ d ∷ f ∷ rest)
      (lead_of_four a (omega arith) (omega arith))
    ∙ (decode_next (inside 2 (a - 0xf0) low high) (inside 1 v 0x80 0xbf) b [] (d ∷ f ∷ rest)
          (inside_next 2 (a - 0xf0) low high b (ground arith) (ground arith))
        ∙ (decode_next (inside 1 v 0x80 0xbf) (inside 0 w 0x80 0xbf) d [] (f ∷ rest)
              (inside_next 1 v 0x80 0xbf d (omega arith) (omega arith))
            ∙ decode_next (inside 0 w 0x80 0xbf) fresh f (c ∷ []) rest (
                inside_next 0 w 0x80 0xbf f (omega arith) (omega arith)
                ∙ ap (λ n. (n ∷ [], fresh)) whole)))

-- The bytes that a scalar is written in, by its size.
pub data Encoded (c : ℕ) : List ℕ → Type 0 where
  one : c < 0x80 → Encoded c (c ∷ [])
  two : 0x80 ≤ c → c < 0x800 → Encoded c ((0xc0 + c / 64) ∷ (0x80 + c % 64) ∷ [])
  three :
      0x800 ≤ c
      → c < 0x10000
      → Encoded c ((0xe0 + c / 4096) ∷ (0x80 + c / 64 % 64) ∷ (0x80 + c % 64) ∷ [])
  four :
      0x10000 ≤ c
      → c < 0x110000
      → Encoded c (
          (0xf0 + c / 262_144)
          ∷ (0x80 + c / 4096 % 64)
          ∷ (0x80 + c / 64 % 64)
          ∷ (0x80 + c % 64)
          ∷ [])

pub encode_char-Encoded :
    (c : ℕ) → IsScalar c → (bytes : List ℕ) × (encode_char c ≡ some bytes) × Encoded c bytes
unfolding encode_char
encode_char-Encoded c h = elim (Bool-cases (ltb c 0x80)) [
  | inl e1 ↦ (c ∷ [], rw e1 refl, one (ground arith))
  | inr e1 ↦ elim (Bool-cases (ltb c 0x800)) [
    | inl e2 ↦ (
      (0xc0 + c / 64) ∷ (0x80 + c % 64) ∷ [],
      rw (e1, e2) refl,
      two (ground arith) (ground arith),
    )
    | inr e2 ↦
        let scalar : (leb 0xd800 c && leb c 0xdfff) ≡ false = ground arith in
        elim (Bool-cases (ltb c 0x10000)) [
          | inl e3 ↦ (
            (0xe0 + c / 4096) ∷ (0x80 + c / 64 % 64) ∷ (0x80 + c % 64) ∷ [],
            rw (e1, e2, scalar, e3) refl,
            three (ground arith) (ground arith),
          )
          | inr e3 ↦ (
            (0xf0 + c / 262_144)
                ∷ (0x80 + c / 4096 % 64)
                ∷ (0x80 + c / 64 % 64)
                ∷ (0x80 + c % 64)
                ∷ [],
            rw (e1, e2, scalar, e3) refl,
            four (ground arith) (ground arith),
          )
        ]
  ]
]

pub decode_encoded :
    (c : ℕ) {bytes : List ℕ} (rest : List ℕ)
    → IsScalar c
    → Encoded c bytes
    → decode_from fresh (bytes ++ rest) ≡ c ∷ decode_from fresh rest
unfolding lead next_byte
decode_encoded c rest h (one lt) = decode_next fresh fresh c (c ∷ []) rest (ground arith)
decode_encoded c rest h (two lo hi) = decode_two c rest lo hi
decode_encoded c rest h (three lo hi) = decode_three c rest lo hi h
decode_encoded c rest h (four lo hi) = decode_four c rest lo hi

-- A text without surrogates can be written, and what is written is read back, before any bytes.
pub decode-encode_utf8 :
    (text : Text) (rest : List ℕ)
    → All IsScalar text
    → (bytes : List ℕ) × (encode_utf8 text ≡ some bytes)
      × (decode_from fresh (bytes ++ rest) ≡ text ++ decode_from fresh rest)
unfolding encode_utf8 join
decode-encode_utf8 [] rest h = ([], refl, refl)
decode-encode_utf8 (c ∷ text) rest h =
    let (first, ef, form) = encode_char-Encoded c h.0 in
    let (bytes, es, back) = decode-encode_utf8 text rest h.1 in
    (
      first ++ bytes,
      rw (ef, es) refl,
      ap (decode_from fresh) (append_assoc first bytes rest)
          ∙ (decode_encoded c (bytes ++ rest) h.0 form ∙ ap (λ t. c ∷ t) back),
    )
