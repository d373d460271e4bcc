-- ===== src/SpawnLog/Lines.antt =====
-- linux/host/ntpl/spawnlog.py: `_ints_after` on the lines that the DLL writes
-- (linux/src/dll/log.h): a time, the direction in brackets, and the packet.
use nostale_packet_logger.Base.{
  ℕ, zero, suc, ◌≡◌, refl, sym, ap, ◌∙◌, Bool, true, false, ◌&&◌, none, some, List, [], ◌∷◌, ◌++◌,
  arith, if◌then◌else◌, length, take, drop, All, ltb, append_assoc, drop_front, Bool-cases, inl,
  inr,
}
use nostale_packet_logger.Base.Keys.{Text, ◌==◌, nat_eq, text_eq, text_beq_iff}
use nostale_packet_logger.Python.{
  codes, is_space, starts_with, after, split_once, after-put_front, find_after,
}
use nostale_packet_logger.Python.Words.{IsWord, spaced, split-spaced}
use nostale_packet_logger.Protocol.{Packet, opcode, int_all, ints}
use nostale_packet_logger.Protocol.Packets.{opcode-args-spaced, nonspace-ne_space}
use nostale_packet_logger.SpawnLog.{recv_marker, first_ints, read_found, ints_after}

abbrev pub recv_line : Text → Text → Text
recv_line stamp text = stamp ++ (codes "[RECV] " ++ text)

-- No opening bracket stands in the text.
abbrev pub Unbracketed : Text → Type 0
Unbracketed s = All (λ c. (b'[' == c) ≡ false) s

find_after-cons :
    (marker s : Text) (c : ℕ)
    → starts_with marker (c ∷ s) ≡ false
    → find_after marker (c ∷ s) ≡ find_after marker s
unfolding find_after split_once
find_after-cons marker s c h = rw (h, after-put_front c (split_once marker s))

bracket_first : (m s : Text) (c : ℕ) → (b'[' == c) ≡ false → starts_with (b'[' ∷ m) (c ∷ s) ≡ false
unfolding starts_with
bracket_first m s c h = rw h

find_after-Unbracketed : (m s : Text) → Unbracketed s → find_after (b'[' ∷ m) s ≡ none
unfolding find_after split_once starts_with after
find_after-Unbracketed m [] h = refl
find_after-Unbracketed m (c ∷ s) h =
    find_after-cons (b'[' ∷ m) s c (bracket_first m s c h.0) ∙ find_after-Unbracketed m s h.1

find_after-here :
    (m rest : Text)
    → Unbracketed rest
    → find_after (b'[' ∷ m) (b'[' ∷ rest)
      ≡ (if starts_with m rest then some (drop (length m) rest) else none)
unfolding find_after split_once starts_with after
find_after-here m rest h = elim (Bool-cases (starts_with m rest)) [
  | inl e ↦ rw e
  | inr e ↦
      rw (e, after-put_front b'[' (split_once (b'[' ∷ m) rest)) (find_after-Unbracketed m rest h)
]

find_after-bracket :
    (m stamp rest : Text)
    → Unbracketed stamp
    → Unbracketed rest
    → find_after (b'[' ∷ m) (stamp ++ b'[' ∷ rest)
      ≡ (if starts_with m rest then some (drop (length m) rest) else none)
find_after-bracket m [] rest hs h = find_after-here m rest h
find_after-bracket m (c ∷ stamp) rest hs h =
    find_after-cons (b'[' ∷ m) (stamp ++ b'[' ∷ rest) c
      (bracket_first m (stamp ++ b'[' ∷ rest) c hs.0)
    ∙ find_after-bracket m stamp rest hs.1 h

abbrev has_some : List Text → Bool
has_some [] = false
has_some (w ∷ ws) = true

-- The opcode of the marker against the words of a packet.
starts_with-words :
    (u v : Text) (ws : List Text)
    → All (λ c. is_space c ≡ false) u
    → All (λ c. is_space c ≡ false) v
    → starts_with (u ++ codes " ") (v ++ spaced ws) ≡ (v == u && has_some ws)
unfolding starts_with
starts_with-words [] [] [] hu hv = refl
starts_with-words [] [] (w ∷ ws) hu hv = refl
starts_with-words [] (d ∷ v) ws hu hv = rw (nonspace-ne_space d hv.0)
starts_with-words (c ∷ u) [] [] hu hv = refl
starts_with-words (c ∷ u) [] (w ∷ ws) hu hv = ground (arith, nonspace-ne_space c hu.0)
starts_with-words (c ∷ u) (d ∷ v) ws hu hv = ground (arith, starts_with-words u v ws hu.1 hv.1)

behind_opcode : (op r : Text) → drop (length (op ++ codes " ")) (op ++ b' ' ∷ r) ≡ r
behind_opcode op r =
    ap (drop (length (op ++ codes " "))) (sym (append_assoc op (codes " ") r))
    ∙ drop_front (op ++ codes " ") r

append-Unbracketed : (s t : Text) → Unbracketed s → Unbracketed t → Unbracketed (s ++ t)
append-Unbracketed [] t hs ht = ht
append-Unbracketed (c ∷ s) t hs ht = (hs.0, append-Unbracketed s t hs.1 ht)

spaced-Unbracketed : (ws : List Text) → All Unbracketed ws → Unbracketed (spaced ws)
spaced-Unbracketed [] h = tt
spaced-Unbracketed (w ∷ ws) h =
    (refl, append-Unbracketed w (spaced ws) h.0 (spaced-Unbracketed ws h.1))

-- What `find_after` finds on a line: the arguments, if the opcode is that of the marker.
found_on_line :
    (stamp op op' : Text) (ws : List Text)
    → Unbracketed stamp
    → Unbracketed op
    → All Unbracketed ws
    → IsWord op
    → IsWord op'
    → find_after (recv_marker op') (recv_line stamp (op ++ spaced ws)) ≡ (
        if op == op' && has_some ws
        then some (drop (length (op' ++ codes " ")) (op ++ spaced ws))
        else none)
unfolding starts_with
found_on_line stamp op op' ws hs ho hw word word' =
    rw (← starts_with-words op' op ws word'.1 word.1) (
      find_after-bracket (codes "RECV] " ++ (op' ++ codes " ")) stamp
        (codes "RECV] " ++ (op ++ spaced ws)) hs
        (append-Unbracketed (codes "RECV] ") (op ++ spaced ws)
          (refl, (refl, (refl, (refl, (refl, (refl, tt))))))
          (append-Unbracketed op (spaced ws) ho (spaced-Unbracketed ws hw))))

first_ints-ints :
    (n : ℕ) (ws : List Text)
    → first_ints n ws ≡ (if ltb (length ws) n then none else int_all (take n ws))
unfolding first_ints int_all
first_ints-ints zero ws = ground arith
first_ints-ints (suc n) [] = ground arith
first_ints-ints (suc n) (w ∷ ws) = ground (arith, first_ints-ints n ws)

read_words :
    (n : ℕ) (op op' : Text) (ws : List Text)
    → All IsWord ws
    → read_found (suc n) (
        if op == op' && has_some ws
        then some (drop (length (op' ++ codes " ")) (op ++ spaced ws))
        else none)
      ≡ (if op == op' then first_ints (suc n) ws else none)
unfolding read_found first_ints
read_words n op op' [] words = ground arith
read_words n op op' (w ∷ ws) words = elim (Bool-cases (op == op')) [
  | inl e ↦ rw (
    e,
    sym ((text_beq_iff op op').0 e),
    behind_opcode op (w ++ spaced ws),
    split-spaced w ws words.0 words.1,
  )
  | inr e ↦ rw e
]

-- Which numbers a marker reads on a line: those of the packet, if the opcode is that of the marker.
line_ints :
    (stamp op op' : Text) (ws : List Text) (n : ℕ)
    → Unbracketed stamp
    → Unbracketed op
    → All Unbracketed ws
    → IsWord op
    → All IsWord ws
    → IsWord op'
    → ints_after (recv_line stamp (op ++ spaced ws)) (recv_marker op') (suc n)
      ≡ (if op == op' then first_ints (suc n) ws else none)
unfolding ints_after
line_ints stamp op op' ws n hs ho hw word words word' =
    ap (read_found (suc n)) (found_on_line stamp op op' ws hs ho hw word word')
    ∙ read_words n op op' ws words

-- A packet whose text is words joined by single spaces, without brackets.
pub record IsPlain (p : Packet) (op : Text) (ws : List Text) : Type 0 where
  pub text : p.text ≡ op ++ spaced ws
  pub opcode_word : IsWord op
  pub words : All IsWord ws
  pub opcode_plain : Unbracketed op
  pub words_plain : All Unbracketed ws

pub ints_after-recv_line :
    (stamp : Text) (p : Packet) (op op' : Text) (ws : List Text) (n : ℕ)
    → Unbracketed stamp
    → IsPlain p op ws
    → IsWord op'
    → ints_after (recv_line stamp p.text) (recv_marker op') (suc n)
      ≡ (if opcode p == op' then ints (suc n) p else none)
unfolding ints
ints_after-recv_line stamp p op op' ws n hs plain word' =
    let views = opcode-args-spaced p op ws plain.opcode_word plain.words plain.text in
    let line =
      line_ints stamp op op' ws n hs plain.opcode_plain plain.words_plain plain.opcode_word
        plain.words word' in
    ap (λ text. ints_after (recv_line stamp text) (recv_marker op') (suc n)) plain.text
    ∙ (line ∙ rw (views.0, views.1, ← first_ints-ints (suc n) ws))
