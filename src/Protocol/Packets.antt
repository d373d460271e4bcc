-- ===== src/Protocol/Packets.antt =====
-- The views of a packet, and the port, of linux/host/ntpl/protocol.py.
use nostale_packet_logger.Base.{
  ℕ, ◌≡◌, refl, false, Option, none, some, List, [], ◌∷◌, ◌++◌, inl, inr, arith, All, Option-cases,
  length, take, length-take, append-nil,
}
use nostale_packet_logger.Base.Int.{ℤ, pos, ◌≤ℤ◌}
use nostale_packet_logger.Base.Keys.{Text, ◌==◌, nat_eq, text_eq}
use nostale_packet_logger.Python.{codes, is_space, split_max, int?}
use nostale_packet_logger.Python.Strip.{split_once-char, split_once-char_none}
use nostale_packet_logger.Python.Words.{IsWord, spaced, split-spaced}
use nostale_packet_logger.Protocol.{
  default_port, Packet, opcode, args, head_or_empty, int_all, ints,
}

-- Whatever NTPL_PORT holds, the port is one of TCP's; a text that `int` takes and that is in range
-- is the port itself.
pub default_port_range :
    (raw : Option Text)
    → (pos 1 ≤ℤ default_port raw)
      × (default_port raw ≤ℤ pos 65535)
      × ((text : Text) (port : ℤ)
          → raw ≡ some text
          → int? text ≡ some port
          → pos 1 ≤ℤ port
          → port ≤ℤ pos 65535
          → default_port raw ≡ port)
unfolding default_port
default_port_range none = (ground arith, ground arith, λ text port h. cc)
default_port_range (some text) = (ground arith, ground arith, λ t port h p lo hi. ground arith)

pub nonspace-ne_space : (c : ℕ) → is_space c ≡ false → (b' ' == c) ≡ false
unfolding is_space
nonspace-ne_space c h = ground arith

nonspaces-ne_space : (w : Text) → All (λ c. is_space c ≡ false) w → All (λ c. (b' ' == c) ≡ false) w
nonspaces-ne_space [] h = tt
nonspaces-ne_space (c ∷ w) h = (nonspace-ne_space c h.0, nonspaces-ne_space w h.1)

head-split_max :
    (op : Text) (ws : List Text)
    → All (λ c. (b' ' == c) ≡ false) op
    → head_or_empty (split_max 1 (codes " ") (op ++ spaced ws)) ≡ op
unfolding head_or_empty split_max
head-split_max op [] h = rw (append-nil, split_once-char_none b' ' op h, split_max) (append-nil op)
head-split_max op (w ∷ ws) h = rw (split_once-char b' ' op (w ++ spaced ws) h, split_max)

opcode-spaced :
    (p : Packet) (op : Text) (ws : List Text) → IsWord op → p.text ≡ op ++ spaced ws → opcode p ≡ op
unfolding opcode
opcode-spaced p [] ws h e = absurd (h.0 refl)
opcode-spaced p (c ∷ op) ws h e =
    rw e (head-split_max (c ∷ op) ws (nonspaces-ne_space (c ∷ op) h.1))

-- A packet text of words joined by single spaces is read back: the first word is the opcode and
-- the others are the arguments.
pub opcode-args-spaced :
    (p : Packet) (op : Text) (ws : List Text)
    → IsWord op
    → All IsWord ws
    → p.text ≡ op ++ spaced ws
    → (opcode p ≡ op) × (args p ≡ ws)
unfolding args
opcode-args-spaced p op ws h hs e = (opcode-spaced p op ws h e, rw (e, split-spaced op ws h hs))

length-int_all : (ws : List Text) (ns : List ℤ) → int_all ws ≡ some ns → length ns ≡ length ws
unfolding int_all
length-int_all [] ns h = ground arith
length-int_all (w ∷ ws) ns h = elim (Option-cases (int_all ws)) [
  | inl e ↦ ground arith
  | inr (ms, e) ↦ ground (arith, length-int_all ws ms e)
]

-- When `ints count` returns numbers, there are exactly `count` of them.
pub length-ints :
    (count : ℕ) (p : Packet) (ns : List ℤ) → ints count p ≡ some ns → length ns ≡ count
unfolding ints
length-ints count p ns h =
    ground (arith, length-int_all (take count (args p)) ns, length-take count (args p))
