-- ===== src/Protocol.antt =====
-- linux/host/ntpl/protocol.py: the lines between the injected DLL and the host, and the packets.
pub mod Lines
pub mod Packets
use nostale_packet_logger.Base.{
  ℕ, ◌+◌, ◌≡◌, refl, Bool, true, false, ◌&&◌, ◌||◌, Option, none, some, List, [], ◌∷◌, ◌++◌, ltb,
  if◌then◌else◌, length, take,
}
use nostale_packet_logger.Base.Int.{ℤ, pos, leb_ℤ}
use nostale_packet_logger.Base.Keys.{Text, ◌==◌, nat_eq, text_eq}
use nostale_packet_logger.Python.{codes, rstrip, split, split_once, split_max, int?}
use nostale_packet_logger.Python.Errors.{Result, ok, raise, protocol_error}

pub data Kind : Type 0 where
  recv send status quit : Kind

-- Kind.value
unfoldable pub kind_value : Kind → Text
kind_value recv = codes "RECV"
kind_value send = codes "SEND"
kind_value status = codes "STATUS"
kind_value quit = codes "QUIT"

-- Kind(text); `none` is its ValueError.
unfoldable pub kind? : Text → Option Kind
kind? s =
    if s == codes "RECV"
    then some recv
    else if s == codes "SEND"
    then some send
    else if s == codes "STATUS"
    then some status
    else if s == codes "QUIT"
    then some quit
    else none

-- The 64 KiB that a line may take.
abbrev pub max_line_bytes : ℕ
max_line_bytes = 65536

abbrev pub default_port_number : ℤ
default_port_number = pos 47821

-- The port from the value of NTPL_PORT; `none` is an unset variable.
unfoldable pub default_port : Option Text → ℤ
default_port none = default_port_number
default_port (some text) = elim (int? text) [
  | none ↦ default_port_number
  | some port ↦ if leb_ℤ (pos 1) port && leb_ℤ port (pos 65535) then port else default_port_number
]

pub record Message : Type 0 where
  pub kind : Kind
  pub payload : Text
  pub raw : Text

-- The characters of rstrip("\r\n").
unfoldable pub is_line_end : ℕ → Bool
is_line_end c = c == 13 || c == 10

parse_fields : Text → Option (Text × Text) → Result (Option Message)
unfolding kind?
parse_fields line none = raise protocol_error
parse_fields line (some (kind_text, payload)) = elim (kind? kind_text) [
  | none ↦ raise protocol_error
  | some kind ↦ ok (some (record { kind = kind; payload = payload; raw = line }))
]

parse_stripped : Text → Result (Option Message)
unfolding parse_fields
parse_stripped [] = ok none
parse_stripped (c ∷ line) = parse_fields (c ∷ line) (split_once (codes "|") (c ∷ line))

-- Message.parse of a text line; `ok none` is a blank line.
unfoldable pub parse : Text → Result (Option Message)
unfolding parse_stripped is_line_end
parse line = parse_stripped (rstrip is_line_end line)

-- Message.encode
unfoldable pub encode : Message → Text
unfolding kind_value
encode m = kind_value m.kind ++ b'|' ∷ m.payload

-- A timestamp is a whole number of microseconds.
pub record Packet : Type 0 where
  pub direction : Kind
  pub text : Text
  pub timestamp : ℤ

stamp : Option ℤ → ℤ → ℤ
stamp none now = now
stamp (some t) now = t

packet_of : Kind → Text → ℤ → Result Packet
packet_of recv payload t = ok (record { direction = recv; text = payload; timestamp = t })
packet_of send payload t = ok (record { direction = send; text = payload; timestamp = t })
packet_of _ payload t = raise protocol_error

-- Packet.from_message; `now` is what time.time() returns.
unfoldable pub from_message : Message → Option ℤ → ℤ → Result Packet
unfolding stamp packet_of
from_message m timestamp now = packet_of m.kind m.payload (stamp timestamp now)

unfoldable pub head_or_empty : List Text → Text
head_or_empty [] = []
head_or_empty (w ∷ ws) = w

-- Packet.opcode
unfoldable pub opcode : Packet → Text
unfolding head_or_empty
opcode p = if p.text == [] then [] else head_or_empty (split_max 1 (codes " ") p.text)

unfoldable pub tail_of : List Text → List Text
tail_of [] = []
tail_of (w ∷ ws) = ws

-- Packet.args
unfoldable pub args : Packet → List Text
unfolding tail_of
args p = tail_of (split p.text)

-- int(value) of each; `none` is a ValueError.
unfoldable pub int_all : List Text → Option (List ℤ)
int_all [] = some []
int_all (w ∷ ws) = elim (int? w) [
  | none ↦ none
  | some n ↦ elim (int_all ws) [ none ↦ none | some ns ↦ some (n ∷ ns) ]
]

-- Packet.ints
unfoldable pub ints : ℕ → Packet → Option (List ℤ)
unfolding int_all
ints count p = if ltb (length (args p)) count then none else int_all (take count (args p))
