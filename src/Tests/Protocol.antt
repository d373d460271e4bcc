-- ===== src/Tests/Protocol.antt =====
-- Runs of protocol.py, and its theorems at concrete inputs.
use nostale_packet_logger.Base.{◌≡◌, refl, none, some, [], ◌∷◌, ◌++◌}
use nostale_packet_logger.Base.Int.{ℤ, pos, negsuc, ◌≤ℤ◌}
use nostale_packet_logger.Base.Keys.{Text}
use nostale_packet_logger.Python.{codes, is_space, split, split_once, rstrip, int?}
use nostale_packet_logger.Python.Errors.{ok, raise, protocol_error}
use nostale_packet_logger.Protocol.{
  send, Message, is_line_end, parse, encode, Packet, opcode, args, ints, default_port,
}
use nostale_packet_logger.Protocol.Lines.{IsMalformed, parse-encode, encode-parse, parse-eq_raise}
use nostale_packet_logger.Protocol.Packets.{default_port_range, opcode-args-spaced}

abbrev walk_line : Text
walk_line = codes "SEND|walk 3 -4 1"

abbrev walk_message : Message
walk_message = record { kind = send; payload = codes "walk 3 -4 1"; raw = walk_line }

parse_walk : parse (walk_line ++ 13 ∷ 10 ∷ []) ≡ ok (some walk_message)
unfolding parse split_once rstrip
parse_walk = refl

parse_blank : parse (13 ∷ 10 ∷ []) ≡ ok none
unfolding parse rstrip
parse_blank = refl

abbrev no_bar : Text
no_bar = codes "STATUS"

parse-no_bar : parse no_bar ≡ raise protocol_error
unfolding parse split_once rstrip
parse-no_bar = refl

parse-encode_example :
    parse (encode walk_message ++ 13 ∷ 10 ∷ [])
    ≡ ok (
        some (record walk_message {
          payload = rstrip is_line_end walk_message.payload;
          raw = rstrip is_line_end (encode walk_message);
        }))
unfolding is_line_end
parse-encode_example = parse-encode walk_message (13 ∷ 10 ∷ []) (refl, (refl, tt))

encode-parse_example : encode walk_message ≡ rstrip is_line_end (walk_line ++ 13 ∷ 10 ∷ [])
encode-parse_example = encode-parse (walk_line ++ 13 ∷ 10 ∷ []) walk_message parse_walk

parse-eq_raise_example :
    (parse no_bar ≡ raise protocol_error → (protocol_error ≡ protocol_error) × IsMalformed no_bar)
    × ((protocol_error ≡ protocol_error) × IsMalformed no_bar → parse no_bar ≡ raise protocol_error)
parse-eq_raise_example = parse-eq_raise no_bar protocol_error

default_port_range_example :
    (pos 1 ≤ℤ default_port (some (codes "70000")))
    × (default_port (some (codes "70000")) ≤ℤ pos 65535)
    × ((text : Text) (port : ℤ)
        → some (codes "70000") ≡ some text
        → int? text ≡ some port
        → pos 1 ≤ℤ port
        → port ≤ℤ pos 65535
        → default_port (some (codes "70000")) ≡ port)
default_port_range_example = default_port_range (some (codes "70000"))

abbrev walk_packet : Packet
walk_packet = record { direction = send; text = codes "walk 3 -4 1"; timestamp = pos 0 }

walk-ints : ints 2 walk_packet ≡ some (pos 3 ∷ negsuc 3 ∷ [])
unfolding ints args split int?
walk-ints = refl

opcode-args-spaced_example :
    (opcode walk_packet ≡ codes "walk")
    × (args walk_packet ≡ codes "3" ∷ codes "-4" ∷ codes "1" ∷ [])
unfolding is_space
opcode-args-spaced_example =
    opcode-args-spaced walk_packet (codes "walk") (codes "3" ∷ codes "-4" ∷ codes "1" ∷ [])
      (λ e. cc, (refl, (refl, (refl, (refl, tt)))))
      ((λ e. cc, (refl, tt)), ((λ e. cc, (refl, (refl, tt))), ((λ e. cc, (refl, tt)), tt))) refl
