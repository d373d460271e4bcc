-- ===== src/Client.antt =====
-- linux/host/ntpl/client.py: the client of the DLL's socket. What the socket and the clock answer
-- is an argument; threads are not modelled, only what each of their turns does.
pub mod Loopback
use nostale_packet_logger.Base.{
  ℕ, zero, suc, ◌+◌, Bool, true, false, not, ◌&&◌, ◌||◌, Option, none, some, List, [], ◌∷◌, ◌++◌,
  if◌then◌else◌, length, ltb,
}
use nostale_packet_logger.Base.Int.{ℤ}
use nostale_packet_logger.Base.Keys.{Text, ◌==◌, nat_eq, text_eq}
use nostale_packet_logger.Python.{codes, strip, rstrip, split_once}
use nostale_packet_logger.Python.Utf8.{encode_utf8, decode_utf8}
use nostale_packet_logger.Python.Errors.{
  Result, ok, raise, value_error, protocol_error, connection_lost,
}
use nostale_packet_logger.Protocol.{Message, parse, is_line_end, max_line_bytes}

-- `has_socket` is `_socket is not None`; the `none` in the inbox ends the messages.
pub record Client : Type 0 where
  pub has_socket : Bool
  pub closed : Bool
  pub buffer : List ℕ
  pub inbox : List (Option Message)

abbrev pub Answer : Type 0 → Type 0
Answer A = Client × Result A

-- PacketClient()
abbrev pub new_client : Client
new_client = record { has_socket = false; closed = false; buffer = []; inbox = [] }

-- PacketClient.connected
unfoldable pub connected : Client → Bool
connected c = c.has_socket && not c.closed

-- PacketClient.close
unfoldable pub close : Client → Client
close c = record c { has_socket = false; closed = true; inbox = c.inbox ++ none ∷ [] }

-- The loop of `connect`: `left` attempts are left, and `accepts` says which attempts succeed.
unfoldable pub attempt : (ℕ → Bool) → ℕ → ℕ → Client → Answer Unit
attempt accepts i zero c = (c, raise connection_lost)
attempt accepts i (suc left) c =
    let later = attempt accepts (i + 1) left c in
    if accepts i
    then (record c { has_socket = true; closed = false; buffer = [] }, ok tt)
    else later

abbrev at_least_one : ℕ → ℕ
at_least_one zero = 1
at_least_one (suc n) = suc n

-- PacketClient.connect
unfoldable pub connect : (ℕ → Bool) → ℕ → Client → Answer Unit
unfolding attempt
connect accepts retries c = attempt accepts 0 (at_least_one retries) c

-- `sent` says whether the socket takes the bytes; the result holds what was handed to it.
unfoldable pub send_framed : Bool → Option (List ℕ) → Client → Answer (List ℕ)
unfolding close
send_framed sent none c = (c, raise value_error)
send_framed sent (some framed) c =
    if ltb max_line_bytes (length framed)
    then (c, raise protocol_error)
    else if sent
    then (c, ok framed)
    else (close c, raise connection_lost)

-- PacketClient.send_raw
unfoldable pub send_raw : Bool → Text → Client → Answer (List ℕ)
unfolding send_framed connected encode_utf8 is_line_end
send_raw sent line c =
    if connected c
    then send_framed sent (encode_utf8 (rstrip is_line_end line ++ codes "\n")) c
    else (c, raise connection_lost)

-- PacketClient.send_packet
unfoldable pub send_packet : Bool → Text → Client → Answer (List ℕ)
unfolding send_raw strip
send_packet sent packet c =
    if strip packet == []
    then (c, raise value_error)
    else send_raw sent (codes "SEND|" ++ strip packet) c

-- PacketClient.request_status
unfoldable pub request_status : Bool → Client → Answer (List ℕ)
unfolding send_raw
request_status sent c = send_raw sent (codes "STATUS") c

-- PacketClient.quit
unfoldable pub quit : Bool → Client → Answer (List ℕ)
unfolding send_raw
quit sent c = send_raw sent (codes "QUIT|") c

abbrev is_return : ℕ → Bool
is_return c = c == 13

unfoldable pub take_first : Client → Option (List ℕ × List ℕ) → Answer (Option Text)
unfolding close decode_utf8
take_first c none =
    if ltb max_line_bytes (length c.buffer) then (close c, raise connection_lost) else (c, ok none)
take_first c (some (raw, rest)) =
    (record c { buffer = rest }, ok (some (rstrip is_return (decode_utf8 raw))))

-- PacketClient._take_line
unfoldable pub take_line : Client → Answer (Option Text)
unfolding take_first
take_line c = take_first c (split_once (10 ∷ []) c.buffer)

-- A line that was parsed: a blank one is skipped.
unfoldable pub parsed :
    Client → Result (Option Message) → Answer (Option Message) → Answer (Option Message)
parsed c (raise e) later = (c, raise e)
parsed c (ok (some message)) later = (c, ok (some message))
parsed c (ok none) later = later

unfoldable pub read_line :
    Answer (Option Text) → (Client → Answer (Option Message)) → Answer (Option Message)
unfolding parsed parse
read_line (c, raise e) next = (c, raise e)
read_line (c, ok none) next = (c, ok none)
read_line (c, ok (some line)) next = parsed c (parse line) (next c)

-- The turns of `recv` that need no new bytes. Each line takes a byte of the buffer, so that one
-- turn more than its length is enough.
unfoldable pub buffered : ℕ → Client → Answer (Option Message)
unfolding take_line read_line
buffered zero c = (c, ok none)
buffered (suc n) c = read_line (take_line c) (buffered n)

-- What happens while `recv` waits: the deadline passes, `select` fails or times out, or the socket
-- fails or gives bytes, of which none at all mean that the peer has closed the connection.
pub data Event : Type 0 where
  expired select_failed not_readable recv_failed : Event
  chunk : List ℕ → Event

-- What `recv` does once no line is left in the buffer; `next` is its next turn.
unfoldable pub wait_for :
    Answer (Option Message) → Event → (Client → Answer (Option Message)) → Answer (Option Message)
unfolding close
wait_for (c, raise e) event next = (c, raise e)
wait_for (c, ok (some message)) event next = (c, ok (some message))
wait_for (c, ok none) expired next = (c, ok none)
wait_for (c, ok none) select_failed next = (close c, raise connection_lost)
wait_for (c, ok none) not_readable next = (c, ok none)
wait_for (c, ok none) recv_failed next = (close c, raise connection_lost)
wait_for (c, ok none) (chunk []) next = (close c, raise connection_lost)
wait_for (c, ok none) (chunk (b ∷ bytes)) next = next (record c { buffer = c.buffer ++ b ∷ bytes })

unfoldable pub recv_open : List Event → Client → Answer (Option Message)
unfolding buffered wait_for
recv_open [] c = buffered (suc (length c.buffer)) c
recv_open (event ∷ events) c =
    wait_for (buffered (suc (length c.buffer)) c) event (recv_open events)

-- PacketClient.recv; a list of events that ends leaves it waiting, which is `ok none` here.
unfoldable pub recv : List Event → Client → Answer (Option Message)
unfolding connected recv_open
recv events c = if connected c then recv_open events c else (c, raise connection_lost)

-- _reader_loop, one call of `recv` for each list of events.
unfoldable pub reader_loop : List (List Event) → Client → Client
unfolding recv
reader_loop [] c = c
reader_loop (events ∷ turns) c =
    if c.closed then record c { inbox = c.inbox ++ none ∷ [] } else elim (recv events c).1 [
      | raise e ↦ record (recv events c).0 { inbox = (recv events c).0.inbox ++ none ∷ [] }
      | ok none ↦ reader_loop turns (recv events c).0
      | ok (some message) ↦
          reader_loop turns
            (record (recv events c).0 { inbox = (recv events c).0.inbox ++ some message ∷ [] })
    ]

-- What `messages` yields of the inbox.
unfoldable pub messages : List (Option Message) → List Message
messages [] = []
messages (none ∷ inbox) = []
messages (some message ∷ inbox) = message ∷ messages inbox
