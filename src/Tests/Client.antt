-- ===== src/Tests/Client.antt =====
-- Runs of client.py, and its theorems at concrete inputs.
use nostale_packet_logger.Base.{
  ℕ, ◌≤◌, ◌≡◌, refl, true, some, inl, List, [], ◌∷◌, ◌++◌, arith, length, ltb,
}
use nostale_packet_logger.Python.{codes, strip, rstrip, split_once}
use nostale_packet_logger.Python.Utf8.{encode_utf8}
use nostale_packet_logger.Python.Errors.{ok, raise, connection_lost}
use nostale_packet_logger.Protocol.{Kind, send, max_line_bytes}
use nostale_packet_logger.Client.{
  Client, new_client, connected, connect, Event, chunk, recv, send_packet,
}
use nostale_packet_logger.Client.Loopback.{line_of, recv-send_packet}

abbrev linked : Client
linked = record new_client { has_socket = true }

linked-connected : connected linked ≡ true
unfolding connected
linked-connected = refl

strip_hi : strip (codes " hi ") ≡ codes "hi"
unfolding strip
strip_hi = refl

hi_fits :
    (bytes : List ℕ)
    → encode_utf8 (line_of (strip (codes " hi ")) ++ 10 ∷ []) ≡ some bytes
    → length bytes ≤ max_line_bytes
unfolding strip encode_utf8
hi_fits bytes e = ground (arith, e)

send_packet_example :
    (frame : List ℕ) × (send_packet true (codes " hi ") linked ≡ (linked, ok frame))
    × ((events : List Event) (peer : Client) (rest : List ℕ)
        → connected peer ≡ true
        → peer.buffer ≡ frame ++ rest
        → recv events peer ≡ (
          record peer { buffer = rest },
          ok (
              some (record {
                kind = send;
                payload = strip (codes " hi ");
                raw = line_of (strip (codes " hi "));
              })),
        ))
unfolding strip
send_packet_example =
    recv-send_packet linked (codes " hi ") linked-connected (λ e. cc)
      (
        (inl (omega arith), (λ e. omega (arith, e)), (λ e. omega (arith, e))),
        ((inl (omega arith), (λ e. omega (arith, e)), (λ e. omega (arith, e))), tt),
      )
      hi_fits

-- A message that arrives in two parts.
recv_run : recv (chunk (codes "RECV|a") ∷ chunk (codes "b\r\nSEND|") ∷ []) linked ≡ (
  record linked { buffer = codes "SEND|" },
  ok (some (record { kind = Kind.recv; payload = codes "ab"; raw = codes "RECV|ab" })),
)
unfolding recv split_once rstrip
recv_run = refl

-- The third attempt succeeds; two attempts are not enough.
connect_run : (connect (λ i. ltb 1 i) 3 new_client).1 ≡ ok tt
unfolding connect
connect_run = refl

connect_fails : (connect (λ i. ltb 1 i) 2 new_client).1 ≡ raise connection_lost
unfolding connect
connect_fails = refl
