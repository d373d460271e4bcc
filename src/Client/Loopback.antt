-- ===== src/Client/Loopback.antt =====
-- linux/host/ntpl/client.py: what `send_packet` hands to the socket is what `recv` reads at a peer
-- that is written alike.
use nostale_packet_logger.Base.{
  ℕ, suc, ◌≤◌, ◌<◌, ◌≡◌, ◌≢◌, refl, sym, ap, ◌∙◌, inl, true, false, some, List, [], ◌∷◌, ◌++◌,
  arith, length, ltb, All, append_assoc, append-nil,
}
use nostale_packet_logger.Base.Keys.{Text, text_beq_iff, ◌==◌, nat_eq, text_eq}
use nostale_packet_logger.Python.{codes, strip, rstrip}
use nostale_packet_logger.Python.Strip.{split_once-char, rstrip-none}
use nostale_packet_logger.Python.Utf8.{
  IsScalar, Encoded, one, two, three, four, encode_char, encode_char-Encoded, decode_encoded, join,
  encode_utf8, decode_utf8, decode_from,
}
use nostale_packet_logger.Python.Errors.{ok}
use nostale_packet_logger.Protocol.{
  send, Message, encode, kind_value, parse, is_line_end, max_line_bytes,
}
use nostale_packet_logger.Protocol.Lines.{parse-encode}
use nostale_packet_logger.Client.{
  Client, connected, send_framed, send_raw, send_packet, take_first, take_line, buffered, is_return,
  read_line, parsed, Answer, Event, wait_for, recv_open, recv,
}

-- A character that a line can hold.
abbrev pub IsLineChar : ℕ → Type 0
IsLineChar c = IsScalar c × (c ≢ 10) × (c ≢ 13)

line_end-none : (s : Text) → All IsLineChar s → All (λ c. is_line_end c ≡ false) s
unfolding is_line_end
line_end-none [] h = tt
line_end-none (c ∷ s) h = (ground (arith, h.0.1), line_end-none s h.1)

return-none : (s : Text) → All IsLineChar s → All (λ c. is_return c ≡ false) s
return-none [] h = tt
return-none (c ∷ s) h = (ground (arith, h.0.1), return-none s h.1)

abbrev NoNewline : List ℕ → Type 0
NoNewline bytes = All (λ b. (10 == b) ≡ false) bytes

append-NoNewline : (a b : List ℕ) → NoNewline a → NoNewline b → NoNewline (a ++ b)
append-NoNewline [] b ha hb = hb
append-NoNewline (c ∷ a) b ha hb = (ha.0, append-NoNewline a b ha.1 hb)

encoded-NoNewline : (c : ℕ) {bytes : List ℕ} → c ≢ 10 → Encoded c bytes → NoNewline bytes
encoded-NoNewline c h (one lt) = (ground arith, tt)
encoded-NoNewline c h (two lo hi) = (ground arith, (ground arith, tt))
encoded-NoNewline c h (three lo hi) = (ground arith, (ground arith, (ground arith, tt)))
encoded-NoNewline c h (four lo hi) =
    (ground arith, (ground arith, (ground arith, (ground arith, tt))))

-- The bytes of a line, without the newline behind it.
record LineBytes (line : Text) : Type 0 where
  bytes : List ℕ
  written : encode_utf8 (line ++ 10 ∷ []) ≡ some (bytes ++ 10 ∷ [])
  no_newline : NoNewline bytes
  back : decode_utf8 bytes ≡ line

line_bytes : (line : Text) → All IsLineChar line → LineBytes line
unfolding encode_utf8 decode_utf8 join encode_char decode_from
line_bytes [] h = record { bytes = []; written = refl; no_newline = tt; back = refl }
line_bytes (c ∷ line) h =
    let (first, ef, form) = encode_char-Encoded c h.0.0 in
    let rest = line_bytes line h.1 in
    record {
      bytes = first ++ rest.bytes;
      written = rw (ef, rest.written) (ap some (sym (append_assoc first rest.bytes (10 ∷ []))));
      no_newline =
          append-NoNewline first rest.bytes (encoded-NoNewline c h.0.1 form) rest.no_newline;
      back = decode_encoded c rest.bytes h.0.0 form ∙ ap (λ t. c ∷ t) rest.back;
    }

-- The line of a packet, as send_packet writes it.
abbrev pub line_of : Text → Text
line_of payload = codes "SEND|" ++ payload

ascii_char : (c : ℕ) → 13 < c → c < 0x80 → IsLineChar c
ascii_char c lo hi = (inl (omega arith), (λ e. omega (arith, e)), (λ e. omega (arith, e)))

line_of-All : (payload : Text) → All IsLineChar payload → All IsLineChar (line_of payload)
line_of-All payload h = (
  ascii_char b'S' (omega arith) (omega arith),
  (
    ascii_char b'E' (omega arith) (omega arith),
    (
      ascii_char b'N' (omega arith) (omega arith),
      (
        ascii_char b'D' (omega arith) (omega arith),
        (ascii_char b'|' (omega arith) (omega arith), h),
      ),
    ),
  ),
)

send_raw_line :
    (c : Client) (line bytes : Text)
    → connected c ≡ true
    → rstrip is_line_end line ≡ line
    → encode_utf8 (line ++ 10 ∷ []) ≡ some (bytes ++ 10 ∷ [])
    → length (bytes ++ 10 ∷ []) ≤ max_line_bytes
    → send_raw true line c ≡ (c, ok (bytes ++ 10 ∷ []))
unfolding send_raw send_framed
send_raw_line c line bytes up trimmed written fits =
    let short : ltb max_line_bytes (length (bytes ++ 10 ∷ [])) ≡ false = ground arith in
    rw (up, trimmed, written, short)

take_line_of :
    (peer : Client) (line bytes rest : Text)
    → peer.buffer ≡ (bytes ++ 10 ∷ []) ++ rest
    → NoNewline bytes
    → decode_utf8 bytes ≡ line
    → rstrip is_return line ≡ line
    → take_line peer ≡ (record peer { buffer = rest }, ok (some line))
unfolding take_line take_first
take_line_of peer line bytes rest e clean back trimmed =
    rw (e, append_assoc bytes (10 ∷ []) rest, split_once-char 10 bytes rest clean, back, trimmed)

parse-line_of :
    (payload : Text)
    → rstrip is_line_end (line_of payload) ≡ line_of payload
    → rstrip is_line_end payload ≡ payload
    → parse (line_of payload)
      ≡ ok (some (record { kind = send; payload = payload; raw = line_of payload }))
unfolding encode kind_value
parse-line_of payload whole trimmed =
    let m : Message = record { kind = send; payload = payload; raw = [] } in
    ap parse (sym (append-nil (line_of payload)))
    ∙ (parse-encode m [] tt ∙ rw (whole, trimmed) refl)

-- A peer with a line in its buffer reads it as a message.
buffered_line :
    (peer : Client) (line rest : Text) (m : Message) (n : ℕ)
    → take_line peer ≡ (record peer { buffer = rest }, ok (some line))
    → parse line ≡ ok (some m)
    → buffered (suc n) peer ≡ (record peer { buffer = rest }, ok (some m))
unfolding buffered
buffered_line peer line rest m n taken done =
    let peer' = record peer { buffer = rest } in
    ap (λ a. read_line a (buffered n)) taken ∙ ap (λ r. parsed peer' r (buffered n peer')) done

recv_line :
    (events : List Event) (peer peer' : Client) (m : Message)
    → connected peer ≡ true
    → ((n : ℕ) → buffered (suc n) peer ≡ (peer', ok (some m)))
    → recv events peer ≡ (peer', ok (some m))
unfolding recv recv_open wait_for
recv_line [] peer peer' m up h = rw up (h (length peer.buffer))
recv_line (event ∷ events) peer peer' m up h =
    rw up (ap (λ a. wait_for a event (recv_open events)) (h (length peer.buffer)))

send_packet_raw :
    (c : Client) (packet : Text) (result : Answer (List ℕ))
    → strip packet ≢ []
    → send_raw true (line_of (strip packet)) c ≡ result
    → send_packet true packet c ≡ result
unfolding send_packet
send_packet_raw c packet result filled h =
    let other : (strip packet == []) ≡ false = ground (arith, text_beq_iff (strip packet) []) in
    rw other h

-- A packet that send_packet hands to the socket is one frame, and a connected peer that has the
-- frame at the front of its buffer receives it as a SEND message with the stripped packet as its
-- payload, whatever else happens, and keeps what is behind the frame. The packet has no surrogate
-- and no line break inside, and its frame fits in 64 KiB.
pub recv-send_packet :
    (c : Client) (packet : Text)
    → connected c ≡ true
    → strip packet ≢ []
    → All IsLineChar (strip packet)
    → ((bytes : List ℕ)
        → encode_utf8 (line_of (strip packet) ++ 10 ∷ []) ≡ some bytes
        → length bytes ≤ max_line_bytes)
    → (frame : List ℕ) × (send_packet true packet c ≡ (c, ok frame))
      × ((events : List Event) (peer : Client) (rest : List ℕ)
          → connected peer ≡ true
          → peer.buffer ≡ frame ++ rest
          → recv events peer ≡ (
            record peer { buffer = rest },
            ok (
                some
                  (record { kind = send; payload = strip packet; raw = line_of (strip packet) })),
          ))
recv-send_packet c packet up filled chars fits =
    let payload = strip packet in
    let line = line_of payload in
    let all_chars = line_of-All payload chars in
    let b = line_bytes line all_chars in
    let whole = rstrip-none is_line_end line (line_end-none line all_chars) in
    let trimmed = rstrip-none is_line_end payload (line_end-none payload chars) in
    let no_return = rstrip-none is_return line (return-none line all_chars) in
    (
      b.bytes ++ 10 ∷ [],
      send_packet_raw c packet (c, ok (b.bytes ++ 10 ∷ [])) filled
          (send_raw_line c line b.bytes up whole b.written (fits (b.bytes ++ 10 ∷ []) b.written)),
      λ events peer rest peer_up front.
          recv_line events peer (record peer { buffer = rest })
            (record { kind = send; payload = payload; raw = line }) peer_up
            (λ n.
              buffered_line peer line rest (record { kind = send; payload = payload; raw = line }) n
                (take_line_of peer line b.bytes rest front b.no_newline b.back no_return)
                (parse-line_of payload whole trimmed)),
    )
