-- ===== src/Protocol/Lines.antt =====
-- Message.parse against Message.encode of linux/host/ntpl/protocol.py.
use nostale_packet_logger.Base.{
  ◌≡◌, ◌≢◌, refl, sym, ap, ◌∙◌, true, Option, none, some, [], ◌∷◌, ◌++◌, ◌⊎◌, inl, inr, arith, All,
  ◌↔◌, Option-cases, append-nil,
}
use nostale_packet_logger.Base.Keys.{Text, nat_eq, text_beq_iff}
use nostale_packet_logger.Python.{codes, rstrip, split_once}
use nostale_packet_logger.Python.Errors.{Exception, ok, raise, protocol_error}
use nostale_packet_logger.Python.Strip.{
  rstrip-append, rstrip-trail, rstrip_idem, split_once-char_sound,
}
use nostale_packet_logger.Protocol.{
  Kind, recv, send, status, quit, kind_value, kind?, Message, is_line_end, parse_fields,
  parse_stripped, parse, encode,
}

kind?-kind_value : (k : Kind) → kind? (kind_value k) ≡ some k
unfolding kind? kind_value
kind?-kind_value recv = refl
kind?-kind_value send = refl
kind?-kind_value status = refl
kind?-kind_value quit = refl

kind_value-kind? : (s : Text) (k : Kind) → kind? s ≡ some k → kind_value k ≡ s
unfolding kind? kind_value
kind_value-kind? s k h = ground (
  arith,
  text_beq_iff s (codes "RECV"),
  text_beq_iff s (codes "SEND"),
  text_beq_iff s (codes "STATUS"),
  text_beq_iff s (codes "QUIT"),
)

parse_stripped-encode :
    (k : Kind) (payload : Text)
    → parse_stripped (kind_value k ++ b'|' ∷ payload)
      ≡ ok (some (record { kind = k; payload = payload; raw = kind_value k ++ b'|' ∷ payload }))
unfolding parse_stripped kind_value split_once
parse_stripped-encode recv payload = refl
parse_stripped-encode send payload = refl
parse_stripped-encode status payload = refl
parse_stripped-encode quit payload = refl

-- Whatever ends the line, an encoded message is parsed back: the kind is the same, and the payload
-- is the same but for line ends at its own end, which are lost.
pub parse-encode :
    (m : Message) (trail : Text)
    → All (λ c. is_line_end c ≡ true) trail
    → parse (encode m ++ trail)
      ≡ ok (
          some (record m {
            payload = rstrip is_line_end m.payload;
            raw = rstrip is_line_end (encode m);
          }))
unfolding parse encode
parse-encode m trail h =
    rw
      (
        rstrip-trail is_line_end (kind_value m.kind ++ b'|' ∷ m.payload) trail h,
        rstrip-append is_line_end (kind_value m.kind) b'|' m.payload (unfold is_line_end in refl),
      )
      (parse_stripped-encode m.kind (rstrip is_line_end m.payload))

parse_fields-eq_ok :
    (line : Text) (fields : Option (Text × Text)) (m : Message)
    → ((s t : Text) → fields ≡ some (s, t) → line ≡ s ++ b'|' ∷ t)
    → parse_fields line fields ≡ ok (some m)
    → encode m ≡ line
unfolding parse_fields encode
parse_fields-eq_ok line none m parts h = cc
parse_fields-eq_ok line (some (s, t)) m parts h = elim (Option-cases (kind? s)) [
  | inl e ↦ ground arith
  | inr (k, e) ↦ ground (arith, kind_value-kind? s k e, parts s t refl)
]

parse_stripped-eq_ok :
    (line : Text) (m : Message) → parse_stripped line ≡ ok (some m) → encode m ≡ line
unfolding parse_stripped
parse_stripped-eq_ok [] m h = cc
parse_stripped-eq_ok (c ∷ line) m h =
    parse_fields-eq_ok (c ∷ line) (split_once (codes "|") (c ∷ line)) m
      (λ s t. split_once-char_sound b'|' (c ∷ line)) h

-- A parsed message encodes to the line that was read, without its line ends.
pub encode-parse :
    (line : Text) (m : Message) → parse line ≡ ok (some m) → encode m ≡ rstrip is_line_end line
unfolding parse
encode-parse line m h = parse_stripped-eq_ok (rstrip is_line_end line) m h

parse-rstrip : (line : Text) → parse (rstrip is_line_end line) ≡ parse line
unfolding parse
parse-rstrip line = ap parse_stripped (rstrip_idem is_line_end line)

parse-encode_self : (m : Message) → (m' : Message) × (parse (encode m) ≡ ok (some m'))
parse-encode_self m = (
  record m { payload = rstrip is_line_end m.payload; raw = rstrip is_line_end (encode m) },
  (ap parse (sym (append-nil (encode m))) ∙ parse-encode m [] tt),
)

parse_fields-cases :
    (line : Text) (fields : Option (Text × Text))
    → ((m : Message) × (parse_fields line fields ≡ ok (some m)))
      ⊎ (parse_fields line fields ≡ raise protocol_error)
unfolding parse_fields
parse_fields-cases line none = inr refl
parse_fields-cases line (some (s, t)) = elim (Option-cases (kind? s)) [
  | inl e ↦ inr (rw (e, parse_fields))
  | inr (k, e) ↦ inl (record { kind = k; payload = t; raw = line }, rw (e, parse_fields))
]

parse_stripped-cases :
    (line : Text)
    → line ≢ []
    → ((m : Message) × (parse_stripped line ≡ ok (some m)))
      ⊎ (parse_stripped line ≡ raise protocol_error)
unfolding parse_stripped
parse_stripped-cases [] h = absurd (h refl)
parse_stripped-cases (c ∷ line) h =
    parse_fields-cases (c ∷ line) (split_once (codes "|") (c ∷ line))

-- The stripped line is not blank and encodes no message.
abbrev pub IsMalformed : Text → Type 0
IsMalformed line =
    (rstrip is_line_end line ≢ []) × ((m : Message) → encode m ≢ rstrip is_line_end line)

parse-malformed : (line : Text) → IsMalformed line → parse line ≡ raise protocol_error
unfolding parse
parse-malformed line (full, other) = elim (parse_stripped-cases (rstrip is_line_end line) full) [
  | inl (m, e) ↦ absurd (other m (encode-parse line m e))
  | inr e ↦ e
]

parse-raise_full :
    (line : Text) {e : Exception} → parse line ≡ raise e → rstrip is_line_end line ≢ []
unfolding parse parse_stripped
parse-raise_full line h blank = cc (ap parse_stripped blank)

parse-raise_eq :
    (line : Text) (e : Exception)
    → parse line ≡ raise e
    → rstrip is_line_end line ≢ []
    → e ≡ protocol_error
unfolding parse
parse-raise_eq line e h full = elim (parse_stripped-cases (rstrip is_line_end line) full) [
  | inl (m, p) ↦ cc
  | inr p ↦ ground arith
]

IsMalformed-of_raise :
    (line : Text) (e : Exception) → parse line ≡ raise e → (e ≡ protocol_error) × IsMalformed line
IsMalformed-of_raise line e h = (
  parse-raise_eq line e h (parse-raise_full line h),
  (
    parse-raise_full line h,
    λ m same. let (m', p) = parse-encode_self m in cc (parse-rstrip line, ap parse same),
  ),
)

-- `parse` raises exactly on the malformed lines: those that, without their line ends, are not blank
-- and are not the encoding of any message. What it raises is a ProtocolError.
pub parse-eq_raise :
    (line : Text) (e : Exception)
    → (parse line ≡ raise e) ↔ ((e ≡ protocol_error) × IsMalformed line)
parse-eq_raise line e =
    (IsMalformed-of_raise line e, λ (same, bad). parse-malformed line bad ∙ ap raise (sym same))
