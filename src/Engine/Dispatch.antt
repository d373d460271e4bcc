-- ===== src/Engine/Dispatch.antt =====
-- Which handler Engine.feed of linux/host/ntpl/engine.py calls.
use nostale_packet_logger.Base.{◌≡◌, ◌≢◌, ap, ◌∙◌, Option, none, some, arith}
use nostale_packet_logger.Base.Keys.{Text, text_eq, text_beq_iff}
use nostale_packet_logger.Base.Dict.{get, put, get-put, get-put_self}
use nostale_packet_logger.Protocol.{Packet, opcode}
use nostale_packet_logger.World.{WorldState}
use nostale_packet_logger.Handlers.{Handler}
use nostale_packet_logger.Engine.{Engine, on, handle, uncaught, feed}

-- A packet whose opcode has no handler is remembered as the last packet, and changes nothing else.
feed_unknown :
    (e : Engine) (p : Packet)
    → get e.handlers (opcode p) ≡ none
    → feed e p ≡ (record e { world = record e.world { last_packet = some p } }, none)
unfolding feed
feed_unknown e p h = rw (h, handle)

get-put_ne :
    (e : Engine) (op : Text) (h : Handler) (k : Text)
    → k ≢ op
    → get (put e.handlers op h) k ≡ get e.handlers k
get-put_ne e op h k other = ground (arith, get-put e.handlers op k h, text_beq_iff op k)

-- After `on op h`, a packet with that opcode is handled by `h` alone, and what `feed` raises is what
-- `h` raised and `feed` does not catch. A packet with another opcode fares as it did before.
pub feed-on :
    (e : Engine) (op : Text) (h : Handler) (p : Packet)
    → (opcode p ≡ op
        → let o = h (record e.world { last_packet = some p }) p in
          ((feed (on e op h) p).0.world ≡ o.world) × ((feed (on e op h) p).1 ≡ uncaught o.raised))
      × (opcode p ≢ op
          → ((feed (on e op h) p).0.world ≡ (feed e p).0.world)
            × ((feed (on e op h) p).1 ≡ (feed e p).1))
unfolding feed on
feed-on e op h p =
    let w : WorldState = record e.world { last_packet = some p } in
    let read = λ (o : Option Handler). (handle o w p).world in
    let raises = λ (o : Option Handler). uncaught (handle o w p).raised in
    (
      λ same.
          let found = ap (get (put e.handlers op h)) same ∙ get-put_self e.handlers op h in
          (ap read found, ap raises found),
      λ other. let found = get-put_ne e op h (opcode p) other in (ap read found, ap raises found),
    )
