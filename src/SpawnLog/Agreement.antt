-- ===== src/SpawnLog/Agreement.antt =====
-- linux/host/ntpl/spawnlog.py against engine.py: `load_gates` of a session's log finds what the
-- engine learned from its packets.
use nostale_packet_logger.Base.{
  ℕ, suc, ◌≡◌, refl, sym, ap, ◌∙◌, Option, none, some, List, [], ◌∷◌, map, arith, if◌then◌else◌,
}
use nostale_packet_logger.Base.Int.{ℤ, pos}
use nostale_packet_logger.Base.Keys.{Text, ◌==◌, text_eq}
use nostale_packet_logger.Base.Dict.{get, lookup}
use nostale_packet_logger.Python.{codes, is_space}
use nostale_packet_logger.Python.Words.{IsWord}
use nostale_packet_logger.Protocol.{Packet, opcode, ints}
use nostale_packet_logger.World.{WorldState, new_world}
use nostale_packet_logger.Handlers.Movement.{on_map, on_position, enter_map, change_map, arrive}
use nostale_packet_logger.Handlers.Status.{on_gate, add_gate}
use nostale_packet_logger.Engine.{Engine, feed, new_engine, handle, default_handlers}
use nostale_packet_logger.SpawnLog.{
  Listing, ints_after, read_lines, read_log, recv_marker, when, listing_line, listing_map_seen,
  listing_at_seen, gate_line, gate_seen, load_gates,
}
use nostale_packet_logger.SpawnLog.Lines.{recv_line, Unbracketed, IsPlain, ints_after-recv_line}

-- What the engine knows of gates, as the loop of load_gates holds it.
abbrev gates_of : WorldState → Listing ℤ
gates_of w = (w.map_id, w.gates)

-- A packet that load_gates reads: a gate, the own position, or the arrival on a map.
pub data IsGateNews (p : Packet) : Type 0 where
  gate : opcode p ≡ codes "gp" → IsGateNews p
  position : opcode p ≡ codes "at" → IsGateNews p
  arrival :
      (kind m : ℤ)
      → opcode p ≡ codes "c_map"
      → ints 3 p ≡ some (kind ∷ m ∷ pos 1 ∷ [])
      → IsGateNews p

-- A line of the log, with its packet.
pub record Logged : Type 0 where
  pub stamp : Text
  pub packet : Packet
  pub op : Text
  pub words : List Text
  pub stamp_plain : Unbracketed stamp
  pub plain : IsPlain packet op words
  pub news : IsGateNews packet

abbrev pub line_of : Logged → Text
line_of l = recv_line l.stamp l.packet.text

gp-IsWord : IsWord (codes "gp")
unfolding is_space
gp-IsWord = (λ e. cc, (refl, (refl, tt)))

at-IsWord : IsWord (codes "at")
unfolding is_space
at-IsWord = (λ e. cc, (refl, (refl, tt)))

c_map-IsWord : IsWord (codes "c_map")
unfolding is_space
c_map-IsWord = (λ e. cc, (refl, (refl, (refl, (refl, (refl, tt))))))

gate_seen-add_gate :
    (w : WorldState) (m : Option ℤ) (found : Option (List ℤ))
    → w.map_id ≡ m
    → when found (gate_seen (m, w.gates)) (m, w.gates) ≡ gates_of (add_gate w m found)
unfolding gate_seen add_gate
gate_seen-add_gate w none none e = ground arith
gate_seen-add_gate w none (some ns) e = ground arith
gate_seen-add_gate w (some m) none e = ground arith
gate_seen-add_gate w (some m) (some []) e = ground arith
gate_seen-add_gate w (some m) (some (x ∷ [])) e = ground arith
gate_seen-add_gate w (some m) (some (x ∷ y ∷ [])) e = ground arith
gate_seen-add_gate w (some m) (some (x ∷ y ∷ d ∷ [])) e = ground arith
gate_seen-add_gate w (some m) (some (x ∷ y ∷ d ∷ z ∷ ns)) e = ground arith

listing_at_seen-arrive :
    (w : WorldState) (found : Option (List ℤ))
    → when found (listing_at_seen (gates_of w)) (gates_of w) ≡ gates_of (arrive w found)
unfolding listing_at_seen arrive
listing_at_seen-arrive w none = refl
listing_at_seen-arrive w (some []) = refl
listing_at_seen-arrive w (some (a ∷ [])) = refl
listing_at_seen-arrive w (some (a ∷ b ∷ [])) = refl
listing_at_seen-arrive w (some (a ∷ b ∷ c ∷ [])) = refl
listing_at_seen-arrive w (some (a ∷ b ∷ c ∷ d ∷ [])) = refl
listing_at_seen-arrive w (some (a ∷ b ∷ c ∷ d ∷ e ∷ ns)) = refl

map_id-enter :
    (w : WorldState) (kind m : ℤ)
    → gates_of (change_map w (some (kind ∷ m ∷ pos 1 ∷ []))).world ≡ (some m, w.gates)
unfolding change_map enter_map
map_id-enter w kind m = refl

-- The three markers on the line of a packet.
marker_ints :
    (l : Logged) (op' : Text) (n : ℕ)
    → IsWord op'
    → ints_after (line_of l) (recv_marker op') (suc n)
      ≡ (if opcode l.packet == op' then ints (suc n) l.packet else none)
marker_ints l op' n word' =
    ints_after-recv_line l.stamp l.packet l.op op' l.words n l.stamp_plain l.plain word'

gate_line_read :
    (l : Logged) (w : WorldState)
    → opcode l.packet ≡ codes "gp"
    → listing_line gate_line (gates_of w) (line_of l) ≡ gates_of (on_gate w l.packet)
unfolding listing_line gate_line on_gate
gate_line_read l w e =
    rw
      (
        marker_ints l (codes "c_map") 2 c_map-IsWord,
        marker_ints l (codes "at") 3 at-IsWord,
        marker_ints l (codes "gp") 2 gp-IsWord,
        e,
      )
      (gate_seen-add_gate w w.map_id (ints 3 l.packet) refl)

at_line_read :
    (l : Logged) (w : WorldState)
    → opcode l.packet ≡ codes "at"
    → listing_line gate_line (gates_of w) (line_of l) ≡ gates_of (on_position w l.packet)
unfolding listing_line gate_line on_position
at_line_read l w e =
    rw
      (
        marker_ints l (codes "c_map") 2 c_map-IsWord,
        marker_ints l (codes "at") 3 at-IsWord,
        marker_ints l (codes "gp") 2 gp-IsWord,
        e,
      )
      (listing_at_seen-arrive w (ints 4 l.packet))

map_line_read :
    (l : Logged) (w : WorldState) (kind m : ℤ)
    → opcode l.packet ≡ codes "c_map"
    → ints 3 l.packet ≡ some (kind ∷ m ∷ pos 1 ∷ [])
    → listing_line gate_line (gates_of w) (line_of l) ≡ gates_of (on_map w l.packet).world
unfolding listing_line listing_map_seen on_map
map_line_read l w kind m e ns =
    rw (marker_ints l (codes "c_map") 2 c_map-IsWord, e, ns) (sym (map_id-enter w kind m))

-- Engine.feed of the default engine, for the opcodes of gate news.
feed-news :
    (l : Logged) (w : WorldState)
    → listing_line gate_line (gates_of w) (line_of l)
      ≡ gates_of (feed (record { world = w; handlers = default_handlers }) l.packet).0.world
unfolding feed handle default_handlers get lookup
feed-news l w =
    let w' = record w { last_packet = some l.packet } in
    elim l.news [
      | gate e ↦ rw e (gate_line_read l w' e)
      | position e ↦ rw e (at_line_read l w' e)
      | arrival kind m e ns ↦ rw e (map_line_read l w' kind m e ns)
    ]

abbrev pub packets_of : List Logged → List Packet
packets_of ls = map (λ l. l.packet) ls

unfoldable pub feed_all : Engine → List Packet → Engine
unfolding feed
feed_all e [] = e
feed_all e (p ∷ ps) = feed_all (feed e p).0 ps

read_lines-feed_all :
    (ls : List Logged) (w : WorldState)
    → read_lines (listing_line gate_line) (gates_of w) (map line_of ls)
      ≡ gates_of
          (feed_all (record { world = w; handlers = default_handlers }) (packets_of ls)).world
unfolding read_lines feed_all feed
read_lines-feed_all [] w = refl
read_lines-feed_all (l ∷ ls) w =
    ap (λ s. read_lines (listing_line gate_line) s (map line_of ls)) (feed-news l w)
    ∙ read_lines-feed_all ls
        (feed (record { world = w; handlers = default_handlers }) l.packet).0.world

-- A host that attaches late and reads the log of a session finds the gates that an engine would
-- know that had been fed the session's packets: the log holds, line by line, received `gp` and
-- `at` packets and arrivals (`c_map` with state 1), and their texts have single spaces and no
-- brackets.
pub load_gates-feed_all :
    (ls : List Logged)
    → load_gates (some (map line_of ls)) ≡ (feed_all (new_engine none) (packets_of ls)).world.gates
unfolding load_gates read_log new_engine
load_gates-feed_all ls = ap (λ s. s.1) (read_lines-feed_all ls new_world)
