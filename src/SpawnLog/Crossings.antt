-- ===== src/SpawnLog/Crossings.antt =====
-- linux/host/ntpl/spawnlog.py: the portals and the skill slots that the log shows.
use nostale_packet_logger.Base.{
  Bool, true, false, ◌&&◌, Option, none, some, List, [], ◌∷◌, if◌then◌else◌,
}
use nostale_packet_logger.Base.Int.{ℤ, pos, leb_ℤ}
use nostale_packet_logger.Base.Keys.{Text, Cell, ◌==◌, int_eq, cell_eq}
use nostale_packet_logger.Base.Dict.{Dict, empty, put}
use nostale_packet_logger.Python.{codes, find_after}
use nostale_packet_logger.SpawnLog.{recv_marker, send_marker, ints_after, read_log, when}

pub record Crossings : Type 0 where
  pub portals : Dict Cell ℤ
  pub last : Option (ℤ × ℤ)
  -- The map that is left, and the cell it was left from.
  pub pending : Option Cell

unfoldable pub walk_seen : Crossings → List ℤ → Option Crossings
walk_seen s (x ∷ y ∷ []) =
    if leb_ℤ (pos 0) x && leb_ℤ (pos 0) y then some (record s { last = some (x, y) }) else none
walk_seen s _ = none

-- `mv` and `tp` of a player.
unfoldable pub player_seen : Crossings → List ℤ → Option Crossings
player_seen s (kind ∷ entity_id ∷ x ∷ y ∷ []) =
    if kind == pos 1 then some (record s { last = some (x, y) }) else none
player_seen s _ = none

unfoldable pub leave : ℤ → Option (ℤ × ℤ) → Crossings → Crossings
leave m none s = s
leave m (some (x, y)) s = record s { pending = some (m, x, y) }

unfoldable pub enter : ℤ → Option Cell → Crossings → Crossings
enter m none s = s
enter m (some (m', x, y)) s =
    if m == m' then s else record s { portals = put s.portals (m', x, y) m; pending = none }

unfoldable pub map_seen : Crossings → List ℤ → Option Crossings
unfolding leave enter
map_seen s (kind ∷ m ∷ state ∷ []) =
    some (
      if state == pos 0
      then leave m s.last s
      else if state == pos 1
      then enter m s.pending s
      else s)
map_seen s _ = none

unfoldable pub arrive : ℤ → ℤ → ℤ → Option Cell → Crossings → Crossings
arrive m x y none s = s
arrive m x y (some (m', x', y')) s =
    if m == m'
    then s
    else record s { portals = put (put s.portals (m', x', y') m) (m, x, y) m'; pending = none }

unfoldable pub at_seen : Crossings → List ℤ → Option Crossings
unfolding arrive
at_seen s (char_id ∷ m ∷ x ∷ y ∷ []) =
    some (record (arrive m x y s.pending s) { last = some (x, y) })
at_seen s _ = none

-- `_MAPOUT_MARKER in line`
abbrev pub contains_mapout : Text → Bool
contains_mapout line = elim (find_after (codes "[RECV] mapout") line) [
  | none ↦ false
  | some rest ↦ true
]

unfoldable pub crossing_line : Crossings → Text → Crossings
unfolding ints_after walk_seen player_seen map_seen at_seen
crossing_line s line = when (ints_after line (send_marker (codes "walk")) 2) (walk_seen s) (
    when (ints_after line (recv_marker (codes "mv")) 4) (player_seen s) (
      when (ints_after line (recv_marker (codes "tp")) 4) (player_seen s) (
        when (ints_after line (recv_marker (codes "c_map")) 3) (map_seen s) (
          if contains_mapout line
          then s
          else when (ints_after line (recv_marker (codes "at")) 4) (at_seen s) s))))

-- load_portals
unfoldable pub load_portals : Option (List Text) → Dict Cell ℤ
unfolding crossing_line read_log
load_portals log =
    (read_log crossing_line (record { portals = empty; last = none; pending = none }) log).portals

pub record SlotLog : Type 0 where
  pub slots : Dict ℤ ℤ
  pub self_id : Option ℤ
  -- Slot, target type and target id of the skill that was sent.
  pub pending : Option (ℤ × ℤ × ℤ)

unfoldable pub own_id : Option (List ℤ) → Option ℤ → Option ℤ
own_id (some (char_id ∷ [])) none = some char_id
own_id _ old = old

unfoldable pub sent_skill : SlotLog → List ℤ → Option SlotLog
sent_skill s (slot ∷ kind ∷ target ∷ []) = some (record s { pending = some (slot, kind, target) })
sent_skill s _ = none

unfoldable pub answers : Option ℤ → Option (ℤ × ℤ × ℤ) → List ℤ → Bool
answers (some self_id) (some (slot, kind, target))
      (attacker_kind ∷ attacker ∷ target_kind ∷ target_id ∷ vnum ∷ []) =
    attacker_kind == pos 1 && attacker == self_id && target_kind == kind && target_id == target
answers _ _ _ = false

unfoldable pub learn : SlotLog → Option (ℤ × ℤ × ℤ) → List ℤ → SlotLog
learn s (some (slot, kind, target))
      (attacker_kind ∷ attacker ∷ target_kind ∷ target_id ∷ vnum ∷ []) =
    record s { slots = put s.slots slot vnum; pending = none }
learn s _ _ = s

unfoldable pub skill_answered : SlotLog → List ℤ → Option SlotLog
unfolding answers learn
skill_answered s order =
    if answers s.self_id s.pending order then some (learn s s.pending order) else none

unfoldable pub slot_line : SlotLog → Text → SlotLog
unfolding ints_after own_id sent_skill skill_answered
slot_line s line =
    let s' = record s {
      self_id = own_id (ints_after line (recv_marker (codes "at")) 1) s.self_id;
    } in
    when (ints_after line (send_marker (codes "u_s")) 3) (sent_skill s')
      (when (ints_after line (recv_marker (codes "su")) 5) (skill_answered s') s')

-- load_skill_slots
unfoldable pub load_skill_slots : Option (List Text) → Dict ℤ ℤ × Option ℤ
unfolding slot_line read_log
load_skill_slots log =
    let s = read_log slot_line (record { slots = empty; self_id = none; pending = none }) log in
    (s.slots, s.self_id)
