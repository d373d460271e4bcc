-- ===== src/SpawnLog.antt =====
-- linux/host/ntpl/spawnlog.py: what a late host recovers from the DLL's packet log. A log is the
-- list of its lines; `none` is a log that is missing or that does not open.
pub mod Crossings
pub mod Names
pub mod Lines
pub mod Agreement
use nostale_packet_logger.Base.{
  ℕ, zero, suc, Bool, true, false, ◌&&◌, Option, none, some, List, [], ◌∷◌, ◌++◌, if◌then◌else◌,
}
use nostale_packet_logger.Base.Int.{ℤ, pos, leb_ℤ, ltb_ℤ}
use nostale_packet_logger.Base.Keys.{Text, Cell, ◌==◌, int_eq, cell_eq}
use nostale_packet_logger.Base.Dict.{Dict, empty, put}
use nostale_packet_logger.Python.{codes, split, find_after, int?}
use nostale_packet_logger.Handlers.Skills.{positives, ordered_skills}

abbrev pub recv_marker : Text → Text
recv_marker op = codes "[RECV] " ++ op ++ codes " "

abbrev pub send_marker : Text → Text
send_marker op = codes "[SEND] " ++ op ++ codes " "

-- The first `count` numbers of the tokens; `none` if one of them is no number or is missing.
unfoldable pub first_ints : ℕ → List Text → Option (List ℤ)
first_ints zero tokens = some []
first_ints (suc n) [] = none
first_ints (suc n) (t ∷ tokens) = elim (int? t) [
  | none ↦ none
  | some v ↦ elim (first_ints n tokens) [ none ↦ none | some vs ↦ some (v ∷ vs) ]
]

unfoldable pub read_found : ℕ → Option Text → Option (List ℤ)
unfolding first_ints
read_found count none = none
read_found count (some rest) = first_ints count (split rest)

-- _ints_after; `none` is its empty list. `count` is not 0 in any call.
unfoldable pub ints_after : Text → Text → ℕ → Option (List ℤ)
unfolding read_found
ints_after line marker count = read_found count (find_after marker line)

module _ {ℓ} {S : Type ℓ} (step : S → Text → S) where
  -- for line in log
  unfoldable pub read_lines : S → List Text → S
  read_lines s [] = s
  read_lines s (line ∷ lines) = read_lines (step s line) lines

  unfoldable pub read_log : S → Option (List Text) → S
  unfolding read_lines
  read_log s none = s
  read_log s (some lines) = read_lines s lines

-- The numbers up to the first token that is none.
unfoldable pub leading_ints : List Text → List ℤ
leading_ints [] = []
leading_ints (t ∷ tokens) = elim (int? t) [ none ↦ [] | some v ↦ v ∷ leading_ints tokens ]

unfoldable pub log_page : Dict ℤ (List ℤ) → List ℤ → Dict ℤ (List ℤ)
unfolding positives
log_page pages [] = pages
log_page pages (page ∷ values) = put pages page (positives values)

unfoldable pub skill_list_line : Dict ℤ (List ℤ) → Text → Dict ℤ (List ℤ)
unfolding leading_ints log_page
skill_list_line pages line = elim (find_after (recv_marker (codes "ski")) line) [
  | none ↦ pages
  | some rest ↦ log_page pages (leading_ints (split rest))
]

-- load_skill_list
unfoldable pub load_skill_list : Option (List Text) → List ℤ
unfolding skill_list_line read_log
load_skill_list log = ordered_skills (read_log skill_list_line empty log)

pub record Position : Type 0 where
  pub map_id : Option ℤ
  pub x : Option ℤ
  pub y : Option ℤ
  pub self_id : Option ℤ

-- The numbers of a line under a marker, with what to do if there are none of them.
abbrev pub when {ℓ} : {S : Type ℓ} → Option (List ℤ) → (List ℤ → Option S) → S → S
when none found other = other
when (some ns) found other = elim (found ns) [ none ↦ other | some s ↦ s ]

unfoldable pub at_seen : Position → List ℤ → Option Position
at_seen p (char_id ∷ m ∷ x ∷ y ∷ []) =
    some (record { map_id = some m; x = some x; y = some y; self_id = some char_id })
at_seen p _ = none

unfoldable pub walk_seen : Position → List ℤ → Option Position
walk_seen p (x ∷ y ∷ []) =
    if leb_ℤ (pos 0) x && leb_ℤ (pos 0) y then some (record p { x = some x; y = some y }) else none
walk_seen p _ = none

-- `mv` and `tp` of a player.
unfoldable pub player_seen : Position → List ℤ → Option Position
player_seen p (kind ∷ entity_id ∷ x ∷ y ∷ []) =
    if kind == pos 1 then some (record p { x = some x; y = some y }) else none
player_seen p _ = none

unfoldable pub map_seen : Position → List ℤ → Option Position
map_seen p (kind ∷ m ∷ state ∷ []) =
    if state == pos 1 then some (record p { map_id = some m }) else none
map_seen p _ = none

unfoldable pub position_line : Position → Text → Position
unfolding ints_after at_seen walk_seen player_seen map_seen
position_line p line = when (ints_after line (recv_marker (codes "at")) 4) (at_seen p) (
    when (ints_after line (send_marker (codes "walk")) 2) (walk_seen p) (
      when (ints_after line (recv_marker (codes "mv")) 4) (player_seen p) (
        when (ints_after line (recv_marker (codes "tp")) 4) (player_seen p)
          (when (ints_after line (recv_marker (codes "c_map")) 3) (map_seen p) p))))

-- load_last_position
unfoldable pub load_last_position : Option (List Text) → Position
unfolding position_line read_log
load_last_position log =
    read_log position_line (record { map_id = none; x = none; y = none; self_id = none }) log

-- The loops of load_gates and load_timespaces: the current map, and the table so far.
abbrev pub Listing : Type 0 → Type 0
Listing V = Option ℤ × Dict Cell V

unfoldable pub listing_map_seen : {V : Type 0} → Listing V → List ℤ → Option (Listing V)
listing_map_seen (m', table) (kind ∷ m ∷ state ∷ []) =
    if state == pos 1 then some (some m, table) else some (m', table)
listing_map_seen s _ = none

unfoldable pub listing_at_seen : {V : Type 0} → Listing V → List ℤ → Option (Listing V)
listing_at_seen (m', table) (char_id ∷ m ∷ x ∷ y ∷ []) = some (some m, table)
listing_at_seen s _ = none

-- A line that is neither a c_map nor an at is left to `other`.
unfoldable pub listing_line :
    {V : Type 0} → (Listing V → Text → Listing V) → Listing V → Text → Listing V
unfolding ints_after listing_map_seen listing_at_seen
listing_line other s line =
    when (ints_after line (recv_marker (codes "c_map")) 3) (listing_map_seen s)
      (when (ints_after line (recv_marker (codes "at")) 4) (listing_at_seen s) (other s line))

unfoldable pub gate_seen : Listing ℤ → List ℤ → Option (Listing ℤ)
gate_seen (some m, gates) (x ∷ y ∷ destination ∷ []) =
    if leb_ℤ (pos 0) x && leb_ℤ (pos 0) y && ltb_ℤ (pos 0) destination
    then some (some m, put gates (m, x, y) destination)
    else none
gate_seen s _ = none

unfoldable pub gate_line : Listing ℤ → Text → Listing ℤ
unfolding ints_after gate_seen
gate_line s line = when (ints_after line (recv_marker (codes "gp")) 3) (gate_seen s) s

-- load_gates
unfoldable pub load_gates : Option (List Text) → Dict Cell ℤ
unfolding listing_line gate_line read_log
load_gates log = (read_log (listing_line gate_line) (none, empty) log).1

-- A Time-Space entrance as load_timespaces keeps it: id, flag, and the two levels.
abbrev pub Entrance : Type 0
Entrance = ℤ × ℤ × ℤ × ℤ

unfoldable pub entrance_seen : Listing Entrance → List ℤ → Option (Listing Entrance)
entrance_seen (some m, table) (x ∷ y ∷ ts_id ∷ flag ∷ min_level ∷ max_level ∷ []) =
    if leb_ℤ (pos 0) x && leb_ℤ (pos 0) y && ltb_ℤ (pos 0) ts_id
    then some (some m, put table (m, x, y) (ts_id, flag, min_level, max_level))
    else none
entrance_seen s _ = none

unfoldable pub entrance_line : Listing Entrance → Text → Listing Entrance
unfolding ints_after entrance_seen
entrance_line s line = when (ints_after line (recv_marker (codes "wp")) 6) (entrance_seen s) s

-- load_timespaces
unfoldable pub load_timespaces : Option (List Text) → Dict Cell Entrance
unfolding listing_line entrance_line read_log
load_timespaces log = (read_log (listing_line entrance_line) (none, empty) log).1
