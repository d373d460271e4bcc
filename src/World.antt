-- ===== src/World.antt =====
-- linux/host/ntpl/engine.py: the game state that the packets are folded into.
pub mod Deque
use nostale_packet_logger.Base.{
  ℕ, zero, suc, ◌+◌, ◌-◌, ◌*◌, ◌%◌, Bool, true, false, ◌&&◌, Option, none, some, List, [], ◌∷◌,
  ◌++◌, if◌then◌else◌, length, get_elem?, drop, ltb,
}
use nostale_packet_logger.Base.Int.{ℤ, pos, negsuc, ◌+ℤ◌, pos_part, leb_ℤ, ltb_ℤ}
use nostale_packet_logger.Base.Keys.{Text, Cell, Key, ◌==◌, nat_eq, int_eq}
use nostale_packet_logger.Base.Dict.{Dict, empty, get}
use nostale_packet_logger.Protocol.{Packet}

pub record Entity : Type 0 where
  pub entity_id : ℤ
  pub kind : ℤ
  pub vnum : ℤ
  pub name : Text
  pub x : ℤ
  pub y : ℤ
  pub speed : ℤ

-- Entity(entity_id, kind)
abbrev pub new_entity : ℤ → ℤ → Entity
new_entity entity_id kind = record {
  entity_id = entity_id;
  kind = kind;
  vnum = pos 0;
  name = [];
  x = pos 0;
  y = pos 0;
  speed = pos 0;
}

pub record GroundItem : Type 0 where
  pub drop_id : ℤ
  pub item_vnum : ℤ
  pub x : ℤ
  pub y : ℤ
  pub amount : ℤ
  pub owner_id : ℤ

pub record TimeSpace : Type 0 where
  pub map_id : ℤ
  pub x : ℤ
  pub y : ℤ
  pub ts_id : ℤ
  pub min_level : ℤ
  pub max_level : ℤ

pub record CharacterStats : Type 0 where
  pub hp : ℤ
  pub hp_max : ℤ
  pub mp : ℤ
  pub mp_max : ℤ

-- One entry of `combat`.
pub record Hit : Type 0 where
  pub attacker_type : ℤ
  pub attacker_id : ℤ
  pub target_type : ℤ
  pub target_id : ℤ
  pub skill : ℤ
  pub hit_args : List Text
  pub text : Text

pub record WorldState : Type 0 where
  pub map_id : Option ℤ
  pub x : Option ℤ
  pub y : Option ℤ
  pub facing : Option (ℤ × ℤ)
  pub entities : Dict ℤ Entity
  pub drops : Dict ℤ GroundItem
  pub gates : Dict Cell ℤ
  pub portals : Dict Cell ℤ
  pub pending_departure : Option Cell
  pub timespaces : Dict Cell TimeSpace
  pub stats : CharacterStats
  pub chat : List (ℤ × ℤ × Text)
  pub resting : Option Bool
  pub self_id : Option ℤ
  pub target_id : Option ℤ
  pub last_skill : Option ℤ
  pub cancel_count : ℕ
  pub skill_pages : Dict ℤ (List ℤ)
  pub skill_list : List ℤ
  pub skill_learned : Dict ℤ ℤ
  pub basic_skill : Option ℤ
  pub pending_skill_slot : Option ℤ
  pub pending_skill_at : ℤ
  pub last_attacker_id : Option ℤ
  pub last_attacker_at : ℤ
  pub combat : List Hit
  pub last_packet : Option Packet

-- WorldState()
abbrev pub new_world : WorldState
new_world = record {
  map_id = none;
  x = none;
  y = none;
  facing = none;
  entities = empty;
  drops = empty;
  gates = empty;
  portals = empty;
  pending_departure = none;
  timespaces = empty;
  stats = record { hp = pos 0; hp_max = pos 0; mp = pos 0; mp_max = pos 0 };
  chat = [];
  resting = none;
  self_id = none;
  target_id = none;
  last_skill = none;
  cancel_count = 0;
  skill_pages = empty;
  skill_list = [];
  skill_learned = empty;
  basic_skill = none;
  pending_skill_slot = none;
  pending_skill_at = pos 0;
  last_attacker_id = none;
  last_attacker_at = pos 0;
  combat = [];
  last_packet = none;
}

abbrev pub both : Option ℤ → Option ℤ → Option (ℤ × ℤ)
both (some x) (some y) = some (x, y)
both _ _ = none

-- WorldState.position
unfoldable pub position : WorldState → Option (ℤ × ℤ)
position w = both w.x w.y

-- The bounded deques: `append` on a full one drops the oldest entry.
abbrev pub chat_max : ℕ
chat_max = 200

abbrev pub combat_max : ℕ
combat_max = 100

unfoldable pub append_bounded {ℓ} : {A : Type ℓ} → ℕ → List A → A → List A
append_bounded limit xs x = let ys = xs ++ x ∷ [] in drop (length ys - limit) ys

unfoldable pub index_of : ℤ → List ℤ → Option ℕ
index_of v [] = none
index_of v (n ∷ ns) =
    if n == v then some 0 else elim (index_of v ns) [ none ↦ none | some i ↦ some (suc i) ]

-- The first key with the value.
unfoldable pub key_of : ℤ → List (ℤ × ℤ) → Option ℤ
key_of v [] = none
key_of v ((k, w) ∷ l) = if w == v then some k else key_of v l

unfoldable pub slot_or_learned : Option ℕ → Option ℤ → Option ℤ
slot_or_learned (some slot) learned = some (pos slot)
slot_or_learned none learned = learned

-- WorldState.skill_slot
unfoldable pub skill_slot : WorldState → ℤ → Option ℤ
unfolding index_of key_of slot_or_learned
skill_slot w vnum = slot_or_learned (index_of vnum w.skill_list) (key_of vnum w.skill_learned.items)

-- WorldState.skill_vnum
unfoldable pub skill_vnum : WorldState → ℤ → Option ℤ
skill_vnum w slot =
    if leb_ℤ (pos 0) slot && ltb_ℤ slot (pos (length w.skill_list))
    then get_elem? w.skill_list (pos_part slot)
    else get w.skill_learned slot

-- Python's a % m for a positive m: the result is never negative.
abbrev pub mod_ℤ : ℤ → ℕ → ℕ
mod_ℤ (pos n) m = n % m
mod_ℤ (negsuc n) m = m - 1 - n % m

unfoldable pub walk_checksum : ℤ → ℤ → ℕ
walk_checksum x y = if mod_ℤ (x +ℤ y) 3 == 1 then 1 else 0
