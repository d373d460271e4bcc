-- ===== src/Handlers/Skills.antt =====
-- The handlers of engine.py for skills: `ski`, `u_s` and `su`.
use nostale_packet_logger.Base.{
  Bool, ◌&&◌, Option, none, some, List, [], ◌∷◌, ◌++◌, if◌then◌else◌, any,
}
use nostale_packet_logger.Base.Int.{ℤ, pos, ◌-ℤ◌, leb_ℤ, ltb_ℤ}
use nostale_packet_logger.Base.Keys.{◌==◌, int_eq}
use nostale_packet_logger.Base.Dict.{Dict, get, put}
use nostale_packet_logger.Protocol.{Kind, send, Packet, args, int_all, ints}
use nostale_packet_logger.World.{WorldState, append_bounded, combat_max}
use nostale_packet_logger.Handlers.Movement.{is_self}

-- `value in values`
abbrev pub contains : List ℤ → ℤ → Bool
contains values value = any (λ n. n == value) values

-- [value for value in values if value > 0]
unfoldable pub positives : List ℤ → List ℤ
positives [] = []
positives (n ∷ ns) = if ltb_ℤ (pos 0) n then n ∷ positives ns else positives ns

-- sorted(keys)
unfoldable pub insert : ℤ → List ℤ → List ℤ
insert k [] = k ∷ []
insert k (j ∷ js) = if leb_ℤ k j then k ∷ j ∷ js else j ∷ insert k js

unfoldable pub sorted : List ℤ → List ℤ
unfolding insert
sorted [] = []
sorted (k ∷ ks) = insert k (sorted ks)

unfoldable pub keys : List (ℤ × List ℤ) → List ℤ
keys [] = []
keys ((k, v) ∷ l) = k ∷ keys l

unfoldable pub add_new : List ℤ → List ℤ → List ℤ
add_new ordered [] = ordered
add_new ordered (v ∷ vs) = add_new (if contains ordered v then ordered else ordered ++ v ∷ []) vs

abbrev pub page_or_empty : Option (List ℤ) → List ℤ
page_or_empty none = []
page_or_empty (some page) = page

unfoldable pub add_pages : List ℤ → Dict ℤ (List ℤ) → List ℤ → List ℤ
unfolding add_new
add_pages ordered pages [] = ordered
add_pages ordered pages (k ∷ ks) =
    add_pages (add_new ordered (page_or_empty (get pages k))) pages ks

-- The skills of the pages in page order, each once.
unfoldable pub ordered_skills : Dict ℤ (List ℤ) → List ℤ
unfolding add_pages keys sorted
ordered_skills pages = add_pages [] pages (sorted (keys pages.items))

unfoldable pub first_skill : Option ℤ → List ℤ → Option ℤ
first_skill none (v ∷ vs) = some v
first_skill old _ = old

unfoldable pub learn_page : WorldState → Option (List ℤ) → WorldState
unfolding positives first_skill
learn_page w (some (page ∷ values)) =
    let pages = put w.skill_pages page (positives values) in
    record w {
      skill_pages = pages;
      skill_list = ordered_skills pages;
      basic_skill = first_skill w.basic_skill (ordered_skills pages);
    }
learn_page w _ = w

-- _on_skill_list
unfoldable pub on_skill_list : WorldState → Packet → WorldState
unfolding learn_page
on_skill_list w p = learn_page w (int_all (args p))

unfoldable pub use_slot : Kind → ℤ → WorldState → Option (List ℤ) → WorldState
use_slot send now w (some (slot ∷ [])) = record w {
  pending_skill_slot = some slot;
  pending_skill_at = now;
}
use_slot _ now w _ = w

-- _on_skill_send
unfoldable pub on_skill_send : WorldState → Packet → WorldState
unfolding use_slot
on_skill_send w p = use_slot p.direction p.timestamp w (ints 1 p)

-- 5.0 seconds
abbrev pub answer_window : ℤ
answer_window = pos 5_000_000

abbrev pub in_window : WorldState → ℤ → Bool
in_window w now = leb_ℤ (now -ℤ w.pending_skill_at) answer_window

-- The answer to the own `u_s` teaches the slot; a stale slot teaches nothing, and is forgotten too.
unfoldable pub learn_slot : WorldState → ℤ → ℤ → Option ℤ → WorldState
learn_slot w skill now none = w
learn_slot w skill now (some slot) = record w {
  skill_learned = if in_window w now then put w.skill_learned slot skill else w.skill_learned;
  basic_skill = if in_window w now && slot == pos 0 then some skill else w.basic_skill;
  pending_skill_slot = none;
}

unfoldable pub hit_by : WorldState → ℤ → ℤ → ℤ → ℤ → WorldState
hit_by w target_type target_id attacker_id now =
    if target_type == pos 1 && is_self w target_id
    then record w { last_attacker_id = some attacker_id; last_attacker_at = now }
    else w

unfoldable pub use_skill : WorldState → Packet → Option (List ℤ) → WorldState
unfolding learn_slot hit_by
use_skill w p (some (attacker_type ∷ attacker_id ∷ target_type ∷ target_id ∷ skill ∷ [])) =
    let used = record w { last_skill = some skill } in
    let own = attacker_type == pos 1 && is_self w attacker_id in
    let answered =
      if own then learn_slot used skill p.timestamp used.pending_skill_slot else used in
    let hit = hit_by answered target_type target_id attacker_id p.timestamp in
    record hit {
      combat = append_bounded combat_max hit.combat (record {
        attacker_type = attacker_type;
        attacker_id = attacker_id;
        target_type = target_type;
        target_id = target_id;
        skill = skill;
        hit_args = args p;
        text = p.text;
      });
    }
use_skill w p _ = w

-- _on_skill_used
unfoldable pub on_skill_used : WorldState → Packet → WorldState
unfolding use_skill
on_skill_used w p = use_skill w p (ints 5 p)
