-- ===== src/Engine/WellFormed/Skills.antt =====
-- The handlers of Handlers/Skills.antt keep the world well-formed.
use nostale_packet_logger.Base.{refl, Option, none, some, List, [], ◌∷◌, ◌&&◌}
use nostale_packet_logger.Base.Int.{ℤ, pos}
use nostale_packet_logger.Base.Keys.{◌==◌, int_eq}
use nostale_packet_logger.Base.Each.{Each-put}
use nostale_packet_logger.World.{WorldState, Hit, append_bounded, combat_max}
use nostale_packet_logger.Protocol.{Kind, send, Packet, args, int_all, ints}
use nostale_packet_logger.Handlers.Movement.{is_self}
use nostale_packet_logger.Handlers.Skills.{
  positives, learn_page, on_skill_list, use_slot, on_skill_send, learn_slot, hit_by, use_skill,
  on_skill_used,
}
use nostale_packet_logger.Engine.WellFormed.{IsWellFormed, IsWellFormed-if, IsPage}
use nostale_packet_logger.Engine.WellFormed.Entries.{positives-IsPage, length-append_bounded}

learn_page-IsWellFormed :
    (w : WorldState) (values : Option (List ℤ))
    → IsWellFormed w
    → IsWellFormed (learn_page w values)
unfolding learn_page
learn_page-IsWellFormed w (some (page ∷ values)) h =
    let pages =
      Each-put IsPage w.skill_pages page (positives values) h.pages
        (positives-IsPage page values) in
    record {
      entities = h.entities;
      drops = h.drops;
      gates = h.gates;
      portals = h.portals;
      timespaces = h.timespaces;
      position = h.position;
      facing = h.facing;
      pages = pages;
      skills = refl;
      chat = h.chat;
      combat = h.combat;
    }
learn_page-IsWellFormed w _ h = h

use_slot-IsWellFormed :
    (direction : Kind) (now : ℤ) (w : WorldState) (values : Option (List ℤ))
    → IsWellFormed w
    → IsWellFormed (use_slot direction now w values)
unfolding use_slot
use_slot-IsWellFormed send now w (some (slot ∷ [])) h = assumption
use_slot-IsWellFormed _ now w _ h = h

learn_slot-IsWellFormed :
    (w : WorldState) (skill now : ℤ) (slot : Option ℤ)
    → IsWellFormed w
    → IsWellFormed (learn_slot w skill now slot)
unfolding learn_slot
learn_slot-IsWellFormed w skill now none h = h
learn_slot-IsWellFormed w skill now (some slot) h = assumption

hit_by-IsWellFormed :
    (w : WorldState) (target_type target_id attacker_id now : ℤ)
    → IsWellFormed w
    → IsWellFormed (hit_by w target_type target_id attacker_id now)
unfolding hit_by
hit_by-IsWellFormed w target_type target_id attacker_id now h =
    IsWellFormed-if (target_type == pos 1 && is_self w target_id) _ w (assumption) h

logged-IsWellFormed :
    (w : WorldState) (hit : Hit)
    → IsWellFormed w
    → IsWellFormed (record w { combat = append_bounded combat_max w.combat hit })
logged-IsWellFormed w hit h =
    let bound = length-append_bounded combat_max w.combat hit in assumption

use_skill-IsWellFormed :
    (w : WorldState) (p : Packet) (values : Option (List ℤ))
    → IsWellFormed w
    → IsWellFormed (use_skill w p values)
unfolding use_skill
use_skill-IsWellFormed w p
      (some (attacker_type ∷ attacker_id ∷ target_type ∷ target_id ∷ skill ∷ [])) h =
    let used : WorldState = record w { last_skill = some skill } in
    let fine : IsWellFormed used = assumption in
    logged-IsWellFormed _ _ (
      hit_by-IsWellFormed _ target_type target_id attacker_id p.timestamp (
        IsWellFormed-if (attacker_type == pos 1 && is_self w attacker_id) _ used
          (learn_slot-IsWellFormed used skill p.timestamp used.pending_skill_slot fine) fine))
use_skill-IsWellFormed w p _ h = h

module _ (w : WorldState) (p : Packet) (h : IsWellFormed w) where
  pub on_skill_list-IsWellFormed : IsWellFormed (on_skill_list w p)
  unfolding on_skill_list
  on_skill_list-IsWellFormed = learn_page-IsWellFormed w (int_all (args p)) h

  pub on_skill_send-IsWellFormed : IsWellFormed (on_skill_send w p)
  unfolding on_skill_send
  on_skill_send-IsWellFormed = use_slot-IsWellFormed p.direction p.timestamp w (ints 1 p) h

  pub on_skill_used-IsWellFormed : IsWellFormed (on_skill_used w p)
  unfolding on_skill_used
  on_skill_used-IsWellFormed = use_skill-IsWellFormed w p (ints 5 p) h
