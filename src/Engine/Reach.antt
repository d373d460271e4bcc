-- ===== src/Engine/Reach.antt =====
-- Engine.feed and Engine.on of linux/host/ntpl/engine.py keep the world well-formed.
use nostale_packet_logger.Base.{none, some, Option-cases, inl, inr}
use nostale_packet_logger.Base.Keys.{Text, text_eq}
use nostale_packet_logger.Base.Dict.{Dict, get}
use nostale_packet_logger.Base.Each.{Each, Each-put, Each-items}
use nostale_packet_logger.Protocol.{Packet, opcode}
use nostale_packet_logger.World.{WorldState}
use nostale_packet_logger.Handlers.{Handler}
use nostale_packet_logger.Engine.{Engine, default_handlers, new_engine, on, handle, feed}
use nostale_packet_logger.Engine.WellFormed.{IsWellFormed, new_world-IsWellFormed}
use nostale_packet_logger.Engine.WellFormed.Movement.{
  on_walk-IsWellFormed, on_map-IsWellFormed, on_mapout-IsWellFormed, on_position-IsWellFormed,
  on_move-IsWellFormed, on_teleport-IsWellFormed,
}
use nostale_packet_logger.Engine.WellFormed.Spawns.{
  on_spawn-IsWellFormed, on_despawn-IsWellFormed, on_status-IsWellFormed, on_drop-IsWellFormed,
  on_get-IsWellFormed,
}
use nostale_packet_logger.Engine.WellFormed.Status.{
  on_rest-IsWellFormed, on_condition-IsWellFormed, on_select-IsWellFormed, on_gate-IsWellFormed,
  on_waypoint-IsWellFormed, on_cancel-IsWellFormed, on_stats-IsWellFormed, on_chat-IsWellFormed,
}
use nostale_packet_logger.Engine.WellFormed.Skills.{
  on_skill_list-IsWellFormed, on_skill_send-IsWellFormed, on_skill_used-IsWellFormed,
}

-- A handler that keeps the world well-formed, whether it returns or raises.
abbrev pub KeepsWellFormed : Text → Handler → Type 0
KeepsWellFormed op h = (w : WorldState) (p : Packet) → IsWellFormed w → IsWellFormed (h w p).world

default_handlers-KeepsWellFormed : Each KeepsWellFormed default_handlers
unfolding default_handlers
default_handlers-KeepsWellFormed = Each-items KeepsWellFormed _ (
  on_walk-IsWellFormed,
  (
    on_map-IsWellFormed,
    (
      on_mapout-IsWellFormed,
      (
        on_position-IsWellFormed,
        (
          on_move-IsWellFormed,
          (
            on_drop-IsWellFormed,
            (
              on_get-IsWellFormed,
              (
                on_spawn-IsWellFormed,
                (
                  on_despawn-IsWellFormed,
                  (
                    on_status-IsWellFormed,
                    (
                      on_teleport-IsWellFormed,
                      (
                        on_rest-IsWellFormed,
                        (
                          on_condition-IsWellFormed,
                          (
                            on_select-IsWellFormed,
                            (
                              on_skill_send-IsWellFormed,
                              (
                                on_gate-IsWellFormed,
                                (
                                  on_waypoint-IsWellFormed,
                                  (
                                    on_skill_list-IsWellFormed,
                                    (
                                      on_skill_used-IsWellFormed,
                                      (
                                        on_cancel-IsWellFormed,
                                        (on_stats-IsWellFormed, (on_chat-IsWellFormed, tt)),
                                      ),
                                    ),
                                  ),
                                ),
                              ),
                            ),
                          ),
                        ),
                      ),
                    ),
                  ),
                ),
              ),
            ),
          ),
        ),
      ),
    ),
  ),
)

seen-IsWellFormed :
    (w : WorldState) (p : Packet)
    → IsWellFormed w
    → IsWellFormed (record w { last_packet = some p })
seen-IsWellFormed w p h = assumption

handle-IsWellFormed :
    (op : Text) (handlers : Dict Text Handler) (w : WorldState) (p : Packet)
    → Each KeepsWellFormed handlers
    → IsWellFormed w
    → IsWellFormed (handle (get handlers op) w p).world
unfolding handle
handle-IsWellFormed op handlers w p all h = elim (Option-cases (get handlers op)) [
  | inl e ↦ rw (e, handle) h
  | inr (f, e) ↦ rw (e, handle) (all.at op f e w p h)
]

feed-IsWellFormed :
    (e : Engine) (p : Packet)
    → Each KeepsWellFormed e.handlers
    → IsWellFormed e.world
    → IsWellFormed (feed e p).0.world
unfolding feed
feed-IsWellFormed e p all h =
    handle-IsWellFormed (opcode p) e.handlers (record e.world { last_packet = some p }) p all
      (seen-IsWellFormed e.world p h)

-- The engines that a program reaches: it makes one over a new world, feeds it any packets, and
-- registers handlers that keep the world well-formed.
pub data Reach : Engine → Type 0 where
  made : Reach (new_engine none)
  fed : {e : Engine} → Reach e → (p : Packet) → Reach (feed e p).0
  registered :
      {e : Engine} → Reach e → (op : Text) (h : Handler) → KeepsWellFormed op h → Reach (on e op h)

pub record IsSound (e : Engine) : Type 0 where
  pub handlers : Each KeepsWellFormed e.handlers
  pub world : IsWellFormed e.world

Reach-IsSound : {e : Engine} → Reach e → IsSound e
unfolding new_engine on feed
Reach-IsSound made = record {
  handlers = default_handlers-KeepsWellFormed;
  world = new_world-IsWellFormed;
}
Reach-IsSound (fed {e = e} r p) =
    let s = Reach-IsSound r in
    record { handlers = s.handlers; world = feed-IsWellFormed e p s.handlers s.world }
Reach-IsSound (registered {e = e} r op h keeps) =
    let s = Reach-IsSound r in
    record { handlers = Each-put KeepsWellFormed e.handlers op h s.handlers keeps; world = s.world }

-- Whatever packets arrive, malformed ones too, and whatever handlers that keep the world well-formed
-- are registered, the world stays well-formed. Entities and items are stored under their own ids. A
-- gate stands at coordinates that are not negative and leads to a map with a positive number, be it
-- the same map; a learned portal leads to another map. A Time-Space is stored under its own map and
-- cell, which is not negative, and has a positive id. The position is known in both coordinates or in
-- neither, the facing is one of the eight directions, a skill page has positive skills only, the
-- skill list is the pages' skills in order, and the chat and the combat log keep their bounds.
pub Reach-IsWellFormed : {e : Engine} → Reach e → IsWellFormed e.world
Reach-IsWellFormed r = (Reach-IsSound r).world
