-- ===== src/Engine/WellFormed/Status.antt =====
-- The handlers of Handlers/Status.antt keep the world well-formed.
use nostale_packet_logger.Base.{refl, Option, some, List, [], ◌∷◌, arith}
use nostale_packet_logger.Base.Int.{ℤ}
use nostale_packet_logger.Base.Keys.{cell_eq, int_eq}
use nostale_packet_logger.Base.Each.{Each-put}
use nostale_packet_logger.World.{WorldState, TimeSpace}
use nostale_packet_logger.Protocol.{Packet, ints}
use nostale_packet_logger.Handlers.Status.{
  on_rest, on_condition, on_select, on_gate, on_waypoint, on_cancel, on_stats, on_chat, sit,
  condition, add_gate, add_timespace,
}
use nostale_packet_logger.Engine.WellFormed.{IsWellFormed, IsGate, IsEntrance}
use nostale_packet_logger.Engine.WellFormed.Entries.{update_known-IsNamed, length-append_bounded}

sit-IsWellFormed :
    (w : WorldState) (values : Option (List ℤ)) → IsWellFormed w → IsWellFormed (sit w values)
unfolding sit
sit-IsWellFormed w (some (kind ∷ entity_id ∷ state ∷ [])) h =
    let known =
      update_known-IsNamed w.entities entity_id (λ e. record e { kind = kind }) (λ e. refl)
        h.entities in
    ground arith
sit-IsWellFormed w _ h = h

condition-IsWellFormed :
    (w : WorldState) (values : Option (List ℤ)) → IsWellFormed w → IsWellFormed (condition w values)
unfolding condition
condition-IsWellFormed w (some (kind ∷ entity_id ∷ _ ∷ _ ∷ speed ∷ [])) h =
    let known =
      update_known-IsNamed w.entities entity_id (λ e. record e { kind = kind; speed = speed })
        (λ e. refl) h.entities in
    assumption
condition-IsWellFormed w _ h = h

add_gate-IsWellFormed :
    (w : WorldState) (m : Option ℤ) (values : Option (List ℤ))
    → IsWellFormed w
    → IsWellFormed (add_gate w m values)
unfolding add_gate
add_gate-IsWellFormed w (some m) (some (x ∷ y ∷ destination ∷ [])) h =
    let new = Each-put IsGate w.gates (m, x, y) destination h.gates in ground arith
add_gate-IsWellFormed w _ _ h = h

add_timespace-IsWellFormed :
    (w : WorldState) (m : Option ℤ) (values : Option (List ℤ))
    → IsWellFormed w
    → IsWellFormed (add_timespace w m values)
unfolding add_timespace
add_timespace-IsWellFormed w (some m) (some (x ∷ y ∷ ts_id ∷ _ ∷ lo ∷ hi ∷ [])) h =
    let t : TimeSpace = record {
      map_id = m;
      x = x;
      y = y;
      ts_id = ts_id;
      min_level = lo;
      max_level = hi;
    } in
    let new = Each-put IsEntrance w.timespaces (m, x, y) t h.timespaces in ground arith
add_timespace-IsWellFormed w _ _ h = h

module _ (w : WorldState) (p : Packet) (h : IsWellFormed w) where
  pub on_select-IsWellFormed : IsWellFormed (on_select w p)
  unfolding on_select
  on_select-IsWellFormed = ground arith

  pub on_stats-IsWellFormed : IsWellFormed (on_stats w p)
  unfolding on_stats
  on_stats-IsWellFormed = ground arith

  pub on_cancel-IsWellFormed : IsWellFormed (on_cancel w p)
  unfolding on_cancel
  on_cancel-IsWellFormed = assumption

  pub on_chat-IsWellFormed : IsWellFormed (on_chat w p)
  unfolding on_chat
  on_chat-IsWellFormed = grind (arith, length-append_bounded)

  pub on_rest-IsWellFormed : IsWellFormed (on_rest w p)
  unfolding on_rest
  on_rest-IsWellFormed = sit-IsWellFormed w (ints 3 p) h

  pub on_condition-IsWellFormed : IsWellFormed (on_condition w p)
  unfolding on_condition
  on_condition-IsWellFormed = condition-IsWellFormed w (ints 5 p) h

  pub on_gate-IsWellFormed : IsWellFormed (on_gate w p)
  unfolding on_gate
  on_gate-IsWellFormed = add_gate-IsWellFormed w w.map_id (ints 3 p) h

  pub on_waypoint-IsWellFormed : IsWellFormed (on_waypoint w p)
  unfolding on_waypoint
  on_waypoint-IsWellFormed = add_timespace-IsWellFormed w w.map_id (ints 6 p) h
