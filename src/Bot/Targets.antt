-- ===== src/Bot/Targets.antt =====
-- linux/host/ntpl/gui.py: which monsters and drops the bot goes for.
use nostale_packet_logger.Base.{
  ℕ, suc, Bool, true, false, not, ◌&&◌, ◌||◌, Option, none, some, List, [], ◌∷◌, if◌then◌else◌, ltb,
  leb, any,
}
use nostale_packet_logger.Base.Int.{ℤ, pos, ltb_ℤ, ◌-ℤ◌}
use nostale_packet_logger.Base.Keys.{◌==◌, int_eq, nat_eq}
use nostale_packet_logger.Base.Dict.{Dict, get, remove}
use nostale_packet_logger.World.{Entity, GroundItem}
use nostale_packet_logger.Bot.{
  Bot, MonsterMode, all, only, except, own_char_id, player_cell, cells_between,
}

abbrev or_zero : Option ℤ → ℤ
or_zero none = pos 0
or_zero (some n) = n

-- _monster_vnum
unfoldable pub monster_vnum : Bot → Entity → ℤ
monster_vnum b e = if e.vnum == pos 0 then or_zero (get b.log_vnums e.entity_id) else e.vnum

unfoldable pub allowed_vnum : MonsterMode → Bool → List ℤ → ℤ → Bool
allowed_vnum all unknown vnums v = true
allowed_vnum only unknown vnums v = if v == pos 0 then unknown else any (λ n. n == v) vnums
allowed_vnum except unknown vnums v = not (any (λ n. n == v) vnums)

-- _monster_allowed
unfoldable pub monster_allowed : Bot → Entity → Bool
unfolding monster_vnum allowed_vnum
monster_allowed b e =
    allowed_vnum b.settings.monster_mode b.settings.attack_unknown b.settings.target_vnums
      (monster_vnum b e)

-- Whether an entity is blocked at this time.
unfoldable pub blocked_at : ℤ → Option ℤ → Bool
blocked_at now none = false
blocked_at now (some until) = ltb_ℤ now until

-- _target_blocked: an entry that has run out is dropped.
unfoldable pub target_blocked : ℤ → Dict ℤ ℤ → ℤ → Dict ℤ ℤ × Bool
unfolding blocked_at
target_blocked now blocked id =
    let held = blocked_at now (get blocked id) in
    (if held then blocked else remove blocked id, held)

abbrev pub kind_monster : ℤ
kind_monster = pos 3

-- The best monster so far, and its distance.
abbrev pub Best : Type 0
Best = Option Entity × ℕ

-- One turn of the loop of _nearest_monster.
unfoldable pub consider : Bot → ℕ → ℤ × ℤ → Dict ℤ ℤ × Best → Entity → Dict ℤ ℤ × Best
unfolding target_blocked
consider b radius cell (blocked, (best, best_distance)) e =
    if not (e.kind == kind_monster) || not (monster_allowed b e)
    then (blocked, (best, best_distance))
    else (let (blocked', held) = target_blocked b.now blocked e.entity_id in
        let distance = cells_between (e.x, e.y) cell in
        if not held && (leb distance radius && ltb distance best_distance)
        then (blocked', (some e, distance))
        else (blocked', (best, best_distance)))

unfoldable pub consider_all :
    Bot → ℕ → ℤ × ℤ → Dict ℤ ℤ × Best → List (ℤ × Entity) → Dict ℤ ℤ × Best
unfolding consider
consider_all b radius cell state [] = state
consider_all b radius cell state ((id, e) ∷ es) =
    consider_all b radius cell (consider b radius cell state e) es

unfoldable pub nearest_from : Bot → ℕ → Option (ℤ × ℤ) → Bot × Option Entity
unfolding consider_all
nearest_from b radius none = (b, none)
nearest_from b radius (some cell) =
    let (blocked, (best, _)) =
      consider_all b radius cell (b.target_blocked, (none, suc radius)) b.world.entities.items in
    (record b { target_blocked = blocked }, best)

-- _nearest_monster
unfoldable pub nearest_monster : Bot → ℕ → Bot × Option Entity
unfolding nearest_from
nearest_monster b radius = nearest_from b radius (player_cell b)

abbrev pub if_in_reach : ℕ → Entity → Option (ℤ × ℤ) → Option Entity
if_in_reach radius e none = none
if_in_reach radius e (some cell) =
    if leb (cells_between (e.x, e.y) cell) radius then some e else none

unfoldable pub attacker_in_reach : Bot → ℕ → Entity → Option Entity
attacker_in_reach b radius e = if_in_reach radius e (player_cell b)

unfoldable pub retaliate_on : Bot → ℕ → Option Entity → Bot × Option Entity
retaliate_on b radius none = (b, none)
retaliate_on b radius (some e) =
    let (blocked, held) = target_blocked b.now b.target_blocked e.entity_id in
    let b' = record b { target_blocked = blocked } in
    if not (e.kind == kind_monster) || not (monster_allowed b e)
    then (b, none)
    else if held
    then (b', none)
    else (b', attacker_in_reach b' radius e)

unfoldable pub retaliate_to : Bot → ℕ → Option ℤ → Bot × Option Entity
retaliate_to b radius none = (b, none)
retaliate_to b radius (some id) =
    if ltb_ℤ (pos 5000000) (b.wall -ℤ b.world.last_attacker_at)
    then (b, none)
    else retaliate_on b radius (get b.world.entities id)

-- _retaliation_target: only a hit of the last five seconds counts.
unfoldable pub retaliation_target : Bot → ℕ → Bot × Option Entity
unfolding retaliate_to
retaliation_target b radius = retaliate_to b radius b.world.last_attacker_id

-- A drop that the loop of _nearest_drop passes over.
unfoldable pub is_skipped : Bot → ℤ → GroundItem → Bool
is_skipped b id d =
    not (d.owner_id == pos 0 || d.owner_id == id)
    || leb 3 (elim (get b.pickup_attempts d.drop_id) [ none ↦ 0 | some n ↦ n ])
    || ltb_ℤ b.now (or_zero (get b.pickup_ignored d.drop_id))

abbrev pub BestDrop : Type 0
BestDrop = Option GroundItem × ℕ

unfoldable pub nearest_of : Bot → ℕ → ℤ → ℤ × ℤ → BestDrop → List (ℤ × GroundItem) → BestDrop
unfolding is_skipped
nearest_of b radius id cell best [] = best
nearest_of b radius id cell (best, best_distance) ((_, d) ∷ ds) =
    let distance = cells_between (d.x, d.y) cell in
    nearest_of b radius id cell
      (if not (is_skipped b id d) && (leb distance radius && ltb distance best_distance)
        then (some d, distance)
        else (best, best_distance))
      ds

-- _nearest_drop
unfoldable pub nearest_drop : Bot → ℕ → Option GroundItem
unfolding nearest_of
nearest_drop b radius = elim (player_cell b) [
  | none ↦ none
  | some cell ↦ elim (own_char_id b) [
    | none ↦ none
    | some id ↦ (nearest_of b radius id cell (none, suc radius) b.world.drops.items).0
  ]
]
