-- ===== src/BotConfig/Write.antt =====
-- linux/host/ntpl/botconfig.py: `to_dict` of the rules and of the whole configuration.
use nostale_packet_logger.Base.{map}
use nostale_packet_logger.Base.Int.{pos}
use nostale_packet_logger.Python.{codes}
use nostale_packet_logger.Python.Json.{
  Json, boolean, integer, real, text, array, object, end, field, items_of,
}
use nostale_packet_logger.BotConfig.{SpellRule, BotConfig}
use nostale_packet_logger.BotConfig.Read.{sorted_set}

-- SpellRule.to_dict
unfoldable pub rule_to_dict : SpellRule → Json
rule_to_dict r = object (
    field (codes "enabled") (boolean r.enabled) (
      field (codes "spell") (integer r.spell) (
        field (codes "subject") (text r.subject) (
          field (codes "comparator") (text r.comparator) (
            field (codes "threshold") (real r.threshold) (
              field (codes "cooldown") (real r.cooldown)
                (field (codes "target") (text r.target) end)))))))

-- BotConfig.to_dict
unfoldable pub to_dict : BotConfig → Json
unfolding rule_to_dict items_of sorted_set
to_dict c = object (
    field (codes "version") (integer (pos 1)) (
      field (codes "auto_attack") (boolean c.auto_attack) (
        field (codes "retaliate") (boolean c.retaliate) (
          field (codes "skill") (integer c.skill) (
            field (codes "skill_template") (text c.skill_template) (
              field (codes "attack_range") (integer c.attack_range) (
                field (codes "attack_cooldown") (real c.attack_cooldown) (
                  field (codes "pickup") (boolean c.pickup) (
                    field (codes "loot_range") (integer c.loot_range) (
                      field (codes "recover") (boolean c.recover) (
                        field (codes "low_hp_pct") (real c.low_hp_pct) (
                          field (codes "loop") (boolean c.loop) (
                            field (codes "monster_mode") (text c.monster_mode) (
                              field (codes "monster_vnums")
                                (array (items_of (map integer (sorted_set c.monster_vnums))))
                                (field (codes "attack_unknown") (boolean c.attack_unknown) (
                                  field (codes "spell_rules")
                                    (array (items_of (map rule_to_dict c.spell_rules)))
                                    end))))))))))))))))
