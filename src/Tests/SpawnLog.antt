-- ===== src/Tests/SpawnLog.antt =====
-- Runs of spawnlog.py, and its theorems at concrete inputs.
use nostale_packet_logger.Base.{◌≡◌, refl, none, some, [], ◌∷◌, map}
use nostale_packet_logger.Base.Int.{pos}
use nostale_packet_logger.Base.Keys.{Text, text_eq}
use nostale_packet_logger.Base.Dict.{put}
use nostale_packet_logger.Python.{
  codes, is_space, split, int?, find_after, split_max, split_once, strip,
}
use nostale_packet_logger.Python.Errors.{ok}
use nostale_packet_logger.Python.Words.{IsWord}
use nostale_packet_logger.Protocol.{recv, Packet, opcode}
use nostale_packet_logger.Engine.{new_engine}
use nostale_packet_logger.SpawnLog.{load_gates}
use nostale_packet_logger.SpawnLog.Crossings.{load_portals, load_skill_slots}
use nostale_packet_logger.SpawnLog.Names.{load_spawns}
use nostale_packet_logger.SpawnLog.Lines.{IsPlain}
use nostale_packet_logger.SpawnLog.Agreement.{
  IsGateNews, Logged, line_of, packets_of, feed_all, load_gates-feed_all,
}

abbrev received : Text → Packet
received text = record { direction = recv; text = text; timestamp = pos 0 }

abbrev at_packet : Packet
at_packet = received (codes "at 7 1 2 3")

at-IsPlain : IsPlain at_packet (codes "at") (codes "7" ∷ codes "1" ∷ codes "2" ∷ codes "3" ∷ [])
unfolding is_space
at-IsPlain = record {
  text = refl;
  opcode_word = (λ e. cc, (refl, (refl, tt)));
  words = (
    (λ e. cc, (refl, tt)),
    ((λ e. cc, (refl, tt)), ((λ e. cc, (refl, tt)), ((λ e. cc, (refl, tt)), tt))),
  );
  opcode_plain = (refl, (refl, tt));
  words_plain = ((refl, tt), ((refl, tt), ((refl, tt), ((refl, tt), tt))));
}

gp-IsWord : IsWord (codes "gp")
unfolding is_space
gp-IsWord = (λ e. cc, (refl, (refl, tt)))

at_opcode : opcode at_packet ≡ codes "at"
unfolding opcode split_max split_once
at_opcode = refl

abbrev at_logged : Logged
at_logged = record {
  stamp = codes "1 ";
  packet = at_packet;
  op = codes "at";
  words = codes "7" ∷ codes "1" ∷ codes "2" ∷ codes "3" ∷ [];
  stamp_plain = (refl, (refl, tt));
  plain = at-IsPlain;
  news = IsGateNews.position at_opcode;
}

abbrev gp_packet : Packet
gp_packet = received (codes "gp 5 6 9")

gp-IsPlain : IsPlain gp_packet (codes "gp") (codes "5" ∷ codes "6" ∷ codes "9" ∷ [])
unfolding is_space
gp-IsPlain = record {
  text = refl;
  opcode_word = gp-IsWord;
  words = ((λ e. cc, (refl, tt)), ((λ e. cc, (refl, tt)), ((λ e. cc, (refl, tt)), tt)));
  opcode_plain = (refl, (refl, tt));
  words_plain = ((refl, tt), ((refl, tt), ((refl, tt), tt)));
}

gp_opcode : opcode gp_packet ≡ codes "gp"
unfolding opcode split_max split_once
gp_opcode = refl

abbrev gp_logged : Logged
gp_logged = record {
  stamp = codes "2 ";
  packet = gp_packet;
  op = codes "gp";
  words = codes "5" ∷ codes "6" ∷ codes "9" ∷ [];
  stamp_plain = (refl, (refl, tt));
  plain = gp-IsPlain;
  news = IsGateNews.gate gp_opcode;
}

load_gates_example :
    load_gates (some (map line_of (at_logged ∷ gp_logged ∷ [])))
    ≡ (feed_all (new_engine none) (packets_of (at_logged ∷ gp_logged ∷ []))).world.gates
load_gates_example = load_gates-feed_all (at_logged ∷ gp_logged ∷ [])

gates_run :
    load_gates (some (codes "1 [RECV] at 7 1 2 3" ∷ codes "2 [RECV] gp 5 6 9 0 1 0" ∷ []))
    ≡ record { items = ((pos 1, pos 5, pos 6), pos 9) ∷ [] }
unfolding load_gates put split int? find_after split_once
gates_run = refl

portals_run :
    load_portals (
      some (
        codes "1 [SEND] walk 10 20 0 10"
        ∷ codes "2 [RECV] c_map 0 1 0"
        ∷ codes "3 [RECV] at 7 2 30 40"
        ∷ []))
    ≡ record { items = ((pos 1, pos 10, pos 20), pos 2) ∷ ((pos 2, pos 30, pos 40), pos 1) ∷ [] }
unfolding load_portals put split int? find_after split_once
portals_run = refl

slots_run :
    load_skill_slots (
      some (
        codes "1 [RECV] at 7 2 110 141"
        ∷ codes "2 [SEND] u_s 5 3 3161"
        ∷ codes "3 [RECV] su 1 7 3 3161 260 5 11"
        ∷ []))
    ≡ (record { items = (pos 5, pos 260) ∷ [] }, some (pos 7))
unfolding load_skill_slots put split int? find_after split_once
slots_run = refl

spawns_run :
    load_spawns (
      some (
        codes "1 [RECV] in 3 206 5114 50 159 2 100 100 0"
        ∷ codes "2 [RECV] in 1 A - B - 41 105 23 2 0"
        ∷ []))
    ≡ ok (
      record { items = (pos 5114, pos 206) ∷ [] },
      record { items = (pos 41, codes "A - B") ∷ [] },
    )
unfolding load_spawns put int? find_after split_once strip
spawns_run = refl
