-- ===== src/Engine/Chat.antt =====
-- The chat that linux/host/ntpl/engine.py keeps.
use nostale_packet_logger.Base.{
  ◌-◌, ◌≡◌, refl, sym, ap, ◌∙◌, Option, none, some, List, [], ◌∷◌, ◌++◌, length, drop,
}
use nostale_packet_logger.Base.Int.{ℤ}
use nostale_packet_logger.Base.Keys.{Text}
use nostale_packet_logger.Protocol.{Packet}
use nostale_packet_logger.World.{WorldState, new_world, chat_max}
use nostale_packet_logger.World.Deque.{append_all, append_all-append, append_all_lem}
use nostale_packet_logger.Handlers.Status.{say_line, hear, on_chat}

abbrev pub one : Option (ℤ × ℤ × Text) → List (ℤ × ℤ × Text)
one none = []
one (some line) = line ∷ []

-- What the packets say, in order; a malformed one says nothing.
unfoldable pub said : List Packet → List (ℤ × ℤ × Text)
said [] = []
said (p ∷ ps) = one (say_line p) ++ said ps

unfoldable pub hear_all : WorldState → List Packet → WorldState
hear_all w [] = w
hear_all w (p ∷ ps) = hear_all (on_chat w p) ps

chat-hear :
    (w : WorldState) (line : Option (ℤ × ℤ × Text))
    → (hear w line).chat ≡ append_all chat_max w.chat (one line)
unfolding hear
chat-hear w none = refl
chat-hear w (some line) = refl

chat-hear_all :
    (w : WorldState) (ps : List Packet)
    → (hear_all w ps).chat ≡ append_all chat_max w.chat (said ps)
unfolding hear_all said on_chat
chat-hear_all w [] = refl
chat-hear_all w (p ∷ ps) =
    chat-hear_all (on_chat w p) ps
    ∙ (ap (λ c. append_all chat_max c (said ps)) (chat-hear w (say_line p))
        ∙ sym (append_all-append chat_max w.chat (one (say_line p)) (said ps)))

-- After any `say` packets the chat holds the last two hundred lines that they said, in order.
pub chat_history :
    (ps : List Packet) → (hear_all new_world ps).chat ≡ drop (length (said ps) - chat_max) (said ps)
chat_history ps = chat-hear_all new_world ps ∙ append_all_lem chat_max (said ps)
