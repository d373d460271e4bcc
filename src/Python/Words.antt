-- ===== src/Python/Words.antt =====
-- `split` undoes joining words by single spaces.
use nostale_packet_logger.Base.{
  ◌≡◌, ◌≢◌, refl, ap, ◌∙◌, false, List, [], ◌∷◌, ◌++◌, append-nil, append_assoc, All,
}
use nostale_packet_logger.Base.Keys.{Text}
use nostale_packet_logger.Python.Texts.{is_space, flush, split_from, split}

-- A word: not empty, and without white space.
abbrev pub IsWord : Text → Type 0
IsWord w = (w ≢ []) × All (λ c. is_space c ≡ false) w

-- Each word behind a space.
abbrev pub spaced : List Text → Text
spaced [] = []
spaced (w ∷ ws) = b' ' ∷ w ++ spaced ws

split_from-append :
    (word w rest : Text)
    → All (λ c. is_space c ≡ false) w
    → split_from word (w ++ rest) ≡ split_from (word ++ w) rest
unfolding split_from
split_from-append word [] rest h = rw append-nil
split_from-append word (c ∷ w) rest h =
    rw (h.0) (split_from-append (word ++ c ∷ []) w rest h.1 ∙ rw append_assoc)

flush-word : (w : Text) (ws : List Text) → w ≢ [] → flush w ws ≡ w ∷ ws
unfolding flush
flush-word [] ws h = absurd (h refl)
flush-word (c ∷ w) ws h = refl

split_from-spaced :
    (word : Text) (ws : List Text) → All IsWord ws → split_from word (spaced ws) ≡ flush word ws
unfolding split_from
split_from-spaced word [] h = refl
split_from-spaced word (w ∷ ws) h = ap (flush word) (
    split_from-append [] w (spaced ws) h.0.1 ∙ (split_from-spaced w ws h.1 ∙ flush-word w ws h.0.0))

pub split-spaced :
    (w : Text) (ws : List Text) → IsWord w → All IsWord ws → split (w ++ spaced ws) ≡ w ∷ ws
unfolding split
split-spaced w ws h hs =
    split_from-append [] w (spaced ws) h.1 ∙ (split_from-spaced w ws hs ∙ flush-word w ws h.0)
