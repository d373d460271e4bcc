-- ===== src/Python/Texts.antt =====
-- The methods of `str` on lists of code points.
use Prim.Native.Char.{code}
use Prim.Native.String.{String}
use nostale_packet_logger.Base.{
  ℕ, zero, suc, ◌≡◌, refl, Bool, true, false, ◌&&◌, ◌||◌, Option, none, some, List, [], ◌∷◌, ◌++◌,
  leb, if◌then◌else◌, length, drop,
}
use nostale_packet_logger.Base.Keys.{Text, ◌==◌, nat_eq}

-- A text literal of the source.
abbrev pub codes : String → Text
codes String.[] = []
codes (String.◌∷◌ c s) = code c ∷ codes s

-- str.isspace of one character.
unfoldable pub is_space : ℕ → Bool
is_space c =
    (leb 9 c && leb c 13)
    || (leb 28 c && leb c 32)
    || c == 133
    || c == 160
    || c == 5760
    || (leb 8192 c && leb c 8202)
    || c == 8232
    || c == 8233
    || c == 8239
    || c == 8287
    || c == 12288

unfoldable pub lstrip : (ℕ → Bool) → Text → Text
lstrip p [] = []
lstrip p (c ∷ s) = if p c then lstrip p s else c ∷ s

unfoldable pub keep_last : (ℕ → Bool) → ℕ → Text → Text
keep_last p c [] = if p c then [] else c ∷ []
keep_last p c (d ∷ s) = c ∷ d ∷ s

unfoldable pub rstrip : (ℕ → Bool) → Text → Text
unfolding keep_last
rstrip p [] = []
rstrip p (c ∷ s) = keep_last p c (rstrip p s)

-- text.strip()
unfoldable pub strip : Text → Text
unfolding is_space lstrip rstrip
strip s = rstrip is_space (lstrip is_space s)

-- `word` is the word being read.
unfoldable pub flush : Text → List Text → List Text
flush [] words = words
flush (c ∷ word) words = (c ∷ word) ∷ words

unfoldable pub split_from : Text → Text → List Text
unfolding flush is_space
split_from word [] = flush word []
split_from word (c ∷ s) =
    let next = flush word (split_from [] s) in
    let more = split_from (word ++ c ∷ []) s in if is_space c then next else more

-- text.split()
unfoldable pub split : Text → List Text
unfolding split_from
split s = split_from [] s

unfoldable pub starts_with : Text → Text → Bool
starts_with [] s = true
starts_with (c ∷ p) [] = false
starts_with (c ∷ p) (d ∷ s) = c == d && starts_with p s

unfoldable pub put_front : ℕ → Option (Text × Text) → Option (Text × Text)
put_front c none = none
put_front c (some (a, b)) = some (c ∷ a, b)

-- What stands before and behind the first `sep`; `none` if it does not occur.
unfoldable pub split_once : Text → Text → Option (Text × Text)
unfolding starts_with put_front
split_once sep [] = if starts_with sep [] then some ([], []) else none
split_once sep (c ∷ s) =
    if starts_with sep (c ∷ s)
    then some ([], drop (length sep) (c ∷ s))
    else put_front c (split_once sep s)

-- text.split(sep, n)
unfoldable pub split_max : ℕ → Text → Text → List Text
split_max zero sep s = s ∷ []
split_max (suc n) sep s = elim (split_once sep s) [
  | none ↦ s ∷ []
  | some (a, b) ↦ a ∷ split_max n sep b
]

unfoldable pub after : Option (Text × Text) → Option Text
after none = none
after (some (a, b)) = some b

-- line[line.find(marker) + len(marker):], or `none` if the marker does not occur.
unfoldable pub find_after : Text → Text → Option Text
unfolding after
find_after marker line = after (split_once marker line)

pub after-put_front : (c : ℕ) (o : Option (Text × Text)) → after (put_front c o) ≡ after o
unfolding after put_front
after-put_front c none = refl
after-put_front c (some (a, b)) = refl
