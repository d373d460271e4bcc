-- ===== src/Python/Strip.antt =====
-- What `rstrip` and the split at a separator do to texts put together.
use nostale_packet_logger.Base.{
  ℕ, ◌≡◌, refl, ap, ◌∙◌, Bool, true, false, Option, none, some, [], ◌∷◌, ◌++◌, arith, All,
  Bool-cases, inl, inr,
}
use nostale_packet_logger.Base.Keys.{Text, ◌==◌, nat_eq}
use nostale_packet_logger.Python.Texts.{keep_last, rstrip, put_front, split_once}

module _ (p : ℕ → Bool) where
  keep_last-keep : (c : ℕ) (s : Text) → p c ≡ false → keep_last p c s ≡ c ∷ s
  unfolding keep_last
  keep_last-keep c [] h = rw h
  keep_last-keep c (d ∷ s) h = refl

  keep_last-append :
      (d : ℕ) (s : Text) (c : ℕ) (t : Text) → keep_last p d (s ++ c ∷ t) ≡ d ∷ s ++ c ∷ t
  unfolding keep_last
  keep_last-append d [] c t = refl
  keep_last-append d (e ∷ s) c t = refl

  -- What stands in front of a character that stays is kept.
  pub rstrip-append :
      (s : Text) (c : ℕ) (t : Text) → p c ≡ false → rstrip p (s ++ c ∷ t) ≡ s ++ c ∷ rstrip p t
  unfolding rstrip
  rstrip-append [] c t h = keep_last-keep c (rstrip p t) h
  rstrip-append (d ∷ s) c t h =
      ap (keep_last p d) (rstrip-append s c t h) ∙ keep_last-append d s c (rstrip p t)

  -- Where no character is taken, the text stays.
  pub rstrip-none : (s : Text) → All (λ c. p c ≡ false) s → rstrip p s ≡ s
  unfolding rstrip
  rstrip-none [] h = refl
  rstrip-none (c ∷ s) h = ap (keep_last p c) (rstrip-none s h.1) ∙ keep_last-keep c s h.0

  rstrip-keep_last :
      (c : ℕ) (s : Text) → rstrip p s ≡ s → rstrip p (keep_last p c s) ≡ keep_last p c s
  unfolding rstrip
  rstrip-keep_last c [] h = elim (Bool-cases (p c)) [ inl e ↦ rw e | inr e ↦ rw (e, e) ]
  rstrip-keep_last c (d ∷ s) h = ap (keep_last p c) h

  pub rstrip_idem : (s : Text) → rstrip p (rstrip p s) ≡ rstrip p s
  unfolding rstrip
  rstrip_idem [] = refl
  rstrip_idem (c ∷ s) = rstrip-keep_last c (rstrip p s) (rstrip_idem s)

-- Characters at the end that are all taken make no difference.
pub rstrip-trail :
    (p : ℕ → Bool) (s trail : Text)
    → All (λ c. p c ≡ true) trail
    → rstrip p (s ++ trail) ≡ rstrip p s
unfolding rstrip keep_last
rstrip-trail p [] [] h = refl
rstrip-trail p [] (c ∷ trail) h = rw (rstrip-trail p [] trail h.1, h.0)
rstrip-trail p (c ∷ s) trail h = ap (keep_last p c) (rstrip-trail p s trail h)

-- A text without the separator's character, then the separator: the split is there.
pub split_once-char :
    (c : ℕ) (s t : Text)
    → All (λ d. (c == d) ≡ false) s
    → split_once (c ∷ []) (s ++ c ∷ t) ≡ some (s, t)
unfolding split_once
split_once-char c [] t h = ground arith
split_once-char c (d ∷ s) t h = rw (h.0, split_once-char c s t h.1)

pub split_once-char_none :
    (c : ℕ) (s : Text) → All (λ d. (c == d) ≡ false) s → split_once (c ∷ []) s ≡ none
unfolding split_once
split_once-char_none c [] h = refl
split_once-char_none c (d ∷ s) h = rw (h.0, split_once-char_none c s h.1)

put_front-eq_some :
    (c : ℕ) (o : Option (Text × Text)) {a b : Text}
    → put_front c o ≡ some (a, b)
    → (a' : Text) × (a ≡ c ∷ a') × (o ≡ some (a', b))
unfolding put_front
put_front-eq_some c none h = cc
put_front-eq_some c (some (x, y)) h = (x, ground arith, ground arith)

-- The parts, put together around the separator, are the text again.
pub split_once-char_sound :
    (c : ℕ) (line : Text) {s t : Text} → split_once (c ∷ []) line ≡ some (s, t) → line ≡ s ++ c ∷ t
unfolding split_once
split_once-char_sound c [] h = cc
split_once-char_sound c (d ∷ line) {s} {t} h = elim (Bool-cases (c == d)) [
  | inl e ↦ ground arith
  | inr e ↦
      let (a', es, eo) = put_front-eq_some d (split_once (c ∷ []) line) (rw e at h) in
      rw es (ap (λ r. d ∷ r) (split_once-char_sound c line eo))
]
