-- ===== src/BotConfig/Limits.antt =====
-- linux/host/ntpl/botconfig.py: what holds of every configuration that is read.
use nostale_packet_logger.Base.{
  ℕ, suc, ◌≤◌, ◌≡◌, ◌≢◌, ◌⊎◌, refl, inl, inr, true, Option, List, [], ◌∷◌, arith, All, length,
  length-take, Bool-cases, Option-cases, ◌*◌, leb,
}
use nostale_packet_logger.Base.Int.{ℤ, pos, negsuc, ◌≤ℤ◌, ◌<ℤ◌}
use nostale_packet_logger.Base.Keys.{Text, int_eq, text_eq}
use nostale_packet_logger.Python.{codes, strip, int?}
use nostale_packet_logger.Python.Errors.{
  Exception, Result, ok, raise, config_error, overflow_error, ◌>>=◌,
}
use nostale_packet_logger.Python.Floats.{
  Float, Within, clamp_float-Within, whole, scale, finite, nan, infinite, of_int, float_limit,
}
use nostale_packet_logger.Python.Json.{
  Json, null, boolean, integer, real, text, array, object, Fields, get_or,
}
use nostale_packet_logger.BotConfig.{
  SpellRule, BotConfig, monster_modes, subjects, comparators, spell_targets, max_monster_vnums,
  max_spell_rules, billion, choice, int_value, is_read_error, as_int, as_text, cut_text, as_float,
  is_in, clamp_int, int_within, float_within, float_value,
}
use nostale_packet_logger.BotConfig.Read.{value_of, read_rule_fields}

-- What leaves `from_dict`: the error of the format, or an integer or float that is too large.
abbrev pub Escapes : Exception → Type 0
Escapes e = (e ≡ config_error) ⊎ (e ≡ overflow_error)

abbrev pub Reads : {A : Type 0} → (A → Type 0) → Result A → Type 0
Reads P (ok a) = P a
Reads P (raise e) = Escapes e

pub Reads-bind :
    {A B : Type 0} (P : A → Type 0) (Q : B → Type 0) (m : Result A) (f : A → Result B)
    → Reads P m
    → ((a : A) → P a → Reads Q (f a))
    → Reads Q (m >>= f)
Reads-bind P Q (ok a) f h k = k a h
Reads-bind P Q (raise e) f h k = h

-- A number that cannot be read: caught, but for one that is too large.
abbrev pub Numeric : {A : Type 0} → Result A → Type 0
Numeric (ok a) = Unit
Numeric (raise e) = (is_read_error e ≡ true) ⊎ (e ≡ overflow_error)

pub int_value-Numeric : (v : Json) → Numeric (int_value v)
unfolding int_value is_read_error
int_value-Numeric null = inl refl
int_value-Numeric (boolean b) = tt
int_value-Numeric (integer n) = tt
int_value-Numeric (real nan) = inl refl
int_value-Numeric (real (infinite b)) = inr refl
int_value-Numeric (real (finite (pos a))) = tt
int_value-Numeric (real (finite (negsuc a))) = tt
int_value-Numeric (text s) = elim (Option-cases (int? s)) [
  | inl none_of ↦ rw none_of (inl refl)
  | inr (n, some_of) ↦ rw some_of tt
]
int_value-Numeric (array vs) = inl refl
int_value-Numeric (object fs) = inl refl

float_value-Numeric : (float_of : Text → Option Float) (v : Json) → Numeric (float_value float_of v)
unfolding float_value is_read_error of_int
float_value-Numeric float_of null = inl refl
float_value-Numeric float_of (boolean b) = tt
float_value-Numeric float_of (integer (pos n)) = elim (Bool-cases (leb float_limit n)) [
  | inl large ↦ rw large (inr refl)
  | inr small ↦ rw small tt
]
float_value-Numeric float_of (integer (negsuc n)) = elim (Bool-cases (leb float_limit (suc n))) [
  | inl large ↦ rw large (inr refl)
  | inr small ↦ rw small tt
]
float_value-Numeric float_of (real x) = tt
float_value-Numeric float_of (text s) = elim (Option-cases (float_of s)) [
  | inl none_of ↦ rw none_of (inl refl)
  | inr (x, some_of) ↦ rw some_of tt
]
float_value-Numeric float_of (array vs) = inl refl
float_value-Numeric float_of (object fs) = inl refl

abbrev pub InRange : ℤ → ℤ → ℤ → Type 0
InRange low high n = (low ≤ℤ n) × (n ≤ℤ high)

-- A float between two whole numbers.
abbrev pub FloatRange : ℕ → ℕ → Float → Type 0
FloatRange low high x = Within (pos (low * scale)) (pos (high * scale)) x

abbrev pub IsVnum : ℤ → Type 0
IsVnum n = (pos 0 <ℤ n) × (n ≤ℤ billion)

-- Each vnum is greater than the one before.
abbrev pub Ascending : List ℤ → Type 0
Ascending [] = Unit
Ascending (n ∷ ns) = All (λ m. n <ℤ m) ns × Ascending ns

pub record IsRule (r : SpellRule) : Type 0 where
  pub spell : InRange (pos 0) billion r.spell
  pub subject : is_in r.subject subjects ≡ true
  pub comparator : is_in r.comparator comparators ≡ true
  pub threshold : FloatRange 0 100 r.threshold
  pub cooldown : FloatRange 0 3600 r.cooldown
  pub target : is_in r.target spell_targets ≡ true

pub record IsConfig (c : BotConfig) : Type 0 where
  pub skill : InRange (pos 0) billion c.skill
  pub skill_template : (c.skill_template ≢ []) × (length c.skill_template ≤ 200)
  pub attack_range : InRange (pos 1) (pos 40) c.attack_range
  pub attack_cooldown : FloatRange 0 30 c.attack_cooldown
  pub loot_range : InRange (pos 1) (pos 10) c.loot_range
  pub low_hp_pct : FloatRange 5 90 c.low_hp_pct
  pub monster_mode : is_in c.monster_mode monster_modes ≡ true
  pub monster_vnums : All IsVnum c.monster_vnums × Ascending c.monster_vnums
  pub few_vnums : length c.monster_vnums ≤ max_monster_vnums
  pub spell_rules : All IsRule c.spell_rules
  pub few_rules : length c.spell_rules ≤ max_spell_rules

clamp_int-InRange : (low high n : ℤ) → low ≤ℤ high → InRange low high (clamp_int low high n)
unfolding clamp_int
clamp_int-InRange low high n h = ground arith

pub as_int-InRange :
    (v : Json) (default low high : ℤ)
    → InRange low high default
    → low ≤ℤ high
    → Reads (InRange low high) (as_int v default low high)
unfolding as_int
as_int-InRange v default low high d h = held (int_value v) (int_value-Numeric v)
  where
    held : (r : Result ℤ) → Numeric r → Reads (InRange low high) (int_within default low high r)
    held (ok n) k = clamp_int-InRange low high n h
    held (raise e) k = elim (Bool-cases (is_read_error e)) [
      | inl caught ↦ rw caught d
      | inr other ↦ rw other (elim k [ inl known ↦ cc | inr large ↦ inr large ])
    ]

pub choice-is_in :
    (names : List Text) (default : Text) (v : Json)
    → is_in default names ≡ true
    → is_in (choice names default v) names ≡ true
unfolding choice
choice-is_in names default (text s) h = elim (Bool-cases (is_in s names)) [
  | inl e ↦ rw e e
  | inr e ↦ rw e h
]
choice-is_in names default v h = h

pub as_float-FloatRange :
    (float_of : Text → Option Float) (v : Json) (default low high : ℕ)
    → FloatRange low high (whole default)
    → low * scale ≤ high * scale
    → Reads (FloatRange low high) (as_float float_of v (whole default) (whole low) (whole high))
unfolding as_float
as_float-FloatRange float_of v default low high d h =
    held (float_value float_of v) (float_value-Numeric float_of v)
  where
    held :
        (r : Result Float)
        → Numeric r
        → Reads (FloatRange low high) (float_within (whole default) (whole low) (whole high) r)
    held (ok x) k = clamp_float-Within (pos (low * scale)) (pos (high * scale)) x (omega arith)
    held (raise e) k = elim (Bool-cases (is_read_error e)) [
      | inl caught ↦ rw caught d
      | inr other ↦ rw other (elim k [ inl known ↦ cc | inr large ↦ inr large ])
    ]

pub as_text-bounds :
    (v : Json) (default : Text)
    → (default ≢ []) × (length default ≤ 200)
    → (as_text v default ≢ []) × (length (as_text v default) ≤ 200)
unfolding as_text
as_text-bounds (text s) default h = held (strip s)
  where
    held : (t : Text) → ((cut_text default t) ≢ []) × (length (cut_text default t) ≤ 200)
    held [] = h
    held (c ∷ cs) = (λ e. cc, omega (arith, length-take 200 (c ∷ cs)))
as_text-bounds v default h = h

pub read_rule_fields-IsRule :
    (float_of : Text → Option Float) (fs : Fields) → Reads IsRule (read_rule_fields float_of fs)
unfolding read_rule_fields
read_rule_fields-IsRule float_of fs =
    Reads-bind (InRange (pos 0) billion) IsRule _ _
      (as_int-InRange (value_of (codes "spell") fs) (pos 0) (pos 0) billion (omega arith)
        (omega arith))
      (λ spell hs.
        Reads-bind (FloatRange 0 100) IsRule _ _
          (as_float-FloatRange float_of (value_of (codes "threshold") fs) 50 0 100 (omega arith)
            (omega arith))
          (λ threshold ht.
            Reads-bind (FloatRange 0 3600) IsRule _ _
              (as_float-FloatRange float_of (value_of (codes "cooldown") fs) 5 0 3600 (omega arith)
                (omega arith))
              (λ cooldown hc. record {
                spell = hs;
                subject = choice-is_in subjects _ (get_or (codes "subject") _ fs) refl;
                comparator = choice-is_in comparators _ (get_or (codes "comparator") _ fs) refl;
                threshold = ht;
                cooldown = hc;
                target = choice-is_in spell_targets _ (get_or (codes "target") _ fs) refl;
              })))
