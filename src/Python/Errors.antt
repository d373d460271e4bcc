-- ===== src/Python/Errors.antt =====
-- The exceptions that the host raises and catches. `protocol_error`, `config_error`,
-- `map_data_error` and `monster_name_error` are subclasses of ValueError, `connection_lost` is one
-- of ConnectionError (an OSError).
use nostale_packet_logger.Base.{◌≡◌, subst, Bool, true, false}

pub data Exception : Type 0 where
  value_error index_error key_error type_error : Exception
  protocol_error config_error map_data_error monster_name_error : Exception
  os_error connection_lost overflow_error : Exception

-- isinstance(e, ValueError)
unfoldable pub is_value_error : Exception → Bool
is_value_error value_error = true
is_value_error protocol_error = true
is_value_error config_error = true
is_value_error map_data_error = true
is_value_error monster_name_error = true
is_value_error _ = false

pub data Result {ℓ} (A : Type ℓ) : Type ℓ where
  ok : A → Result A
  raise : Exception → Result A

infixl 5 ◌>>=◌
abbrev pub ◌>>=◌ {ℓ κ} : {A : Type ℓ} {B : Type κ} → Result A → (A → Result B) → Result B
ok a >>= f = f a
raise e >>= f = raise e

-- What holds of the value, if no exception is raised.
abbrev pub IfOk {ℓ} : {A : Type ℓ} → (A → Type 0) → Result A → Type 0
IfOk P (ok a) = P a
IfOk P (raise e) = Unit

pub of_ok {ℓ} : {A : Type ℓ} (P : A → Type 0) (r : Result A) (a : A) → IfOk P r → r ≡ ok a → P a
of_ok P r a h e = subst (IfOk P) e h
