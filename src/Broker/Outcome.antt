-- ===== src/Broker/Outcome.antt =====
-- What a broker's method comes back with: a value, an error, or a Go panic.

pub data BrokerError : Type 0 where
  offset_too_low stream_is_empty offset_too_high offset_taken : BrokerError
  unknown_epoch stream_not_found : BrokerError
  presence_id_mismatch presence_info_not_found presence_record_not_found : BrokerError
  history_not_supported presence_not_supported : BrokerError
  session_not_encoded : BrokerError

pub data Outcome (A : Type 0) : Type 0 where
  ok : A → Outcome A
  err : BrokerError → Outcome A
  panic : Outcome A

infixl 5 ◌>>=◌
abbrev pub ◌>>=◌ : {A B : Type 0} → Outcome A → (A → Outcome B) → Outcome B
ok a >>= f = f a
err e >>= f = err e
panic >>= f = panic
