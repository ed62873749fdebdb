-- ===== src/Stores.antt =====
-- internal/utils/store: the in-memory stores of sign-in states. `AuthSession` is auth_session.go,
-- `TwoFa` is 2fa.go and `Cooling` is cooling.go. Each operation holds the store's lock throughout,
-- so a history is a sequence of operations.
pub mod AuthSession
pub mod AuthSessionLaws
pub mod TwoFa
mod Tests
