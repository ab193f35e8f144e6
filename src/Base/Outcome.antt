-- ===== src/Base/Outcome.antt =====
-- What a C function that walks a buffer does: it returns, it calls `bug()`, which aborts the
-- daemon, or it touches memory outside the buffer. `out_of_fuel` is no behaviour of the C code: a
-- loop of the model was cut off, and the theorems show that this never happens.

pub data Res {ℓ} (A : Type ℓ) : Type ℓ where
  ok : A → Res A
  bug fault out_of_fuel : Res A

infixl 5 ◌>>=◌
abbrev pub ◌>>=◌ {ℓ κ} : {A : Type ℓ} {B : Type κ} → Res A → (A → Res B) → Res B
ok a >>= f = f a
bug >>= f = bug
fault >>= f = fault
out_of_fuel >>= f = out_of_fuel
