-- ===== src/Prelude/OptionDo.antt =====
-- The `?` operator on `Option`, as `do` blocks; next to that on `Result`, so in a module of its own.
use mathlib.Core.Option.{Option}
use axterminator.Prelude.Options.{and_then}

infixl 5 ◌>>=◌
abbrev pub ◌>>=◌ {ℓ κ} : {A : Type ℓ} {B : Type κ} → Option A → (A → Option B) → Option B
o >>= f = and_then o f
