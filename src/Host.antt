-- ===== src/Host.antt =====
-- The system below the wrappers of lib/spr_filesys.c and lib/network: what it does is a parameter, a
-- step from one of its states to the next for each call.
use spr.Base.{if◌then◌else◌}
use spr.Base.Int.{ℤ, negsuc, eq_ℤ}
use spr.Mutex.{success}

-- What a call answers, and the state afterwards.
abbrev pub Step : Type 0 → Type 0 → Type 0
Step S A = S → A × S

module _ {S A : Type 0} where
  abbrev pub pure : A → Step S A
  pure a s = (a, s)

module _ {S A B : Type 0} where
  infixl 5 ◌>>=◌
  abbrev pub ◌>>=◌ : Step S A → (A → Step S B) → Step S B
  m >>= k = λ s. k (m s).0 (m s).1

-- what most calls return on failure
abbrev pub failed : ℤ
failed = negsuc 0

-- `SPR_DONE`
abbrev pub done : ℤ
done = negsuc 2

module _ {S : Type 0} (errno : S → ℤ) where
  -- `spr_get_errno`
  abbrev pub get_errno : Step S ℤ
  get_errno s = (errno s, s)

  -- `if (call == -1) return spr_get_errno(); return SPR_OK;`
  abbrev pub checked : Step S ℤ → Step S ℤ
  checked call = do r ← call; if eq_ℤ r failed then get_errno else pure success
