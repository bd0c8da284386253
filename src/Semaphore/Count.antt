-- ===== src/Semaphore/Count.antt =====
-- The value of a semaphore of lib/thread/spr_semaphore.c (POSIX), as the log tells it, and how many
-- waits can have succeeded.
use spr.Base.{
  ℕ, ◌+◌, ◌-◌, ◌%◌, ◌^◌, ◌≤◌, ◌<◌, ◌≡◌, ◌⊎◌, refl, true, false, List, [], ◌∷◌, ◌&&◌, ◌==◌, ==_iff,
  if◌then◌else◌, arith, Bool-cases, inl, inr,
}
use spr.Base.Int.{ℤ, pos, eq_ℤ}
use spr.Mutex.{success, bit_is_set}
use spr.Sys.{
  Call, errno, sem_init, sem_wait, sem_trywait, sem_post, Event, allocated, released, handled,
  zeroed, stored, answered, World, System, Cmd, pure, ◌>>=◌, Returns, returns, Returns-bind,
  Returns-mono,
}
use spr.Semaphore.{
  semaphore_private, semaphore_shared, semaphore_init, semaphore_wait, semaphore_trywait,
  semaphore_post, checked,
}

-- What a call that succeeds makes of the value.
abbrev pub value_after : ℕ → Call → ℤ → ℕ → ℕ
value_after s (sem_init k shared value) r n = if k == s && eq_ℤ r (pos 0) then value else n
value_after s (sem_wait k) r n = if k == s && eq_ℤ r (pos 0) then n - 1 else n
value_after s (sem_trywait k) r n = if k == s && eq_ℤ r (pos 0) then n - 1 else n
value_after s (sem_post k) r n = if k == s && eq_ℤ r (pos 0) then n + 1 else n
value_after s _ r n = n

abbrev pub value_of : ℕ → List Event → ℕ
value_of s [] = 0
value_of s (answered c r ∷ log) = value_after s c r (value_of s log)
value_of s (allocated _ _ ∷ log) = value_of s log
value_of s (released _ ∷ log) = value_of s log
value_of s (handled _ _ ∷ log) = value_of s log
value_of s (zeroed _ _ ∷ log) = value_of s log
value_of s (stored _ _ ∷ log) = value_of s log

-- The calls in the log do not overlap, and nothing else uses the semaphore. So a wait succeeds only where
-- the value is not zero: else it would block, as there is no other call to post it. A call that fails
-- sets errno.
pub record IsSemaphore (sys : System) (s : ℕ) : Type 0 where
  pub waits :
      (log : List Event) → eq_ℤ (sys.call log (sem_wait s)) (pos 0) ≡ true → 0 < value_of s log
  pub trywaits :
      (log : List Event) → eq_ℤ (sys.call log (sem_trywait s)) (pos 0) ≡ true → 0 < value_of s log
  pub wait_errno :
      (log : List Event) (r : ℤ)
      → eq_ℤ r (pos 0) ≡ false
      → eq_ℤ (sys.call (answered (sem_wait s) r ∷ log) errno) (pos 0) ≡ false
  pub post_errno :
      (log : List Event) (r : ℤ)
      → eq_ℤ r (pos 0) ≡ false
      → eq_ℤ (sys.call (answered (sem_post s) r ∷ log) errno) (pos 0) ≡ false
  pub init_errno :
      (log : List Event) (shared value : ℕ) (r : ℤ)
      → eq_ℤ r (pos 0) ≡ false
      → eq_ℤ (sys.call (answered (sem_init s shared value) r ∷ log) errno) (pos 0) ≡ false

-- The operations of a client, one after another.
pub data Op : Type 0 where
  wait trywait post : Op

unfoldable run_op : System → ℕ → Op → Cmd ℤ
run_op sys s wait = semaphore_wait sys s
run_op sys s trywait = semaphore_trywait sys s
run_op sys s post = semaphore_post sys s

unfoldable pub run_ops : System → ℕ → List Op → Cmd (List (Op × ℤ))
unfolding run_op
run_ops sys s [] = pure []
run_ops sys s (op ∷ ops) = do r ← run_op sys s op; rest ← run_ops sys s ops; pure ((op, r) ∷ rest)

-- A semaphore is made and then used, if it was made.
unfoldable pub use_semaphore : System → (s value params : ℕ) → List Op → Cmd (List (Op × ℤ))
unfolding run_ops
use_semaphore sys s value params ops = do
  r ← semaphore_init sys s value params
  if eq_ℤ r success then run_ops sys s ops else pure []

-- How many of the waits, and of the posts, returned SPR_OK.
abbrev pub taken : List (Op × ℤ) → ℕ
taken [] = 0
taken ((wait, r) ∷ rs) = (if eq_ℤ r success then 1 else 0) + taken rs
taken ((trywait, r) ∷ rs) = (if eq_ℤ r success then 1 else 0) + taken rs
taken ((post, r) ∷ rs) = taken rs

abbrev pub posted : List (Op × ℤ) → ℕ
posted [] = 0
posted ((wait, r) ∷ rs) = posted rs
posted ((trywait, r) ∷ rs) = posted rs
posted ((post, r) ∷ rs) = (if eq_ℤ r success then 1 else 0) + posted rs

module _ (sys : System) (s : ℕ) (sem : IsSemaphore sys s) where
  self : (s == s) ≡ true
  self = (==_iff s s).1 refl

  -- What one operation did to the value, by its result.
  abbrev Balanced : World → Op → ℤ → World → Type 0
  Balanced w op r w' =
      taken ((op, r) ∷ []) + value_of s w'.log ≡ value_of s w.log + posted ((op, r) ∷ [])

  run_op-Balanced : (op : Op) (w : World) → Returns (Balanced w op) (run_op sys s op w)
  unfolding run_op semaphore_wait semaphore_trywait semaphore_post self
  run_op-Balanced wait w = elim (Bool-cases (eq_ℤ (sys.call w.log (sem_wait s)) (pos 0))) [
    | inl y ↦ rw (y) (returns (rw (self, y) (omega (arith, sem.waits w.log y))))
    | inr n ↦
        rw (n) (
          returns
            (rw (self, n, sem.wait_errno w.log (sys.call w.log (sem_wait s)) n) (omega arith)))
  ]
  run_op-Balanced trywait w = elim (Bool-cases (eq_ℤ (sys.call w.log (sem_trywait s)) (pos 0))) [
    | inl y ↦ rw (y) (returns (rw (self, y) (omega (arith, sem.trywaits w.log y))))
    | inr n ↦ rw (n) (returns (rw (self, n) (omega arith)))
  ]
  run_op-Balanced post w = elim (Bool-cases (eq_ℤ (sys.call w.log (sem_post s)) (pos 0))) [
    | inl y ↦ rw (y) (returns (rw (self, y) (omega arith)))
    | inr n ↦
        rw (n) (
          returns
            (rw (self, n, sem.post_errno w.log (sys.call w.log (sem_post s)) n) (omega arith)))
  ]

  taken-cons :
      (op : Op) (r : ℤ) (rs : List (Op × ℤ))
      → taken ((op, r) ∷ rs) ≡ taken ((op, r) ∷ []) + taken rs
  taken-cons wait r rs = omega arith
  taken-cons trywait r rs = omega arith
  taken-cons post r rs = omega arith

  posted-cons :
      (op : Op) (r : ℤ) (rs : List (Op × ℤ))
      → posted ((op, r) ∷ rs) ≡ posted ((op, r) ∷ []) + posted rs
  posted-cons wait r rs = omega arith
  posted-cons trywait r rs = omega arith
  posted-cons post r rs = omega arith

  run_ops-balanced :
      (ops : List Op) (w : World)
      → Returns
          (λ rs w'. taken rs + value_of s w'.log ≡ value_of s w.log + posted rs)
          (run_ops sys s ops w)
  unfolding run_ops
  run_ops-balanced [] w = returns (omega arith)
  run_ops-balanced (op ∷ ops) w = Returns-bind (run_op-Balanced op w) (λ r w' one.
      Returns-bind (run_ops-balanced ops w') (λ rs w'' rest.
        returns (omega (arith, one, rest, taken-cons op r rs, posted-cons op r rs))))

  made :
      (shared value : ℕ) (w : World)
      → Returns
          (λ r w'. (eq_ℤ r success ≡ false) ⊎ (value_of s w'.log ≡ value))
          (checked sys (sem_init s shared value) w)
  unfolding self
  made shared value w =
      elim (Bool-cases (eq_ℤ (sys.call w.log (sem_init s shared value)) (pos 0))) [
        | inl y ↦ rw (y) (returns (inr (rw (self, y) refl)))
        | inr n ↦ rw (n) (
            returns (
              inl (sem.init_errno w.log shared value (sys.call w.log (sem_init s shared value)) n)))
      ]

  init-made :
      (value params : ℕ) (w : World)
      → Returns
          (λ r w'. (eq_ℤ r success ≡ false) ⊎ (value_of s w'.log ≡ value % 2 ^ 32))
          (semaphore_init sys s value params w)
  unfolding semaphore_init
  init-made value params w = elim (Bool-cases (bit_is_set params semaphore_shared)) [
    | inl y ↦ elim (Bool-cases (bit_is_set params semaphore_private)) [
      | inl z ↦ rw (semaphore_init, y, z) (returns (inl refl))
      | inr z ↦ rw (semaphore_init, y, z) (made 1 (value % 2 ^ 32) w)
    ]
    | inr n ↦ rw (semaphore_init, n) (made 0 (value % 2 ^ 32) w)
  ]

-- A semaphore is made by `spr_semaphore_init` and then used with any sequence of `spr_semaphore_wait`,
-- `spr_semaphore_trywait` and `spr_semaphore_post`, one call after another and by nobody else: no more
-- waits report SPR_OK than the low 32 bits of the first value and the posts that do.
pub use_semaphore-taken :
    (sys : System) (s value params : ℕ) (sem : IsSemaphore sys s) (ops : List Op) (w : World)
    → Returns
        (λ rs w'. taken rs ≤ value % 2 ^ 32 + posted rs)
        (use_semaphore sys s value params ops w)
unfolding use_semaphore
use_semaphore-taken sys s value params sem ops w =
    Returns-bind (init-made sys s sem value params w) (λ r w' m. elim m [
      | inl n ↦ rw (n) (returns (omega arith))
      | inr e ↦ elim (Bool-cases (eq_ℤ r success)) [
        | inl y ↦
            rw (y)
              (Returns-mono (run_ops-balanced sys s sem ops w') (λ rs w'' b. omega (arith, b, e)))
        | inr n ↦ rw (n) (returns (omega arith))
      ]
    ])
