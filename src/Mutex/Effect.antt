-- ===== src/Mutex/Effect.antt =====
-- Locking changes nothing but the log, and no block that `malloc` gave.
use spr.Base.{
  ℕ, Bool, true, false, if◌then◌else◌, ◌∙◌, List, [], ◌∷◌, ◌≡◌, refl, inl, inr, Bool-cases,
}
use spr.Base.Int.{ℤ, pos, eq_ℤ}
use spr.Memory.Live.{live}
use spr.Sys.{
  Event, allocated, released, handled, zeroed, stored, answered, World, System, Call, Cmd, perform,
  pure, ◌>>◌, Returns-bind, Returns-mono, mutex_lock, mutex_unlock, Returns, returns,
}
use spr.Mutex
use spr.Mutex.{shared, private, bit_is_set}

-- The events of cleanup handlers, `spr_free` among them, the latest first.
abbrev pub handlers : List Event → List Event
handlers [] = []
handlers (allocated _ _ ∷ log) = handlers log
handlers (released m ∷ log) = released m ∷ handlers log
handlers (handled f m ∷ log) = handled f m ∷ handlers log
handlers (zeroed _ _ ∷ log) = handlers log
handlers (stored _ _ ∷ log) = handlers log
handlers (answered _ _ ∷ log) = handlers log

-- The later world has the same live blocks and the same counter.
pub record Quiet (w w' : World) : Type 0 where
  pub live_kept : (a : ℕ) → live a w'.log ≡ live a w.log
  pub counter_kept : w'.counter ≡ w.counter

module _ (sys : System) (m : ℕ) (w : World) where
  pub lock-Quiet : Returns (λ _ w'. Quiet w w') (Mutex.lock sys m w)
  unfolding Mutex.lock
  lock-Quiet = elim (Bool-cases (eq_ℤ (sys.call w.log (mutex_lock m)) (pos 0))) [
    | inl e ↦ rw e (returns (record { live_kept = λ a. refl; counter_kept = refl }))
    | inr e ↦ rw e (returns (record { live_kept = λ a. refl; counter_kept = refl }))
  ]

  pub unlock-Quiet : Returns (λ _ w'. Quiet w w') (Mutex.unlock sys m w)
  unfolding Mutex.unlock
  unlock-Quiet = elim (Bool-cases (eq_ℤ (sys.call w.log (mutex_unlock m)) (pos 0))) [
    | inl e ↦ rw e (returns (record { live_kept = λ a. refl; counter_kept = refl }))
    | inr e ↦ rw e (returns (record { live_kept = λ a. refl; counter_kept = refl }))
  ]

  pub lock-handlers : Returns (λ _ w'. handlers w'.log ≡ handlers w.log) (Mutex.lock sys m w)
  unfolding Mutex.lock
  lock-handlers = elim (Bool-cases (eq_ℤ (sys.call w.log (mutex_lock m)) (pos 0))) [
    | inl e ↦ rw e (returns refl)
    | inr e ↦ rw e (returns refl)
  ]

  pub unlock-handlers : Returns (λ _ w'. handlers w'.log ≡ handlers w.log) (Mutex.unlock sys m w)
  unfolding Mutex.unlock
  unlock-handlers = elim (Bool-cases (eq_ℤ (sys.call w.log (mutex_unlock m)) (pos 0))) [
    | inl e ↦ rw e (returns refl)
    | inr e ↦ rw e (returns refl)
  ]

pub Quiet-trans : {w w' w'' : World} → Quiet w w' → Quiet w' w'' → Quiet w w''
Quiet-trans q r = record {
  live_kept = λ a. r.live_kept a ∙ q.live_kept a;
  counter_kept = r.counter_kept ∙ q.counter_kept;
}

module _ (sys : System) where
  -- A command that leaves live blocks and counter alone.
  abbrev pub IsQuiet : Cmd ℤ → Type 0
  IsQuiet c = (w : World) → Returns (λ _ w'. Quiet w w') (c w)

  perform-IsQuiet : (c : Call) → IsQuiet (perform sys c)
  perform-IsQuiet c w = returns (record { live_kept = λ a. refl; counter_kept = refl })

  pure-IsQuiet : (a : ℤ) → IsQuiet (pure a)
  pure-IsQuiet a w = returns (record { live_kept = λ a. refl; counter_kept = refl })

  then-IsQuiet : (c d : Cmd ℤ) → IsQuiet c → IsQuiet d → IsQuiet (c >> d)
  then-IsQuiet c d qc qd w =
      Returns-bind (qc w) λ _ w' q. Returns-mono (qd w') λ _ w'' r. Quiet-trans q r

  if-IsQuiet : (b : Bool) (c d : Cmd ℤ) → IsQuiet c → IsQuiet d → IsQuiet (if b then c else d)
  if-IsQuiet true c d qc qd = qc
  if-IsQuiet false c d qc qd = qd

  or_errno-IsQuiet :
      (c : Call) (undo next : Cmd ℤ)
      → IsQuiet undo
      → IsQuiet next
      → IsQuiet (Mutex.or_errno sys c undo next)
  or_errno-IsQuiet c undo next qu qn w = Returns-bind (perform-IsQuiet c w) λ r w' q.
      Returns-mono (if-IsQuiet (eq_ℤ r (pos 0)) next undo qn qu w') λ _ w'' r'. Quiet-trans q r'

  destroy_attr-IsQuiet : IsQuiet (Mutex.destroy_attr sys)
  unfolding Mutex.destroy_attr
  destroy_attr-IsQuiet = then-IsQuiet _ _ (perform-IsQuiet _) (perform-IsQuiet _)

  init_handle-IsQuiet : (m : ℕ) → IsQuiet (Mutex.init_handle sys m)
  unfolding Mutex.init_handle Mutex.destroy_attr
  init_handle-IsQuiet m =
      or_errno-IsQuiet _ _ _ destroy_attr-IsQuiet
        (then-IsQuiet _ _ (perform-IsQuiet _) (pure-IsQuiet _))

  init_type-IsQuiet : (m params : ℕ) → IsQuiet (Mutex.init_type sys m params)
  unfolding Mutex.init_type Mutex.destroy_attr Mutex.init_handle
  init_type-IsQuiet m params =
      if-IsQuiet _ _ _ (or_errno-IsQuiet _ _ _ destroy_attr-IsQuiet (init_handle-IsQuiet m))
        (init_handle-IsQuiet m)

  pub init-IsQuiet : (m params : ℕ) → IsQuiet (Mutex.init sys m params)
  unfolding Mutex.init Mutex.init_type Mutex.destroy_attr Mutex.init_handle
  init-IsQuiet m params = or_errno-IsQuiet Mutex.mutexattr_init _ _ (perform-IsQuiet Mutex.errno) (
      if-IsQuiet (bit_is_set params shared) _ _
        (or_errno-IsQuiet Mutex.mutexattr_setpshared_shared _ _ destroy_attr-IsQuiet
          (init_type-IsQuiet m params))
        (if-IsQuiet (bit_is_set params private) _ _
          (or_errno-IsQuiet Mutex.mutexattr_setpshared_private _ _ destroy_attr-IsQuiet
            (init_type-IsQuiet m params))
          (init_type-IsQuiet m params)))
