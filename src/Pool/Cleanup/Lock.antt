-- ===== src/Pool/Cleanup/Lock.antt =====
-- Which calls of lib/memory/spr_pool.c give back the mutex that they lock.
use spr.Base.{
  [], ◌++◌, All, sym, subst, ℕ, ◌+◌, ◌≡◌, refl, ap, ◌∙◌, ◌∷◌, Option, none, some, List, arith,
}
use spr.Mutex
use spr.Mutex.Effect.{handlers, lock-handlers, unlock-handlers}
use spr.Mutex.Held.{held, IsRecursive, lock-held, unlock-held}
use spr.Sys.{
  Event, released, handled, World, System, record_event, Returns-both, Cmd, pure, ◌>>◌, Returns,
  returns, Returns-bind,
}
use spr.Pool.{Handler, spr_free, client, CleanupNode, Pool}
use spr.Pool.Cleanup.{run_handler, unlink, reserve, cleanup_remove, cleanup_run}
use spr.Pool.Cleanup.Laws.{run_handler_lem, event_of, Matches, Unlinked, Unlinks, unlink-Unlinks}

-- What a call for an entry comes to, with what else holds of the entry or of its absence.
pub data Removal (p : Pool) (argument : ℕ) (handler : Handler)
    (P : Option CleanupNode → World → Type 0) : Pool → World → Type 0 where
  -- no entry matches, and the pool stays
  absent :
      {w' : World}
      → All (λ m. ¬ (Matches argument handler m)) p.cleanups
      → P none w'
      → Removal p argument handler P p w'
  -- the first that matches is taken off the list, and goes to the front of the reserve
  present :
      {w' : World} (n : CleanupNode) (before behind : List CleanupNode)
      → p.cleanups ≡ before ++ (n ∷ behind)
      → Matches argument handler n
      → All (λ m. ¬ (Matches argument handler m)) before
      → P (some n) w'
      → Removal p argument handler P
          (record p { cleanups = before ++ behind; free_cleanups = n ∷ p.free_cleanups })
          w'

removal :
    {p : Pool} {argument : ℕ} {handler : Handler} (P : Option CleanupNode → World → Type 0)
    {n : CleanupNode} {rest : List CleanupNode} {w' : World}
    → Unlinked argument handler p.cleanups n rest
    → P (some n) w'
    → Removal p argument handler P (reserve p n rest) w'
removal {p} {argument} {handler} P {n} {rest} {w'} u h =
    subst (λ l. Removal p argument handler P (reserve p n l) w') (sym u.left)
      (present n u.before u.behind u.listed u.matches u.first h)

-- 1 for an entry that is not there, and the call of the handler of one that is.
abbrev pub missing : Option CleanupNode → ℕ
missing none = 1
missing (some n) = 0

abbrev pub calls : Option CleanupNode → List Event
calls none = []
calls (some n) = event_of n ∷ []

module _ (sys : System) (p : Pool) (rec : IsRecursive sys p.mutex) (argument : ℕ)
    (handler : Handler) (w : World) where
  -- `spr_pool_cleanup_remove1` takes the first entry with the argument and the handler off the list and
  -- puts its node in front of the reserve, with the mutex held as often as before; where no entry has
  -- both, the pool stays, and the function returns with the mutex held once more.
  pub cleanup_remove-held :
      Returns
        (Removal p argument handler
          (λ found w'. held p.mutex w'.log ≡ held p.mutex w.log + missing found))
        (cleanup_remove sys p argument handler w)
  unfolding cleanup_remove
  cleanup_remove-held = Returns-bind (lock-held sys p.mutex rec w) λ _ w' h.
      go w' h (unlink argument handler p.cleanups) (unlink-Unlinks argument handler p.cleanups)
    where
      go :
          (w' : World)
          → held p.mutex w'.log ≡ held p.mutex w.log + 1
          → (r : Option (CleanupNode × List CleanupNode)) → Unlinks argument handler p.cleanups r
          → Returns
              (Removal p argument handler
                (λ found w''. held p.mutex w''.log ≡ held p.mutex w.log + missing found))
              ((elim r as (λ x. Cmd Pool) [
                | none ↦ pure p
                | some (n, rest) ↦ do Mutex.unlock sys p.mutex; pure (reserve p n rest)
              ])
                w')
      go w' h none u = returns (absent u h)
      go w' h (some (n, rest)) u =
          Returns-bind (unlock-held sys p.mutex rec w' (omega arith)) λ _ w'' h'. returns (
            removal (λ found w''. held p.mutex w''.log ≡ held p.mutex w.log + missing found) u
              (omega arith))

  held-event_of :
      (n : CleanupNode) (log : List Event) → held p.mutex (event_of n ∷ log) ≡ held p.mutex log
  unfolding event_of
  held-event_of n log = go (n.handler) refl
    where
      go : (h : Handler) → n.handler ≡ h → held p.mutex (event_of n ∷ log) ≡ held p.mutex log
      go spr_free e = rw (e, event_of)
      go (client f) e = rw (e, event_of)

  handlers-event_of :
      (n : CleanupNode) (log log' : List Event)
      → handlers log ≡ handlers log'
      → handlers (event_of n ∷ log) ≡ event_of n ∷ handlers log'
  unfolding event_of
  handlers-event_of n log log' t = go (n.handler) refl
    where
      go : (h : Handler) → n.handler ≡ h → handlers (event_of n ∷ log) ≡ event_of n ∷ handlers log'
      go spr_free e = rw (e, event_of) (ap (λ l. released n.argument ∷ l) t)
      go (client f) e = rw (e, event_of) (ap (λ l. handled f n.argument ∷ l) t)

  -- What `spr_pool_cleanup_run1` leaves of the log.
  abbrev pub Fired : Option CleanupNode → World → Type 0
  Fired found w' =
      (handlers w'.log ≡ calls found ++ handlers w.log)
      × (held p.mutex w'.log ≡ held p.mutex w.log + missing found)

  -- `spr_pool_cleanup_run1` calls the handler of the first entry with the argument and the handler once,
  -- and of no other, then takes the entry off the list and puts its node in front of the reserve, with
  -- the mutex held as often as before; where no entry has both, it calls nothing, the pool stays, and
  -- the function returns with the mutex held once more.
  pub cleanup_run-Fired :
      Returns (Removal p argument handler Fired) (cleanup_run sys p argument handler w)
  unfolding cleanup_run
  cleanup_run-Fired =
      Returns-bind (Returns-both (lock-held sys p.mutex rec w) (lock-handlers sys p.mutex w))
        λ _ w' h.
          go w' h.0 h.1 (unlink argument handler p.cleanups)
            (unlink-Unlinks argument handler p.cleanups)
    where
      go :
          (w' : World)
          → held p.mutex w'.log ≡ held p.mutex w.log + 1
          → handlers w'.log ≡ handlers w.log
          → (r : Option (CleanupNode × List CleanupNode)) → Unlinks argument handler p.cleanups r
          → Returns (Removal p argument handler Fired) (
              (elim r as (λ x. Cmd Pool) [
                | none ↦ pure p
                | some (n, rest) ↦ do
                  run_handler n
                  Mutex.unlock sys p.mutex
                  pure (reserve p n rest)
              ])
                w')
      go w' h t none u = returns (absent u (t, h))
      go w' h t (some (n, rest)) u = rw (run_handler_lem n w') (
          Returns-bind
            (Returns-both
              (unlock-held sys p.mutex rec (record_event (event_of n) w')
                (omega (arith, held-event_of n w'.log)))
              (unlock-handlers sys p.mutex (record_event (event_of n) w')))
            λ _ w'' h'. returns (
              removal Fired u (
                h'.1 ∙ handlers-event_of n w'.log w.log t,
                omega (arith, h'.0, held-event_of n w'.log),
              )))
