-- ===== src/Thread/Attributes.antt =====
-- What `spr_thread_init` of lib/thread/spr_thread.c (POSIX) leaves of the attributes that it makes.
pub mod Calls
use spr.Base.{
  ℕ, ◌+◌, ◌-◌, ◌≡◌, ◌⊎◌, inl, inr, refl, ◌∙◌, Bool, true, false, List, [], ◌∷◌, ◌==◌, if◌then◌else◌,
  arith, Bool-cases,
}
use spr.Base.Int.{ℤ, pos, eq_ℤ}
use spr.Mutex.{success, bit_is_set}
use spr.Sys.{
  Call, attr_init, attr_destroy, attr_setscope_system, attr_setscope_process,
  attr_setdetachstate_detached, attr_setdetachstate_joinable, attr_setstacksize, thread_create,
  Event, allocated, released, handled, zeroed, stored, answered, World, System, Cmd, pure, ◌>>=◌,
  perform, record_event, Returns, returns,
}
use spr.Thread.{
  scope_system, scope_process, create_detached, create_joinable, or_return, set_scope,
  set_detach_state, set_stack_size, thread_init,
}

-- The attributes that were made and not destroyed, and the threads that were made.
abbrev pub attributes_after : Call → ℤ → ℕ → ℕ
attributes_after attr_init r n = if eq_ℤ r (pos 0) then n + 1 else n
attributes_after attr_destroy r n = n - 1
attributes_after _ r n = n

abbrev pub threads_after : Call → ℤ → ℕ → ℕ
threads_after (thread_create t start argument) r n = if eq_ℤ r (pos 0) then n + 1 else n
threads_after _ r n = n

abbrev pub attributes : List Event → ℕ
attributes [] = 0
attributes (answered c r ∷ log) = attributes_after c r (attributes log)
attributes (allocated _ _ ∷ log) = attributes log
attributes (released _ ∷ log) = attributes log
attributes (handled _ _ ∷ log) = attributes log
attributes (zeroed _ _ ∷ log) = attributes log
attributes (stored _ _ ∷ log) = attributes log

abbrev pub threads : List Event → ℕ
threads [] = 0
threads (answered c r ∷ log) = threads_after c r (threads log)
threads (allocated _ _ ∷ log) = threads log
threads (released _ ∷ log) = threads log
threads (handled _ _ ∷ log) = threads log
threads (zeroed _ _ ∷ log) = threads log
threads (stored _ _ ∷ log) = threads log

-- A thread was made and no attributes are left, or none was and they are.
abbrev pub MadeOrLeft : (a t : ℕ) → ℤ → World → Type 0
MadeOrLeft a t r w =
    ((r ≡ success) × (threads w.log ≡ t + 1) × (attributes w.log ≡ a))
    ⊎ ((threads w.log ≡ t) × (attributes w.log ≡ a + 1))

-- Where the attributes were just made.
abbrev Holds : (a t : ℕ) → World → Type 0
Holds a t w = (threads w.log ≡ t) × (attributes w.log ≡ a + 1)

module _ (sys : System) (a t : ℕ) where
  unfoldable pub Ends : Cmd ℤ → Type 0
  Ends c = (w : World) → Holds a t w → Returns (MadeOrLeft a t) (c w)

  -- A call that neither makes nor destroys any.
  abbrev IsNeutral : Call → Type 0
  IsNeutral c = (r : ℤ) (n : ℕ) → (attributes_after c r n ≡ n) × (threads_after c r n ≡ n)

  or_return-Ends : (c : Call) (next : Cmd ℤ) → IsNeutral c → Ends next → Ends (or_return sys c next)
  unfolding Ends
  or_return-Ends c next neutral ends w (h, k) =
      let r = sys.call w.log c in
      let w' = record_event (answered c r) w in
      let h' = (neutral r (threads w.log)).1 ∙ h in
      let k' = (neutral r (attributes w.log)).0 ∙ k in
      elim (Bool-cases (eq_ℤ r (pos 0))) [
        | inl y ↦ rw (y) (ends w' (h', k'))
        | inr n ↦ rw (n) (returns (inr (h', k')))
      ]

  if-Ends : (b : Bool) (c d : Cmd ℤ) → Ends c → Ends d → Ends (if b then c else d)
  if-Ends true c d x y = x
  if-Ends false c d x y = y

  pub stack-Ends : (size : ℕ) (next : Cmd ℤ) → Ends next → Ends (set_stack_size sys size next)
  unfolding set_stack_size
  stack-Ends size next ends =
      if-Ends (size == 0) _ _ ends
        (or_return-Ends (attr_setstacksize size) next (λ r n. (refl, refl)) ends)

  pub detach-Ends :
      (params : ℕ) (next : Cmd ℤ) → Ends next → Ends (set_detach_state sys params next)
  unfolding set_detach_state
  detach-Ends params next ends =
      if-Ends (bit_is_set params create_detached) _ _
        (or_return-Ends attr_setdetachstate_detached next (λ r n. (refl, refl)) ends)
        (if-Ends (bit_is_set params create_joinable) _ _
          (or_return-Ends attr_setdetachstate_joinable next (λ r n. (refl, refl)) ends) ends)

  pub scope-Ends : (params : ℕ) (next : Cmd ℤ) → Ends next → Ends (set_scope sys params next)
  unfolding set_scope
  scope-Ends params next ends =
      if-Ends (bit_is_set params scope_system) _ _
        (or_return-Ends attr_setscope_system next (λ r n. (refl, refl)) ends)
        (if-Ends (bit_is_set params scope_process) _ _
          (or_return-Ends attr_setscope_process next (λ r n. (refl, refl)) ends) ends)

  pub create-Ends :
      (thread start argument : ℕ)
      → Ends (
          or_return sys
            (thread_create thread start argument)
            (do r ← perform sys attr_destroy; pure success))
  unfolding Ends
  create-Ends thread start argument w (h, k) =
      elim (Bool-cases (eq_ℤ (sys.call w.log (thread_create thread start argument)) (pos 0))) [
        | inl y ↦ rw (y) (returns (inl (refl, rw (y) (omega (arith, h)), omega (arith, k))))
        | inr n ↦ rw (n) (returns (inr (rw (n) h, k)))
      ]
