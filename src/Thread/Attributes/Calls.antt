-- ===== src/Thread/Attributes/Calls.antt =====
-- Which calls `spr_thread_init` of lib/thread/spr_thread.c (POSIX) makes, in which order.
use Prim.Native.Nat.{bit_and}
use spr.Base.{
  ℕ, zero, suc, ◌<◌, ==_iff, ◌*◌, ◌≡◌, refl, ap, ◌∙◌, Bool, true, false, List, [], ◌∷◌, ◌++◌, ◌==◌,
  if◌then◌else◌, arith, Bool-cases, inl, inr,
}
use spr.Base.Bits.Single.{bit, one_bit, bit-lt-two, bit_and-one_bit}
use spr.Base.Int.{ℤ, pos, eq_ℤ}
use spr.Mutex.{success, bit_is_set}
use spr.Sys.{
  Call, errno, attr_init, attr_destroy, attr_setscope_system, attr_setscope_process,
  attr_setdetachstate_detached, attr_setdetachstate_joinable, attr_setstacksize, thread_create,
  answered, World, System, Cmd, pure, ◌>>=◌, perform, record_event, Returns, returns, Returns-both,
  Returns-mono,
}
use spr.Thread.{or_return, set_scope, set_detach_state, set_stack_size, thread_init}
use spr.Thread.Attributes.{
  MadeOrLeft, attributes, threads, Ends, scope-Ends, stack-Ends, detach-Ends, create-Ends,
}

-- What the lowest four bits of the parameters ask for.
abbrev scope_calls : ℕ → List Call
scope_calls params =
    if bit 0 params == 1
    then attr_setscope_system ∷ []
    else if bit 1 params == 1
    then attr_setscope_process ∷ []
    else []

abbrev detach_calls : ℕ → List Call
detach_calls params =
    if bit 2 params == 1
    then attr_setdetachstate_detached ∷ []
    else if bit 3 params == 1
    then attr_setdetachstate_joinable ∷ []
    else []

abbrev stack_calls : ℕ → List Call
stack_calls size = if size == 0 then [] else attr_setstacksize size ∷ []

-- The calls that make a thread.
abbrev pub thread_calls : (thread params stack_size start argument : ℕ) → List Call
thread_calls thread params stack_size start argument =
    attr_init
    ∷ (scope_calls params
        ++ (detach_calls params
            ++ (stack_calls stack_size ++ (thread_create thread start argument ∷ []))))

-- The world behind a call.
abbrev pub after : System → Call → World → World
after sys c w = record_event (answered c (sys.call w.log c)) w

-- The calls are made in order, up to the first that fails: then the result is errno; and where all
-- succeed, the attributes are destroyed and the result is SPR_OK.
pub data Tried (sys : System) : List Call → World → ℤ → World → Type 0 where
  all_made : {w : World} → Tried sys [] w success (after sys attr_destroy w)
  made :
      {c : Call} {cs : List Call} {w w' : World} {r : ℤ}
      → eq_ℤ (sys.call w.log c) (pos 0) ≡ true
      → Tried sys cs (after sys c w) r w'
      → Tried sys (c ∷ cs) w r w'
  failed_at :
      {c : Call} {cs : List Call} {w : World}
      → eq_ℤ (sys.call w.log c) (pos 0) ≡ false
      → Tried sys (c ∷ cs) w (sys.call (after sys c w).log errno) (after sys errno (after sys c w))

one_bit_pos : (k : ℕ) → 0 < one_bit k
one_bit_pos zero = omega arith
one_bit_pos (suc k) = omega (arith, one_bit_pos k)

bit_is_set_lem : (k params : ℕ) → bit_is_set params (one_bit k) ≡ (bit k params == 1)
bit_is_set_lem k params =
    let e = bit_and-one_bit k params in
    let two = bit-lt-two k params in
    let p = one_bit_pos k in
    elim (Bool-cases (bit k params == 1)) [
      | inl y ↦
          let one : bit k params ≡ 1 = (==_iff (bit k params) 1).0 y in
          let whole : bit_and params (one_bit k) ≡ one_bit k =
            e ∙ ap (λ b. b * one_bit k) one ∙ omega arith in
          let ne : (one_bit k == 0) ≡ false = ground (arith, p) in rw (y, whole, ne) refl
      | inr n ↦
          let none_set : bit k params ≡ 0 = ground (arith, n, two) in
          let nothing : bit_and params (one_bit k) ≡ 0 =
            e ∙ ap (λ b. b * one_bit k) none_set ∙ omega arith in
          rw (n, nothing) refl
    ]

module _ (sys : System) where
  Does : Cmd ℤ → List Call → Type 0
  Does c cs = (w : World) → Returns (λ r w'. Tried sys cs w r w') (c w)

  or_return-Does :
      (c : Call) (cs : List Call) (next : Cmd ℤ)
      → Does next cs
      → Does (or_return sys c next) (c ∷ cs)
  unfolding Does
  or_return-Does c cs next does w = elim (Bool-cases (eq_ℤ (sys.call w.log c) (pos 0))) [
    | inl y ↦ rw (y) (Returns-mono (does (after sys c w)) λ r w' t. made y t)
    | inr n ↦ rw (n) (returns (failed_at n))
  ]

  -- One of two calls, by two bits.
  choice-Does :
      (j k params : ℕ) (c d : Call) (cs : List Call) (next : Cmd ℤ)
      → Does next cs
      → Does
          (if bit_is_set params (one_bit j)
            then or_return sys c next
            else if bit_is_set params (one_bit k)
            then or_return sys d next
            else next)
          ((if bit j params == 1 then c ∷ [] else if bit k params == 1 then d ∷ [] else []) ++ cs)
  unfolding Does
  choice-Does j k params c d cs next does =
      rw (bit_is_set_lem j params, bit_is_set_lem k params)
        (elim (Bool-cases (bit j params == 1)) [
          | inl y ↦ rw (y) (or_return-Does c cs next does)
          | inr n ↦ elim (Bool-cases (bit k params == 1)) [
            | inl z ↦ rw (n, z) (or_return-Does d cs next does)
            | inr m ↦ rw (n, m) does
          ]
        ])

  stack-Does :
      (size : ℕ) (cs : List Call) (next : Cmd ℤ)
      → Does next cs
      → Does (set_stack_size sys size next) (stack_calls size ++ cs)
  unfolding Does set_stack_size
  stack-Does size cs next does = elim (Bool-cases (size == 0)) [
    | inl y ↦ rw (set_stack_size, y) does
    | inr n ↦ rw (set_stack_size, n) (or_return-Does (attr_setstacksize size) cs next does)
  ]

  destroy-Does : Does (do r ← perform sys attr_destroy; pure success) []
  unfolding Does
  destroy-Does w = returns all_made

  thread_init-Does :
      (thread params stack_size start argument : ℕ)
      → Does
          (thread_init sys thread params stack_size start argument)
          (thread_calls thread params stack_size start argument)
  unfolding thread_init set_scope set_detach_state
  thread_init-Does thread params stack_size start argument = or_return-Does attr_init _ _ (
      choice-Does 0 1 params attr_setscope_system attr_setscope_process _ _ (
        choice-Does 2 3 params attr_setdetachstate_detached attr_setdetachstate_joinable _ _ (
          stack-Does stack_size _ _
            (or_return-Does (thread_create thread start argument) [] _ destroy-Does))))

-- What is left: where the attributes were not made, nothing.
abbrev pub Leaves : Bool → (a t : ℕ) → ℤ → World → Type 0
Leaves true a t r w = MadeOrLeft a t r w
Leaves false a t r w = (threads w.log ≡ t) × (attributes w.log ≡ a)

thread_init-Leaves :
    (sys : System) (thread params stack_size start argument : ℕ) (w : World)
    → Returns
        (Leaves (eq_ℤ (sys.call w.log attr_init) (pos 0)) (attributes w.log) (threads w.log))
        (thread_init sys thread params stack_size start argument w)
unfolding thread_init Ends
thread_init-Leaves sys thread params stack_size start argument w =
    let a = attributes w.log in
    let t = threads w.log in
    elim (Bool-cases (eq_ℤ (sys.call w.log attr_init) (pos 0))) [
      | inl y ↦
          rw (thread_init, y)
            (scope-Ends sys a t params _
              (detach-Ends sys a t params _
                (stack-Ends sys a t stack_size _ (create-Ends sys a t thread start argument)))
              (record_event (answered attr_init (sys.call w.log attr_init)) w) (refl, rw (y) refl))
      | inr n ↦ rw (thread_init, n) (returns (refl, rw (n) refl))
    ]

-- `spr_thread_init` makes the calls that the parameters ask for in their order: pthread_attr_init, the
-- scope, the detach state and the size of the stack where they are asked for, and pthread_create. Where
-- one fails, it makes no other and returns errno; where none does, it destroys the attributes and returns
-- SPR_OK. So, where the attributes were made, either a thread was made and they are destroyed, or none
-- was and they are never destroyed.
pub thread_init-MadeOrLeft :
    (sys : System) (thread params stack_size start argument : ℕ) (w : World)
    → Returns
        (λ r w'.
          Tried sys (thread_calls thread params stack_size start argument) w r w'
          × Leaves
              (eq_ℤ (sys.call w.log attr_init) (pos 0))
              (attributes w.log)
              (threads w.log)
              r
              w')
        (thread_init sys thread params stack_size start argument w)
unfolding Does
thread_init-MadeOrLeft sys thread params stack_size start argument w =
    Returns-both (thread_init-Does sys thread params stack_size start argument w)
      (thread_init-Leaves sys thread params stack_size start argument w)
