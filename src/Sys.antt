-- ===== src/Sys.antt =====
-- The world outside the library: the calls of the C library and of pthreads that the modelled code
-- makes, as parameters whose answers may depend on all that happened before, and the log of them.
use spr.Base.{ℕ, ◌≡◌, refl, List, ◌∷◌}
use spr.Base.Int.{ℤ}

-- Calls that answer an `int`; an address among the arguments is that of the object passed.
pub data Call : Type 0 where
  errno : Call
  mutexattr_init mutexattr_destroy : Call
  mutexattr_setpshared_shared mutexattr_setpshared_private mutexattr_settype_recursive : Call
  sem_init : (semaphore shared value : ℕ) → Call
  sem_wait sem_trywait sem_post sem_destroy : ℕ → Call
  attr_init attr_destroy : Call
  attr_setscope_system attr_setscope_process : Call
  attr_setdetachstate_detached attr_setdetachstate_joinable : Call
  attr_setstacksize : ℕ → Call
  thread_create : (thread start_routine argument : ℕ) → Call
  thread_join thread_cancel : ℕ → Call
  mutex_init mutex_lock mutex_trylock mutex_unlock mutex_destroy : ℕ → Call

pub data Event : Type 0 where
  -- `malloc(size)` returned this address, 0 for NULL
  allocated : (size address : ℕ) → Event
  -- `free(address)`
  released : (address : ℕ) → Event
  -- a client's cleanup handler was called with this argument
  handled : (handler argument : ℕ) → Event
  -- `memset(address, 0, size)`
  zeroed : (address size : ℕ) → Event
  -- `memmove(address, …)` wrote these bytes
  stored : (address : ℕ) → List ℕ → Event
  -- another call was made, with this answer
  answered : Call → ℤ → Event

-- The log of what happened, the latest first, and the static counter of spr_memory.c.
pub record World : Type 0 where
  pub log : List Event
  pub counter : ℕ

pub record System : Type 0 where
  pub malloc : List Event → ℕ → ℕ
  pub call : List Event → Call → ℤ
  -- the handle that `pthread_self` returns
  pub self : ℕ

-- A run ends with a value, in undefined behaviour (NULL or an index out of bounds), or out of fuel.
pub data Run (A : Type 0) : Type 0 where
  ok : A → World → Run A
  fault : Run A
  out_of_fuel : Run A

abbrev pub Cmd : Type 0 → Type 0
Cmd A = World → Run A

-- undefined behaviour is reached
abbrev pub fault_cmd : {A : Type 0} → Cmd A
fault_cmd w = fault

abbrev pub pure : {A : Type 0} → A → Cmd A
pure = ok

module _ {A B : Type 0} where
  abbrev pub and_then : Run A → (A → Cmd B) → Run B
  and_then (ok a w) k = k a w
  and_then fault k = fault
  and_then out_of_fuel k = out_of_fuel

  infixl 5 ◌>>=◌ ◌>>◌
  abbrev pub ◌>>=◌ : Cmd A → (A → Cmd B) → Cmd B
  m >>= k = λ w. and_then (m w) k

  abbrev pub ◌>>◌ : Cmd A → Cmd B → Cmd B
  m >> n = m >>= λ _. n

abbrev pub record_event : Event → World → World
record_event e w = record w { log = e ∷ w.log }

-- A run that ends with a value that satisfies the postcondition: no fault, and fuel enough.
pub data Returns {A : Type 0} (P : A → World → Type 0) : Run A → Type 0 where
  returns : {a : A} {w : World} → P a w → Returns P (ok a w)

module _ {A : Type 0} {P : A → World → Type 0} where
  pub Returns-bind :
      {B : Type 0} {Q : B → World → Type 0} {r : Run A} {k : A → Cmd B}
      → Returns P r
      → ((a : A) (w : World) → P a w → Returns Q (k a w))
      → Returns Q (and_then r k)
  Returns-bind (returns p) next = next _ _ p

  pub Returns-both :
      {Q : A → World → Type 0} {r : Run A}
      → Returns P r
      → Returns Q r
      → Returns (λ a w. P a w × Q a w) r
  Returns-both (returns p) (returns q) = returns (p, q)

  -- What follows a run that returns is reached.
  pub Returns-eq :
      {B : Type 0} {r : Run A} {k : A → Cmd B} {b : Run B}
      → Returns P r
      → ((a : A) (w : World) → P a w → k a w ≡ b)
      → and_then r k ≡ b
  Returns-eq (returns p) next = next _ _ p

  pub Returns-mono :
      {Q : A → World → Type 0} {r : Run A}
      → Returns P r
      → ((a : A) (w : World) → P a w → Q a w)
      → Returns Q r
  Returns-mono (returns p) weaken = returns (weaken _ _ p)

-- Where a run that returns ends.
pub record Ends {A : Type 0} (P : A → World → Type 0) (r : Run A) : Type 0 where
  pub value : A
  pub world : World
  pub runs : r ≡ ok value world
  pub holds : P value world

pub Returns-Ends : {A : Type 0} {P : A → World → Type 0} {r : Run A} → Returns P r → Ends P r
Returns-Ends (returns p) = record { value = _; world = _; runs = refl; holds = p }

module _ (sys : System) where
  -- one `int`-valued call
  abbrev pub perform : Call → Cmd ℤ
  perform c w = let a = sys.call w.log c in ok a (record_event (answered c a) w)
