-- ===== src/Pool/Tree/Clear.antt =====
-- `spr_pool_clear` empties a pool and all pools below it, runs their cleanups, and gives no memory
-- back.
use mathlib.Core.List.{reverse_aux}
use spr.Base.{ℕ, ◌≡◌, ◌≢◌, refl, ap, ◌∙◌, sym, List, [], ◌∷◌, ◌++◌, map, ==_iff}
use spr.Mutex.Effect.{handlers, lock-handlers, unlock-handlers}
use spr.Sys.{Event, World, System, Returns, returns, Returns-bind, Returns-mono}
use spr.Pool.{Handler, spr_free, client, CleanupNode, Pool}
use spr.Pool.Blocks.{users, IsPool}
use spr.Pool.Cleanup.Laws.{cleanup_run_all_lem, event_of}
use spr.Pool.Tree.{Tree, node, Forest, nil, cons, clear, clear_children}
use spr.Pool.Tree.Reset.{Cleared, reset_slots-Cleared}

-- Every pool of the tree is in order, and belongs to the thread.
abbrev mutual
  pub AllOwned : ℕ → Tree → Type 0
  AllOwned self (node p children) = IsPool p × (p.owner ≡ self) × AllOwnedF self children

  pub AllOwnedF : ℕ → Forest → Type 0
  AllOwnedF self nil = Unit {0}
  AllOwnedF self (cons t ts) = AllOwned self t × AllOwnedF self ts

abbrev pub root : Tree → Pool
root (node p children) = p

-- A tree of the same shape, each pool of which is the cleared one.
abbrev mutual
  pub AllCleared : Tree → Tree → Type 0
  AllCleared (node p children) (node p' children') = Cleared p p' × AllClearedF children children'

  pub AllClearedF : Forest → Forest → Type 0
  AllClearedF nil nil = Unit {0}
  AllClearedF nil (cons t' ts') = ⊥
  AllClearedF (cons t ts) nil = ⊥
  AllClearedF (cons t ts) (cons t' ts') = AllCleared t t' × AllClearedF ts ts'

-- The calls of handlers that are due: those of a pool, then those of its children in order.
abbrev mutual
  pub due : Tree → List Event
  due (node p children) = map event_of p.cleanups ++ due_children children

  pub due_children : Forest → List Event
  due_children nil = []
  due_children (cons t ts) = due t ++ due_children ts

reverse_aux-append {ℓ} :
    {A : Type ℓ} (xs ys zs : List A)
    → reverse_aux (xs ++ ys) zs ≡ reverse_aux ys (reverse_aux xs zs)
reverse_aux-append [] ys zs = refl
reverse_aux-append (x ∷ xs) ys zs = reverse_aux-append xs ys (x ∷ zs)

reverse_aux-ne {ℓ} : {A : Type ℓ} (x : A) (xs zs : List A) → reverse_aux xs (x ∷ zs) ≢ []
reverse_aux-ne x [] zs e = cc
reverse_aux-ne x (y ∷ ys) zs e = reverse_aux-ne y ys (x ∷ zs) e

reverse_aux-ne_nil {ℓ} : {A : Type ℓ} (xs zs : List A) → xs ≢ [] → reverse_aux xs zs ≢ []
reverse_aux-ne_nil [] zs h e = h refl
reverse_aux-ne_nil (x ∷ xs) zs h e = reverse_aux-ne x xs zs e

handlers-event_of :
    (n : CleanupNode) (log : List Event) → handlers (event_of n ∷ log) ≡ event_of n ∷ handlers log
unfolding event_of
handlers-event_of n log = go (n.handler) refl
  where
    go : (h : Handler) → n.handler ≡ h → handlers (event_of n ∷ log) ≡ event_of n ∷ handlers log
    go spr_free e = rw (e, event_of)
    go (client f) e = rw (e, event_of)

handlers-reverse_aux :
    (ns : List CleanupNode) (log : List Event)
    → handlers (reverse_aux (map event_of ns) log) ≡ reverse_aux (map event_of ns) (handlers log)
handlers-reverse_aux [] log = refl
handlers-reverse_aux (n ∷ ns) log =
    handlers-reverse_aux ns (event_of n ∷ log)
    ∙ ap (reverse_aux (map event_of ns)) (handlers-event_of n log)

handed_on :
    (ns : List CleanupNode) (events log log' : List Event)
    → handlers log ≡ handlers log'
    → reverse_aux events (handlers (reverse_aux (map event_of ns) log))
      ≡ reverse_aux (map event_of ns ++ events) (handlers log')
handed_on ns events log log' h =
    rw (handlers-reverse_aux ns log, h, reverse_aux-append (map event_of ns) events)

module _ (sys : System) where
  mutual
    unfolding clear clear_children

    clear_all :
        (t : Tree) (w : World)
        → AllOwned sys.self t
        → Returns
            (λ t' w'. AllCleared t t' × (handlers w'.log ≡ reverse_aux (due t) (handlers w.log)))
            (clear sys t w)
    clear_all (node p children) w (is, own, owned) = rw ((==_iff p.owner sys.self).1 own) (
        Returns-bind (lock-handlers sys p.mutex w) λ _ w1 h1. rw (cleanup_run_all_lem p w1) (
          Returns-bind (clear_all_children children _ owned) λ children' w2 h2.
            Returns-bind (unlock-handlers sys p.mutex w2) λ _ w3 h3. returns (
              (reset_slots-Cleared p is, h2.0),
              h3 ∙ h2.1 ∙ handed_on p.cleanups (due_children children) w1.log w.log h1,
            )))

    clear_all_children :
        (ts : Forest) (w : World)
        → AllOwnedF sys.self ts
        → Returns
            (λ ts' w'.
              AllClearedF ts ts'
              × (handlers w'.log ≡ reverse_aux (due_children ts) (handlers w.log)))
            (clear_children sys ts w)
    clear_all_children nil w owned = returns (tt, refl)
    clear_all_children (cons t ts) w (own, owned) = Returns-bind (clear_all t w own) λ t' w1 h1.
        Returns-bind (clear_all_children ts w1 owned) λ ts' w2 h2.
          returns ((h1.0, h2.0), h2.1 ∙ rw (h1.1, reverse_aux-append (due t) (due_children ts)))

-- `spr_pool_clear` of a tree of pools in order, called by the thread that owns them: the run ends
-- without fault; every pool of the tree keeps the memory of its nodes, has none of it in use and no
-- cleanup left, and stays in order; and the handlers of all cleanups have been called, each once,
-- a pool's own first, in the order of its list, and then those of its children.
pub clear-AllCleared :
    (sys : System) (t : Tree) (w : World)
    → AllOwned sys.self t
    → Returns
        (λ t' w'. AllCleared t t' × (handlers w'.log ≡ reverse_aux (due t) (handlers w.log)))
        (clear sys t w)
clear-AllCleared = clear_all

root-Cleared :
    (p : Pool) (ts : Forest) (t' : Tree) → AllCleared (node p ts) t' → Cleared p (root t')
root-Cleared p ts (node p' ts') h = h.0

-- After it the reserve of a pool that had cleanups is not empty, though no address is in use: the
-- nodes of the reserve lie in memory that `spr_palloc` hands out again.
pub clear-reserve :
    (sys : System) (p : Pool) (children : Forest) (w : World)
    → AllOwned sys.self (node p children)
    → p.cleanups ≢ []
    → Returns
        (λ t' w'. ((a : ℕ) → users a (root t').nodes ≡ 0) × ((root t').free_cleanups ≢ []))
        (clear sys (node p children) w)
clear-reserve sys p children w owned ne =
    Returns-mono (clear_all sys (node p children) w owned) λ t' w' h.
      let c = root-Cleared p children t' h.0 in
      (c.unused, λ e. reverse_aux-ne_nil p.cleanups p.free_cleanups ne (sym c.reserved ∙ e))
