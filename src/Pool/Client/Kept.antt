-- ===== src/Pool/Client/Kept.antt =====
-- Removing and running cleanups keeps a pool in order: nodes only move to the reserve.
use mathlib.Core.List.{reverse_aux}
use spr.Base.{
  ℕ, ◌+◌, ◌≡◌, refl, sym, subst, ◌∙◌, Option, none, some, List, [], ◌∷◌, ◌++◌, All, All-append, map,
  arith, true, ap,
}
use spr.Memory.Live.{live}
use spr.Mutex
use spr.Mutex.Effect.{Quiet, Quiet-trans, lock-Quiet, unlock-Quiet}
use spr.Sys.{Event, World, System, Cmd, pure, ◌>>◌, record_event, Returns, returns, Returns-bind}
use spr.Pool.{Handler, spr_free, client, CleanupNode, Pool}
use spr.Pool.Blocks.{IsPool}
use spr.Pool.Cleanup.{unlink, run_handler, reserve, cleanup_remove, cleanup_run, cleanup_run_all}
use spr.Pool.Cleanup.Laws.{
  event_of, run_handler_lem, cleanup_run_all_lem, Unlinked, Unlinks, unlink-Unlinks,
}
use spr.Pool.Client.{nodes_at, is_client, IsEntry, InOrder, in_order, InOrder-Quiet}

nodes_at-append :
    (a : ℕ) (xs ys : List CleanupNode) → nodes_at a (xs ++ ys) ≡ nodes_at a xs + nodes_at a ys
nodes_at-append a [] ys = omega arith
nodes_at-append a (x ∷ xs) ys = omega (arith, nodes_at-append a xs ys)

nodes_at-reverse_aux :
    (a : ℕ) (xs ys : List CleanupNode)
    → nodes_at a (reverse_aux xs ys) ≡ nodes_at a xs + nodes_at a ys
nodes_at-reverse_aux a [] ys = omega arith
nodes_at-reverse_aux a (x ∷ xs) ys = omega (arith, nodes_at-reverse_aux a xs (x ∷ ys))

entries-reverse_aux :
    (xs ys : List CleanupNode) → All IsEntry xs → All IsEntry ys → All IsEntry (reverse_aux xs ys)
entries-reverse_aux [] ys h k = k
entries-reverse_aux (x ∷ xs) ys h k = entries-reverse_aux xs (x ∷ ys) h.1 (h.0, k)

entries_split :
    (xs ys : List CleanupNode) → All IsEntry (xs ++ ys) → All IsEntry xs × All IsEntry ys
entries_split [] ys h = (tt, h)
entries_split (x ∷ xs) ys h = let k = entries_split xs ys h.1 in ((h.0, k.0), k.1)

-- A handler of the client frees nothing.
live-event_of :
    (a : ℕ) (n : CleanupNode) (log : List Event)
    → IsEntry n
    → live a (event_of n ∷ log) ≡ live a log
unfolding event_of
live-event_of a n log e = go (n.handler) refl e.1
  where
    go : (h : Handler) → n.handler ≡ h → is_client h ≡ true → live a (event_of n ∷ log) ≡ live a log
    go spr_free e c = absurd (ground (arith, c))
    go (client f) e c = rw (event_of, e) refl

live-events :
    (a : ℕ) (ns : List CleanupNode) (log : List Event)
    → All IsEntry ns
    → live a (reverse_aux (map event_of ns) log) ≡ live a log
live-events a [] log h = refl
live-events a (n ∷ ns) log h = live-events a ns (event_of n ∷ log) h.1 ∙ live-event_of a n log h.0

-- Only the nodes of memory make a pool.
IsPool-moved :
    (p : Pool) (cleanups free : List CleanupNode)
    → IsPool p
    → IsPool (record p { cleanups = cleanups; free_cleanups = free })
IsPool-moved p cleanups free is = record { slots = is.slots; count = is.count; apart = is.apart }

module _ {before : ℕ → ℕ} {p : Pool} {blocks : List (ℕ × ℕ)} {w : World}
    (o : InOrder before (p, blocks) w) where
  -- The entry that a walk finds, with what stands around it.
  reserve-InOrder :
      (argument : ℕ) (handler : Handler) (n : CleanupNode) (rest : List CleanupNode)
      → Unlinked argument handler p.cleanups n rest
      → InOrder before (reserve p n rest, blocks) w
  reserve-InOrder argument handler n rest u =
      let whole = subst (All IsEntry) u.listed o.entries in
      let parts = entries_split u.before (n ∷ u.behind) whole in
      in_order (reserve p n rest) blocks w (IsPool-moved p rest (n ∷ p.free_cleanups) o.valid)
        o.owns
        (subst (All IsEntry) (sym u.left) (All-append IsEntry u.before u.behind parts.0 parts.1.1))
        (parts.1.0, o.reserved)
        λ a.
          let whole_at : nodes_at a p.cleanups ≡ nodes_at a (u.before ++ n ∷ u.behind) =
            ap (nodes_at a) u.listed in
          let rest_at : nodes_at a rest ≡ nodes_at a (u.before ++ u.behind) =
            ap (nodes_at a) u.left in
          omega (
            arith,
            o.sums a,
            whole_at,
            rest_at,
            nodes_at-append a u.before (n ∷ u.behind),
            nodes_at-append a u.before u.behind,
          )

  pub cleanup_run_all-InOrder :
      Returns (λ p' w'. InOrder before (p', blocks) w') (cleanup_run_all p w)
  cleanup_run_all-InOrder = rw (cleanup_run_all_lem p w) (
      returns (
        in_order _ blocks _ (IsPool-moved p [] _ o.valid)
          (λ a. omega (arith, o.owns a, live-events a p.cleanups w.log o.entries)) tt
          (entries-reverse_aux p.cleanups p.free_cleanups o.entries o.reserved)
          λ a. omega (arith, o.sums a, nodes_at-reverse_aux a p.cleanups p.free_cleanups)))

module _ (sys : System) {before : ℕ → ℕ} {p : Pool} {blocks : List (ℕ × ℕ)} (argument : ℕ)
    (handler : Handler) {w : World} (o : InOrder before (p, blocks) w) where
  pub cleanup_remove-InOrder :
      Returns (λ p' w'. InOrder before (p', blocks) w') (cleanup_remove sys p argument handler w)
  unfolding cleanup_remove
  cleanup_remove-InOrder = Returns-bind (lock-Quiet sys p.mutex w) λ _ w' q.
      go w' q (unlink argument handler p.cleanups) (unlink-Unlinks argument handler p.cleanups)
    where
      go :
          (w' : World)
          → Quiet w w'
          → (r : Option (CleanupNode × List CleanupNode)) → Unlinks argument handler p.cleanups r
          → Returns
              (λ p' w''. InOrder before (p', blocks) w'')
              ((elim r as (λ x. Cmd Pool) [
                | none ↦ pure p
                | some (n, rest) ↦ do Mutex.unlock sys p.mutex; pure (reserve p n rest)
              ])
                w')
      go w' q none u = returns (InOrder-Quiet q o)
      go w' q (some (n, rest)) u = Returns-bind (unlock-Quiet sys p.mutex w') λ _ w'' q'.
          returns (InOrder-Quiet (Quiet-trans q q') (reserve-InOrder o argument handler n rest u))

  -- The entry that was found is one of the list.
  found-IsEntry :
      (n : CleanupNode) (rest : List CleanupNode)
      → Unlinked argument handler p.cleanups n rest
      → IsEntry n
  found-IsEntry n rest u =
      (entries_split u.before (n ∷ u.behind) (subst (All IsEntry) u.listed o.entries)).1.0

  pub cleanup_run-InOrder :
      Returns (λ p' w'. InOrder before (p', blocks) w') (cleanup_run sys p argument handler w)
  unfolding cleanup_run
  cleanup_run-InOrder = Returns-bind (lock-Quiet sys p.mutex w) λ _ w' q.
      go w' q (unlink argument handler p.cleanups) (unlink-Unlinks argument handler p.cleanups)
    where
      go :
          (w' : World)
          → Quiet w w'
          → (r : Option (CleanupNode × List CleanupNode)) → Unlinks argument handler p.cleanups r
          → Returns
              (λ p' w''. InOrder before (p', blocks) w'')
              ((elim r as (λ x. Cmd Pool) [
                | none ↦ pure p
                | some (n, rest) ↦ do
                  run_handler n
                  Mutex.unlock sys p.mutex
                  pure (reserve p n rest)
              ])
                w')
      go w' q none u = returns (InOrder-Quiet q o)
      go w' q (some (n, rest)) u =
          let fired = record_event (event_of n) w' in
          let e : Quiet w' fired = record {
            live_kept = λ a. live-event_of a n w'.log (found-IsEntry n rest u);
            counter_kept = refl;
          } in
          rw (run_handler_lem n w') (
            Returns-bind (unlock-Quiet sys p.mutex fired) λ _ w'' q'. returns (
              InOrder-Quiet (Quiet-trans q (Quiet-trans e q'))
                (reserve-InOrder o argument handler n rest u)))
