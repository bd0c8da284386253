-- ===== src/Pool/Cleanup/Laws.antt =====
-- What running and removing cleanups does to the list, and which handlers run, in which order.
use mathlib.Core.Option
use mathlib.Core.List.{reverse_aux}
use spr.Base.{
  ℕ, Bool, ◌&&◌, ◌==◌, ==_iff, arith, subst, ◌≡◌, refl, ap, inl, inr, true, false, Option, none,
  some, List, [], ◌∷◌, ◌++◌, All, Bool-cases, map,
}
use spr.Memory
use spr.Sys.{Event, released, handled, World, ok, record_event}
use spr.Pool.{Handler, spr_free, client, handler_eq, CleanupNode, Pool}
use spr.Pool.Cleanup.{run_handler, same_entry, unlink, run_all, cleanup_run_all}

and_split : (a b : Bool) → (a && b) ≡ true → (a ≡ true) × (b ≡ true)
and_split true true e = (refl, refl)
and_split true false e = absurd (ground (arith, e))
and_split false b e = absurd (ground (arith, e))

-- The event that calling a node's handler with its argument is.
unfoldable pub event_of : CleanupNode → Event
event_of n = elim (n.handler) [ spr_free ↦ released n.argument | client f ↦ handled f n.argument ]

pub run_handler_lem :
    (n : CleanupNode) (w : World) → run_handler n w ≡ ok tt (record_event (event_of n) w)
unfolding run_handler event_of Memory.free
run_handler_lem n w = go (n.handler) refl
  where
    go : (h : Handler) → n.handler ≡ h → run_handler n w ≡ ok tt (record_event (event_of n) w)
    go spr_free e = rw (e, run_handler, event_of)
    go (client f) e = rw (e, run_handler, event_of)

run_all_lem :
    (ns free : List CleanupNode) (w : World)
    → run_all ns free w
      ≡ ok (reverse_aux ns free) (record w { log = reverse_aux (map event_of ns) w.log })
unfolding run_all
run_all_lem [] free w = refl
run_all_lem (n ∷ ns) free w =
    rw (run_handler_lem n w) (run_all_lem ns (n ∷ free) (record_event (event_of n) w))

-- `spr_pool_cleanup_run_all` calls the handler of each entry of the list exactly once, from the
-- first to the last (the log has the latest first), makes no other call, leaves the list empty and
-- moves its nodes to the reserve.
pub cleanup_run_all_lem :
    (p : Pool) (w : World)
    → cleanup_run_all p w
      ≡ ok
          (record p { cleanups = []; free_cleanups = reverse_aux p.cleanups p.free_cleanups })
          (record w { log = reverse_aux (map event_of p.cleanups) w.log })
unfolding cleanup_run_all
cleanup_run_all_lem p w = rw (run_all_lem p.cleanups p.free_cleanups w)

-- The entry has this argument and this handler.
abbrev pub Matches : ℕ → Handler → CleanupNode → Type 0
Matches argument handler n = (n.argument ≡ argument) × (n.handler ≡ handler)

-- How the first matching entry stands in the list.
pub record Unlinked (argument : ℕ) (handler : Handler) (ns : List CleanupNode) (n : CleanupNode)
    (rest : List CleanupNode) : Type 0 where
  pub before : List CleanupNode
  pub behind : List CleanupNode
  pub listed : ns ≡ before ++ (n ∷ behind)
  pub left : rest ≡ before ++ behind
  pub matches : Matches argument handler n
  pub first : All (λ m. ¬ (Matches argument handler m)) before

abbrev pub Unlinks :
    ℕ → Handler → List CleanupNode → Option (CleanupNode × List CleanupNode) → Type 0
Unlinks argument handler ns none = All (λ m. ¬ (Matches argument handler m)) ns
Unlinks argument handler ns (some (n, rest)) = Unlinked argument handler ns n rest

Unlinks-cons :
    (argument : ℕ) (handler : Handler) (m : CleanupNode) (ns : List CleanupNode)
    (r : Option (CleanupNode × List CleanupNode))
    → ¬ (Matches argument handler m)
    → Unlinks argument handler ns r
    → Unlinks argument handler (m ∷ ns) (Option.map (λ (n, rest). (n, m ∷ rest)) r)
Unlinks-cons argument handler m ns none miss u = (miss, u)
Unlinks-cons argument handler m ns (some (n, rest)) miss u = record {
  before = m ∷ u.before;
  behind = u.behind;
  listed = ap (λ l. m ∷ l) u.listed;
  left = ap (λ l. m ∷ l) u.left;
  matches = u.matches;
  first = (miss, u.first);
}

handler_eq_iff : (g h : Handler) → (handler_eq g h ≡ true → g ≡ h) × (handler_eq g g ≡ true)
handler_eq_iff spr_free spr_free = (λ e. refl, refl)
handler_eq_iff spr_free (client h) = (λ e. absurd (ground (arith, e)), refl)
handler_eq_iff (client g) spr_free = (λ e. absurd (ground (arith, e)), (==_iff g g).1 refl)
handler_eq_iff (client g) (client h) = (λ e. ap client ((==_iff g h).0 e), (==_iff g g).1 refl)

-- The test finds the entries that match, and no others.
same_entry-Matches :
    (argument : ℕ) (handler : Handler) (m : CleanupNode)
    → same_entry argument handler m ≡ true
    → Matches argument handler m
same_entry-Matches argument handler m e =
    let both = and_split (m.argument == argument) (handler_eq m.handler handler) e in
    ((==_iff m.argument argument).0 both.0, (handler_eq_iff m.handler handler).0 both.1)

same_entry_other :
    (argument : ℕ) (handler : Handler) (m : CleanupNode)
    → same_entry argument handler m ≡ false
    → ¬ (Matches argument handler m)
same_entry_other argument handler m e (a, h) =
    let t : (m.argument == argument) ≡ true = (==_iff m.argument argument).1 a in
    let u : handler_eq m.handler handler ≡ true =
      subst (λ g. handler_eq m.handler g ≡ true) h (handler_eq_iff m.handler m.handler).1 in
    ground (arith, e, t, u)

-- The walk finds the first entry with this argument and handler, or there is none.
pub unlink-Unlinks :
    (argument : ℕ) (handler : Handler) (ns : List CleanupNode)
    → Unlinks argument handler ns (unlink argument handler ns)
unfolding unlink
unlink-Unlinks argument handler [] = tt
unlink-Unlinks argument handler (m ∷ ns) = elim (Bool-cases (same_entry argument handler m)) [
  | inl hit ↦ rw hit (record {
    before = [];
    behind = ns;
    listed = refl;
    left = refl;
    matches = same_entry-Matches argument handler m hit;
    first = tt;
  })
  | inr miss ↦ rw miss (
      Unlinks-cons argument handler m ns _ (same_entry_other argument handler m miss)
        (unlink-Unlinks argument handler ns))
]
