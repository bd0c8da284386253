-- ===== src/LinkedList/KeepRemove.antt =====
-- Removals from a list of lib/spr_list.c that is in order: what the removal of any node leaves.
pub mod Head
pub mod Tail
pub mod Inner
use spr.Base.{
  ℕ, zero, suc, ◌+◌, ◌-◌, ◌≤◌, ◌<◌, ◌≡◌, ◌≢◌, refl, sym, ap, subst, ◌∙◌, Bool, true, false, Option,
  some, List, [], ◌∷◌, ◌++◌, length, length-append, ◌==◌, ==_ne, if◌then◌else◌, arith,
}
use spr.Base.Int.{ℤ}
use spr.Base.Word
use spr.Base.Word.{word, add-fits, sub-fits}
use spr.Mutex.{success}
use spr.Sys.{System, World, ok, Returns, returns}
use spr.LinkedList.{SprList}
use spr.LinkedList.Node.{
  ListNode, Heap, write, write_here, write_away, deref, with_next, with_prev, with_item,
}
use spr.LinkedList.Remove.{remove, remove_inner, walk}
use spr.LinkedList.Seg.{
  Cells, cells_at, last_addr, Seg, Agree, Seg-Agree, Seg-append, Seg-split, Seg-last, Seg-first,
  cells_at-append, cells_at-last_addr, last_addr-append, last_addr_behind, cells_at_self,
  last_addr_not_null,
}
use spr.LinkedList.Inv.{
  free_at, Reserve, IsList, Reserve-Agree, differ_free, differ_first, free_at_self,
}

-- The list with its counters and its reserve as they are after the removal of the node `p`.
abbrev pub without : SprList → (head tail p : ℕ) → SprList
without l head tail p = record l {
  head = head;
  tail = tail;
  free_nodes = p;
  size = Word.sub l.size 1;
  capacity = Word.add l.capacity 1;
}

-- What is left to show of a removal: the chain, the tail, and which nodes were written.
pub without-IsList :
    (h h' : Heap) (l : SprList) (xs xs' : Cells) (fs : List ℕ) (p x : ℕ)
    → IsList h l xs fs
    → ((b : ℕ) → cells_at b xs ≡ cells_at b ((p, x) ∷ xs'))
    → length xs ≡ suc (length xs')
    → ((b : ℕ) → cells_at b xs ≡ 0 → h' b ≡ h b)
    → (h' p).next ≡ l.free_nodes
    → p ≢ 0
    → (before head tail : ℕ) → Seg h' before head xs' 0
    → tail ≡ last_addr 0 xs'
    → IsList h' (without l head tail p) xs' (p ∷ fs)
without-IsList h h' l xs xs' fs p x is cells len others back nz before head tail chain last =
    record {
      before = before;
      chain = chain;
      tail = last;
      reserve = (
        refl,
        nz,
        subst (λ n. Reserve h' n fs) (sym back)
            (Reserve-Agree h h' l.free_nodes fs (λ b k. others b (omega (arith, is.apart b, k)))
              is.reserve),
      );
      apart = λ b. omega (arith, is.apart b, cells b);
      size =
          sub-fits l.size 1 (omega (arith, is.size, len)) (omega (arith, is.size, is.room))
          ∙ omega (arith, is.size, len);
      capacity =
          add-fits l.capacity 1 (omega (arith, is.capacity, is.room, len))
          ∙ omega (arith, is.capacity);
      room = omega (arith, is.room, len);
    }

-- The tests of a removal, at nodes that are not NULL.
abbrev pub is_item : Heap → ℕ → ℕ → Bool
is_item h x p = (h p).item == x

-- An address at no node of a list is none of its nodes.
pub elsewhere : (a : ℕ) (xs : Cells) (b : ℕ) → 0 < cells_at a xs → cells_at b xs ≡ 0 → b ≢ a
elsewhere a xs b k z e = absurd (omega (arith, k, z, ap (λ c. cells_at c xs) e))
