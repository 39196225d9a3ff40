-- ===== src/Ypipe.antt =====
-- ypipe.hpp: ypipe_t, the queue between one writer and one reader.
-- A pointer into the queue is the number of items that were pushed before it, so the terminator
-- element stands at `back`; the pointer `c` is none for NULL, which says that the reader sleeps.
pub mod Wf
pub mod Reachable
use cctas.Base.{
  ℕ, zero, suc, ◌+◌, ◌-◌, ◌==◌, Bool, true, false, not, ◌&&◌, ◌||◌, Option, none, some, List, [],
  ◌∷◌, ◌++◌, if◌then◌else◌, length, take, get_elem?,
}

pub record Ypipe (M : Type 0) : Type 0 where
  pub items : List M
  pub front : ℕ
  pub w : ℕ
  pub r : Option ℕ
  pub f : ℕ
  pub c : Option ℕ

-- a pointer that may be NULL, compared with one that is not
abbrev pub is_at : Option ℕ → ℕ → Bool
is_at none p = false
is_at (some q) p = q == p

abbrev pub is_null : Option ℕ → Bool
is_null none = true
is_null (some p) = false

module _ {M : Type 0} where
  -- the constructor
  unfoldable pub ypipe : Ypipe M
  ypipe = record { items = []; front = 0; w = 0; r = some 0; f = 0; c = some 0 }

  -- &queue.back ()
  abbrev pub back : Ypipe M → ℕ
  back q = q.front + length q.items

  unfoldable pub write : Ypipe M → M → Bool → Ypipe M
  write q value incomplete = record q {
    items = q.items ++ (value ∷ []);
    f = if incomplete then q.f else back q + 1;
  }

  -- unwrite: the item, none for false
  unfoldable pub unwrite : Ypipe M → Option M × Ypipe M
  unwrite q = if q.f == back q then (none, q) else (
    get_elem? q.items (length q.items - 1),
    record q { items = take (length q.items - 1) q.items },
  )

  unfoldable pub flush : Ypipe M → Bool × Ypipe M
  flush q = if q.w == q.f then (true, q) else (is_at q.c q.w, record q { c = some q.f; w = q.f })

  -- r = c.cas (&queue.front (), NULL)
  abbrev pub prefetch : Ypipe M → Ypipe M
  prefetch q = record q { r = q.c; c = if is_at q.c q.front then none else q.c }

  unfoldable pub check_read : Ypipe M → Bool × Ypipe M
  check_read q =
      if not (is_at q.r q.front) && not (is_null q.r)
      then (true, q)
      else (not (is_at q.c q.front || is_null q.c), prefetch q)

  -- queue.front () and queue.pop ()
  abbrev pub pop : Ypipe M → List M → Option M × Ypipe M
  pop q [] = (none, q)
  pop q (value ∷ rest) = (some value, record q { items = rest; front = q.front + 1 })

  -- read: the item, none for false
  unfoldable pub read : Ypipe M → Option M × Ypipe M
  unfolding check_read
  read q =
      let (ready, q1) = check_read q in
      let popped = pop q1 q1.items in if ready then popped else (none, q1)

  -- probe: none where its zmq_assert fails
  unfoldable pub probe : (M → Bool) → Ypipe M → Option Bool × Ypipe M
  unfolding check_read
  probe fn q =
      let (ready, q1) = check_read q in
      (if ready then elim q1.items [ [] ↦ none | value ∷ _ ↦ some (fn value) ] else none, q1)
