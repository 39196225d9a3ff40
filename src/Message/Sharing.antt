-- ===== src/Message/Sharing.antt =====
-- msg.cpp: passing a message on, sharing it with another one, and the references made ahead keep
-- the counts of the contents.
use cctas.Base.{
  ℕ, ◌+◌, ◌-◌, ◌%◌, ◌&&◌, ◌^◌, ◌<◌, ◌≡◌, true, false, some, get_elem?, set, if◌then◌else◌, arith,
}
use cctas.Message
use cctas.Message.{Message, done, Kind, lmsg, Content, Heap, is_lmsg, counter_add, put, set_refcnt}
use cctas.Message.Store.{Store}
use cctas.Message.Totals.{total, total-set, le-total, total-excess}
use cctas.Message.Counted.{points_at, holds, holds_shared, holds_null, IsCounted}
use cctas.Message.Closing.{holds_shared-le}

-- a message that owns nothing, and another one
module _ {ahead : ℕ → ℕ} {s : Store} (v : IsCounted ahead s) (i j : ℕ) (a b : Message)
    (ea : get_elem? s.messages i ≡ some a) (eb : get_elem? s.messages j ≡ some b)
    (ej : get_elem? (set s.messages i b) j ≡ some b) (l : is_lmsg a.kind ≡ false) where
  abbrev pub moved : Store
  moved = record { messages = set (set s.messages i b) j (Message.init b); heap = s.heap }

  pub moved-IsCounted : IsCounted ahead moved
  unfolding Message.init
  moved-IsCounted = record {
    counted = λ q. ground (
      arith,
      v.counted q,
      l,
      total-set (holds q) s.messages i a b ea,
      total-set (holds q) (set s.messages i b) j b (Message.init b) ej,
      total-set (holds_shared q) s.messages i a b ea,
      total-set (holds_shared q) (set s.messages i b) j b (Message.init b) ej,
    );
    pointed = ground (
      arith,
      v.pointed,
      l,
      total-set holds_null s.messages i a b ea,
      total-set holds_null (set s.messages i b) j b (Message.init b) ej,
    );
    fresh = v.fresh;
    freed_once = v.freed_once;
  }

-- the references ahead for the content of a message, n more and n fewer
abbrev pub raised : Message → ℕ → (ℕ → ℕ) → ℕ → ℕ
raised m n ahead q = if is_lmsg m.kind && points_at q m.content then ahead q + n else ahead q

abbrev pub lowered : Message → ℕ → (ℕ → ℕ) → ℕ → ℕ
lowered m n ahead q = if is_lmsg m.kind && points_at q m.content then ahead q - n else ahead q

module _ {ahead : ℕ → ℕ} {s : Store} (v : IsCounted ahead s) (i : ℕ) (m : Message)
    (e : get_elem? s.messages i ≡ some m) where
  abbrev pub shared_now : Message
  shared_now = record m { flags = record (m.flags) { shared = true } }

  -- n references more, of a message that is shared already, and of one that is not
  pub raised-IsCounted :
      (n : ℕ) (p : ℕ) (c : Content)
      → m.kind ≡ lmsg
      → m.content ≡ some p
      → s.heap.contents p ≡ some c
      → total (holds p) s.messages + ahead p + n < 2 ^ 32
      → m.flags.shared ≡ true
      → IsCounted (raised m n ahead) (record {
        messages = set s.messages i m;
        heap = set_refcnt p c (counter_add n c.refcnt) s.heap;
      })
  raised-IsCounted n p c l at live room sh = record {
    counted = λ q. ground (
      arith,
      v.counted q,
      v.counted p,
      total-set (holds q) s.messages i m m e,
      total-set (holds_shared q) s.messages i m m e,
      le-total (holds_shared p) s.messages i m e,
    );
    pointed = ground (arith, v.pointed, total-set holds_null s.messages i m m e);
    fresh = λ q h. ground (arith, v.fresh q, v.fresh p);
    freed_once = λ q. ground (arith, v.freed_once q, v.fresh p);
  }

  pub shared-IsCounted :
      (n : ℕ) (p : ℕ) (c : Content)
      → m.kind ≡ lmsg
      → m.content ≡ some p
      → s.heap.contents p ≡ some c
      → 1 + n < 2 ^ 32
      → m.flags.shared ≡ false
      → IsCounted (raised m n ahead) (record {
        messages = set s.messages i shared_now;
        heap = set_refcnt p c ((n + 1) % 2 ^ 32) s.heap;
      })
  shared-IsCounted n p c l at live room sh = record {
    counted = λ q. ground (
      arith,
      v.counted q,
      v.counted p,
      total-set (holds q) s.messages i m shared_now e,
      total-set (holds_shared q) s.messages i m shared_now e,
      total-excess (holds_shared p) (holds p) (holds_shared-le p) s.messages i m e,
    );
    pointed = ground (arith, v.pointed, total-set holds_null s.messages i m shared_now e);
    fresh = λ q h. ground (arith, v.fresh q, v.fresh p);
    freed_once = λ q. ground (arith, v.freed_once q, v.fresh p);
  }
