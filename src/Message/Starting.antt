-- ===== src/Message/Starting.antt =====
-- msg.cpp: the ways a message starts, and its flags, keep the counts of the contents.
use cctas.Base.{
  ℕ, ◌+◌, ◌%◌, ◌≡◌, refl, sym, subst, inl, inr, true, false, Option, none, some, leb, Bool-cases,
  get_elem?, set, arith,
}
use cctas.Message
use cctas.Message.{
  Message, Flags, no_flags, Rc, done, Kind, vsm, lmsg, invalid, Content, Heap, is_lmsg, put, Place,
  behind, user, set_flags, reset_flags,
}
use cctas.Message.Store.{
  Store, init_at, init_delimiter_at, init_size_at, init_data_at, set_flags_at, reset_flags_at,
}
use cctas.Message.Totals.{total-set}
use cctas.Message.Counted.{holds, holds_shared, holds_null, IsCounted, Keeps}
use cctas.Message.Closing.{set_plain-IsCounted}

module _ {ahead : ℕ → ℕ} {s : Store} (v : IsCounted ahead s) (i : ℕ) (m : Message)
    (e : get_elem? s.messages i ≡ some m) where
  module _ (l : is_lmsg m.kind ≡ false) where
    pub init_at-Keeps : Keeps ahead (init_at i s)
    unfolding init_at Message.init
    init_at-Keeps =
        let eq : init_at i s
            ≡ some (
              done,
              record {
                messages = set s.messages i (record m { kind = vsm; flags = no_flags; size = 0 });
                heap = s.heap;
              },
            ) =
          ground arith in
        subst (Keeps ahead) (sym eq)
          (set_plain-IsCounted v i m e (record m { kind = vsm; flags = no_flags; size = 0 }) l refl)

    pub init_delimiter_at-Keeps : Keeps ahead (init_delimiter_at i s)
    unfolding init_delimiter_at Message.init_delimiter
    init_delimiter_at-Keeps =
        let eq : init_delimiter_at i s
            ≡ some (
              done,
              record { messages = set s.messages i (Message.init_delimiter m); heap = s.heap },
            ) =
          ground arith in
        subst (Keeps ahead) (sym eq) (set_plain-IsCounted v i m e (Message.init_delimiter m) l refl)

    -- a new content, which this message alone points to
    abbrev long : Message
    long = record m { kind = lmsg; flags = no_flags; content = some s.heap.next }

    allocated-IsCounted :
        (c : Content)
        → IsCounted ahead (record {
          messages = set s.messages i long;
          heap = record (s.heap) {
            contents = put s.heap.next (some c) s.heap.contents;
            next = s.heap.next + 1;
          };
        })
    allocated-IsCounted c = record {
      counted = λ q. ground (
        arith,
        l,
        v.counted q,
        v.fresh q,
        total-set (holds q) s.messages i m long e,
        total-set (holds_shared q) s.messages i m long e,
      );
      pointed = ground (arith, l, v.pointed, total-set holds_null s.messages i m long e);
      fresh = λ q h. ground (arith, v.fresh q);
      freed_once = λ q. ground (arith, v.freed_once q, v.fresh q);
    }

    pub init_data_at-Keeps :
        (address n : ℕ) (ffn : Option ℕ) (hint : ℕ)
        → Keeps ahead (init_data_at true i address n ffn hint s)
    unfolding init_data_at Message.init_data
    init_data_at-Keeps address n ffn hint =
        let c : Content = record {
          place = user address;
          size = n;
          ffn = ffn;
          hint = hint;
          refcnt = 0;
        } in
        let eq : init_data_at true i address n ffn hint s
            ≡ some (
              done,
              record {
                messages = set s.messages i long;
                heap = record (s.heap) {
                  contents = put s.heap.next (some c) s.heap.contents;
                  next = s.heap.next + 1;
                };
              },
            ) =
          ground arith in
        subst (Keeps ahead) (sym eq) (allocated-IsCounted c)

    pub init_size_at-Keeps : (n : ℕ) → Keeps ahead (init_size_at true i n s)
    unfolding init_size_at Message.init_size
    init_size_at-Keeps n = elim (Bool-cases (leb n 29)) [
      | inl small ↦
          (let m1 : Message = record m { kind = vsm; flags = no_flags; size = n % 256 } in
            let eq : init_size_at true i n s
                ≡ some (done, record { messages = set s.messages i m1; heap = s.heap }) =
              ground (arith, small) in
            subst (Keeps ahead) (sym eq) (set_plain-IsCounted v i m e m1 l refl))
      | inr large ↦
          (let c : Content = record {
            place = behind s.heap.next;
            size = n;
            ffn = none;
            hint = 0;
            refcnt = 0;
          } in
            let eq : init_size_at true i n s
                ≡ some (
                  done,
                  record {
                    messages = set s.messages i long;
                    heap = record (s.heap) {
                      contents = put s.heap.next (some c) s.heap.contents;
                      next = s.heap.next + 1;
                    };
                  },
                ) =
              ground (arith, large) in
            subst (Keeps ahead) (sym eq) (allocated-IsCounted c))
    ]

  -- other flags on the same message
  flagged-IsCounted :
      (f : Flags)
      → f.shared ≡ m.flags.shared
      → IsCounted ahead
          (record { messages = set s.messages i (record m { flags = f }); heap = s.heap })
  flagged-IsCounted f same = record {
    counted = λ q. ground (
      arith,
      same,
      v.counted q,
      total-set (holds q) s.messages i m (record m { flags = f }) e,
      total-set (holds_shared q) s.messages i m (record m { flags = f }) e,
    );
    pointed =
        ground (arith, v.pointed, total-set holds_null s.messages i m (record m { flags = f }) e);
    fresh = v.fresh;
    freed_once = v.freed_once;
  }

  pub set_flags_at-Keeps : (f : Flags) → f.shared ≡ false → Keeps ahead (set_flags_at f i s)
  unfolding set_flags_at set_flags
  set_flags_at-Keeps f no_shared =
      let eq : set_flags_at f i s
          ≡ some (
            done,
            record {
              messages = set s.messages i (record m { flags = (set_flags f m).flags });
              heap = s.heap;
            },
          ) =
        ground arith in
      subst (Keeps ahead) (sym eq) (flagged-IsCounted (set_flags f m).flags (ground arith))

  pub reset_flags_at-Keeps : (f : Flags) → f.shared ≡ false → Keeps ahead (reset_flags_at f i s)
  unfolding reset_flags_at reset_flags
  reset_flags_at-Keeps f no_shared =
      let eq : reset_flags_at f i s
          ≡ some (
            done,
            record {
              messages = set s.messages i (record m { flags = (reset_flags f m).flags });
              heap = s.heap;
            },
          ) =
        ground arith in
      subst (Keeps ahead) (sym eq) (flagged-IsCounted (reset_flags f m).flags (ground arith))
