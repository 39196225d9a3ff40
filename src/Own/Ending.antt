-- ===== src/Own/Ending.antt =====
-- An object that is asked to terminate does so, once what it waits for has come.
use cctas.Base.{
  ℕ, ◌+◌, ◌-◌, ◌%◌, ◌^◌, ◌<◌, ◌≡◌, refl, ap, ◌∙◌, ltb, true, false, if◌then◌else◌, Option, none,
  some, List, [], ◌∷◌, length, arith,
}
use cctas.Options.Numbers.{ℤ, pos}
use cctas.Own.{
  Command, term, Own, farewell, check_term_acks, process_seqnum, unregister_term_ack,
  process_term_ack, process_own, process_term, send_terms,
}

-- What reaches an object that waits: an acknowledgement, the command `own` with an object that was
-- launched before, or another command that counts in its seqnum (plug, attach, bind).
pub data Delivery : Type 0 where
  acks : Delivery
  owns : ℕ → Delivery
  counts : Delivery

-- object_t::process_command on these
unfoldable pub process_command : Delivery → Own → Option Own
process_command acks o = process_term_ack o
process_command (owns x) o = process_seqnum (process_own x o)
process_command counts o = process_seqnum o

-- The commands one after the other; none where an assertion fails or the object is gone already.
unfoldable pub deliver : Own → List Delivery → Option Own
deliver o [] = some o
deliver o (d ∷ ds) =
    if o.destroyed
    then none
    else (elim (process_command d o) [ none ↦ none | some o1 ↦ deliver o1 ds ])

abbrev pub deliver_after : Option Own → List Delivery → Option Own
deliver_after none ds = none
deliver_after (some o) ds = deliver o ds

-- The deliveries are just what is outstanding, a acknowledgements and s commands: no command comes
-- that was not counted, and an object acknowledges only after it was asked to terminate.
unfoldable pub Outstanding : ℕ → ℕ → List Delivery → Type 0
Outstanding a s [] = (a ≡ 0) × (s ≡ 0)
Outstanding a s (acks ∷ ds) = (0 < a) × Outstanding (a - 1) s ds
Outstanding a s (owns x ∷ ds) = (0 < s) × Outstanding (a + 1) (s - 1) ds
Outstanding a s (counts ∷ ds) = (0 < s) × Outstanding a (s - 1) ds

-- The objects that come in the deliveries are asked to terminate at once.
abbrev pub asked : List Delivery → List Command → List Command
asked [] cs = cs
asked (acks ∷ ds) cs = asked ds cs
asked (owns x ∷ ds) cs = asked ds (term x (pos 0) ∷ cs)
asked (counts ∷ ds) cs = asked ds cs

-- The object as it is deleted.
abbrev pub ended : List Delivery → Own → Own
ended ds o = record o {
  term_acks = 0;
  processed_seqnum = o.sent_seqnum;
  sent = farewell o.owner (asked ds o.sent);
  destroyed = true;
}

-- A terminating object that a acknowledgements and s commands are outstanding for.
record Waits (o : Own) (a s : ℕ) : Type 0 where
  alive : o.destroyed ≡ false
  terminates : o.terminating ≡ true
  owns_none : o.owned ≡ []
  counted : o.term_acks ≡ a
  behind : o.processed_seqnum + s ≡ o.sent_seqnum
  no_wrap : o.sent_seqnum < 2 ^ 32

check_early : (o : Own) (a s : ℕ) → Waits o a s → 0 < a + s → check_term_acks o ≡ some o
unfolding check_term_acks
check_early o a s w more = ground (arith, w.counted, w.behind)

check_last : (o : Own) → Waits o 0 0 → check_term_acks o ≡ some (ended [] o)
unfolding check_term_acks
check_last o w = ground (arith, w.terminates, w.behind, w.counted, w.owns_none)

deliver_next :
    (o : Own) (d : Delivery) (ds : List Delivery)
    → o.destroyed ≡ false
    → deliver o (d ∷ ds) ≡ deliver_after (process_command d o) ds
unfolding deliver
deliver_next o d ds alive = simp alive (chosen (process_command d o))
  where
    chosen :
        (p : Option Own) → (elim p [ none ↦ none | some o1 ↦ deliver o1 ds ]) ≡ deliver_after p ds
    chosen none = refl
    chosen (some o1) = refl

-- A delivery to an object that waits for more, by the state that it is checked in.
next_check :
    (o o1 : Own) (a s : ℕ) (d : Delivery) (ds : List Delivery)
    → Waits o a s
    → 0 < a + s
    → process_command d o ≡ check_term_acks o1
    → deliver_after (check_term_acks o) (d ∷ ds) ≡ deliver_after (check_term_acks o1) ds
next_check o o1 a s d ds w more h =
    ap (λ p. deliver_after p (d ∷ ds)) (check_early o a s w more)
    ∙ deliver_next o d ds w.alive
    ∙ ap (λ p. deliver_after p ds) h

-- What is outstanding comes, and the object is gone at the last of it, not before.
settles :
    (ds : List Delivery) (o : Own) (a s : ℕ)
    → Waits o a s
    → Outstanding a s ds
    → deliver_after (check_term_acks o) ds ≡ some (ended ds o)
unfolding Outstanding process_command unregister_term_ack process_seqnum process_own deliver
settles [] o a s w (none_left, all_done) =
    ap (λ p. deliver_after p [])
      (check_last o (record {
        alive = w.alive;
        terminates = w.terminates;
        owns_none = w.owns_none;
        counted = w.counted ∙ none_left;
        behind = omega (arith, w.behind, all_done);
        no_wrap = w.no_wrap;
      }))
settles (acks ∷ ds) o a s w (some_left, rest) =
    let o1 : Own = record o { term_acks = o.term_acks - 1 } in
    let taken : ltb 0 o.term_acks ≡ true = ground (arith, w.counted) in
    next_check o o1 a s acks ds w (omega arith) (simp taken refl)
    ∙ settles ds o1 (a - 1) s
        (record {
          alive = w.alive;
          terminates = w.terminates;
          owns_none = w.owns_none;
          counted = omega (arith, w.counted);
          behind = w.behind;
          no_wrap = w.no_wrap;
        })
        rest
settles (owns x ∷ ds) o a s w (some_left, rest) =
    let o1 : Own = record o {
      term_acks = o.term_acks + 1;
      sent = term x (pos 0) ∷ o.sent;
      processed_seqnum = (o.processed_seqnum + 1) % 2 ^ 64;
    } in
    next_check o o1 a s (owns x) ds w (omega arith) (simp (w.terminates) refl)
    ∙ settles ds o1 (a + 1) (s - 1)
        (record {
          alive = w.alive;
          terminates = w.terminates;
          owns_none = w.owns_none;
          counted = omega (arith, w.counted);
          behind = omega (arith, w.behind, w.no_wrap);
          no_wrap = w.no_wrap;
        })
        rest
settles (counts ∷ ds) o a s w (some_left, rest) =
    let o1 : Own = record o { processed_seqnum = (o.processed_seqnum + 1) % 2 ^ 64 } in
    next_check o o1 a s counts ds w (omega arith) refl
    ∙ settles ds o1 a (s - 1)
        (record {
          alive = w.alive;
          terminates = w.terminates;
          owns_none = w.owns_none;
          counted = w.counted;
          behind = omega (arith, w.behind, w.no_wrap);
          no_wrap = w.no_wrap;
        })
        rest

-- The object that process_term leaves waiting.
abbrev pub ending : ℤ → Own → Own
ending linger o = record o {
  sent = send_terms linger o.owned o.sent;
  term_acks = o.term_acks + length o.owned;
  owned = [];
  terminating = true;
}

-- Where fewer than 2 ^ 32 commands were counted in all, so that the count has not wrapped, and s of
-- them were not handled yet, an object that is asked to terminate asks the objects that it owns to
-- terminate. Once what is outstanding has come, in any order that an acknowledgement follows its
-- request, it is deleted, at the last delivery and not before; until then it asked every object that
-- it was handed to terminate, and its last command is the acknowledgement to its owner, if it has one.
pub process_term-ends :
    (o : Own) (linger : ℤ) (s : ℕ) (ds : List Delivery)
    → o.destroyed ≡ false
    → o.terminating ≡ false
    → o.processed_seqnum + s ≡ o.sent_seqnum
    → o.sent_seqnum < 2 ^ 32
    → Outstanding (o.term_acks + length o.owned) s ds
    → deliver_after (process_term linger o) ds ≡ some (ended ds (ending linger o))
unfolding process_term
process_term-ends o linger s ds alive running behind no_wrap out =
    ap (λ p. deliver_after p ds) (simp running refl)
    ∙ settles ds (ending linger o) (o.term_acks + length o.owned) s
        (record {
          alive = alive;
          terminates = refl;
          owns_none = refl;
          counted = refl;
          behind = behind;
          no_wrap = no_wrap;
        })
        out
