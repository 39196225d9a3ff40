-- ===== src/Own/Tests.antt =====
-- Object 1, which object 0 owns, ends with one child and another that is handed over late.
use cctas.Base.{◌≡◌, refl, true, false, some, [], ◌∷◌, arith}
use cctas.Options.Numbers.{pos}
use cctas.Own.{Own, term, term_ack, process_term}
use cctas.Own.Ending.{acks, owns, Outstanding, deliver_after, process_term-ends}

abbrev one : Own
one = record {
  terminating = false;
  sent_seqnum = 2;
  processed_seqnum = 1;
  owner = some 0;
  owned = 2 ∷ [];
  term_acks = 0;
  linger = pos 0;
  destroyed = false;
  sent = [];
}

abbrev one_gone : Own
one_gone = record {
  terminating = true;
  sent_seqnum = 2;
  processed_seqnum = 2;
  owner = some 0;
  owned = [];
  term_acks = 0;
  linger = pos 0;
  destroyed = true;
  sent = term_ack 0 ∷ term 3 (pos 0) ∷ term 2 (pos 5) ∷ [];
}

three_come : Outstanding 1 1 (owns 3 ∷ acks ∷ acks ∷ [])
unfolding Outstanding
three_come = (omega arith, (omega arith, (omega arith, (refl, refl))))

process_term-ends_example :
    deliver_after (process_term (pos 5) one) (owns 3 ∷ acks ∷ acks ∷ []) ≡ some one_gone
process_term-ends_example =
    process_term-ends one (pos 5) 1 (owns 3 ∷ acks ∷ acks ∷ []) refl refl refl (omega arith)
      three_come
