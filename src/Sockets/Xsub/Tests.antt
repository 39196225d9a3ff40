-- ===== src/Sockets/Xsub/Tests.antt =====
-- A subscriber to one topic, over one pipe with two messages.
use cctas.Base.{
  ℕ, ◌<◌, ◌≤◌, ◌≡◌, refl, true, false, Option, none, some, List, [], ◌∷◌, length, arith,
}
use cctas.Framing.{Msg}
use cctas.Balance.{Pipes}
use cctas.Balance.Fq.{Fq, recvpipe}
use cctas.Balance.Fq.Bounds.{Bounded}
use cctas.Tables.{node, nil, ptr}
use cctas.Tables.Load.{IsWf}
use cctas.Trie.{Trie, check}
use cctas.Sockets.{got, more}
use cctas.Sockets.Xsub.{Xsub, sub, filter_loop, xrecv, xhas_in}
use cctas.Sockets.Xsub.Filtering.{Filters, filter_loop-Filters}
use cctas.Sockets.Xsub.Prefetching.{AsBefore, xhas_in-AsBefore}

-- The state is what the pipe holds.
abbrev take_first : List Msg → Option Msg × List Msg
take_first [] = (none, [])
take_first (m ∷ ms) = (some m, ms)

abbrev holding : Pipes (List Msg) Msg
holding = record {
  has_more = more;
  write = λ p x m. (true, p);
  check_write = λ p x. (true, p);
  flush = λ p x. p;
  read = λ p x. take_first p;
  check_read = λ p x. (true, p);
}

abbrev waiting : List Msg → ℕ
waiting p = length p

first_taken :
    (p : List Msg) (m : Msg) → (take_first p).0 ≡ some m → waiting (take_first p).1 < waiting p
first_taken [] m h = absurd (cc)
first_taken (x ∷ p) m h = omega arith

holding-Bounded : Bounded holding waiting
holding-Bounded = record {
  read_some = λ p x m h. first_taken p m h;
  read_none = λ p x h. none_taken p;
}
  where
    none_taken : (p : List Msg) → waiting (take_first p).1 ≤ waiting p
    none_taken [] = omega arith
    none_taken (x ∷ p) = omega arith

-- a subscription to `a`; a message `bc` in two parts, and a message `ab`
abbrev topic : Trie
topic = node 0 97 1 (ptr (node 1 0 0 nil) nil)

topic-IsWf : IsWf topic
unfolding IsWf
topic-IsWf = (refl, refl, refl, ((refl, refl, refl, tt), tt))

abbrev wanted : Msg
wanted = record { flags = 0; body = 97 ∷ 98 ∷ [] }

abbrev held : List Msg
held = record { flags = 1; body = 98 ∷ [] } ∷ record { flags = 0; body = 99 ∷ [] } ∷ wanted ∷ []

abbrev one_pipe : Fq
one_pipe = record {
  pipes = record { items = 0 ∷ []; index_of = λ x. x };
  active = 1;
  current = 0;
  more = false;
}

abbrev subscriber : Xsub
subscriber = record sub { fq = one_pipe; subscriptions = topic }

filter_loop-Filters_example :
    Filters holding waiting holding-Bounded false topic one_pipe held
      (filter_loop holding waiting 4 false topic one_pipe held)
filter_loop-Filters_example =
    filter_loop-Filters holding waiting holding-Bounded false topic topic-IsWf 4 one_pipe held
      (omega arith)

-- The unwanted message is dropped with both parts.
subscriber_gets : xrecv holding waiting (subscriber, held) ≡ some (got wanted, (subscriber, []))
unfolding xrecv recvpipe check sub
subscriber_gets = refl

xhas_in-AsBefore_example :
    AsBefore holding waiting subscriber held (xhas_in holding waiting (subscriber, held))
unfolding sub
xhas_in-AsBefore_example = xhas_in-AsBefore holding waiting subscriber held refl refl refl
