-- ===== src/Balance/Fq/Valid.antt =====
-- The invariant of fq_t is the one of lb_t: the two keep their active pipes in the same way.
use cctas.Base.{
  ℕ, zero, suc, ◌+◌, ◌-◌, ◌≤◌, ◌<◌, ◌≡◌, ◌≢◌, inl, inr, refl, sym, subst, ltb, Bool, true, false,
  Option, none, some, arith, if◌then◌else◌, Bool-cases, Option-cases,
}
use cctas.Array.{size, index, push_back}
use cctas.Array.Wf.{Stored, swap-IsWf, push_back-IsWf, size-push_back, size-swap}
use cctas.Balance.{Pipes}
use cctas.Balance.Lb.{Lb}
use cctas.Balance.Lb as Sender
use cctas.Balance.Lb.Valid as Sending
use cctas.Balance.Lb.Valid.{IsFresh}
use cctas.Balance.Fq.{
  Fq, fq, Received, part, try_again, activated, attach, retire, terminated, source, deactivate,
  fetched, recv_loop, recvpipe, has_in_loop, has_in,
}

-- The pipes of a fair queue as those of a load balancer.
abbrev pub as_lb : Fq → Lb
as_lb q = record {
  pipes = q.pipes;
  active = q.active;
  current = q.current;
  more = q.more;
  dropping = false;
}

abbrev pub IsValid : Fq → Type 0
IsValid q = Sending.IsValid (as_lb q)

pub fq-IsValid : IsValid fq
unfolding fq
fq-IsValid = record {
  wf = record { known = λ i x h. absurd (cc) };
  within = omega arith;
  in_turn = inr refl;
}

pub activated-IsValid :
    (q : Fq) (x : ℕ)
    → IsValid q
    → q.active ≤ index q.pipes x
    → index q.pipes x < size q.pipes
    → IsValid (activated q x)
unfolding activated Sender.activated
activated-IsValid q x v h h' = Sending.activated-IsValid (as_lb q) x v h h'

pub attach-IsValid : (q : Fq) (x : ℕ) → IsFresh q.pipes x → IsValid q → IsValid (attach q x)
unfolding attach
attach-IsValid q x fresh v =
    let pushed = push_back q.pipes x in
    let grown : size pushed ≡ size q.pipes + 1 = size-push_back q.pipes x in
    record {
      wf =
          swap-IsWf pushed q.active (size pushed - 1) (omega (arith, v.within, grown))
            (omega (arith, grown)) (push_back-IsWf q.pipes x fresh v.wf);
      within = omega (arith, size-swap pushed q.active (size pushed - 1), v.within, grown);
      in_turn = ground (arith, v.in_turn);
    }

pub terminated-IsValid : (q : Fq) (x : ℕ) → Stored q.pipes x → IsValid q → IsValid (terminated q x)
unfolding terminated retire Sender.terminated Sender.retire
terminated-IsValid q x st v =
    let v' = Sending.terminated-IsValid (as_lb q) x st v in
    elim (Bool-cases (ltb (index q.pipes x) q.active)) [
      | inl lt ↦ rw lt (record {
        wf = rw lt at v'.wf;
        within = rw lt at v'.within;
        in_turn = rw lt at v'.in_turn;
      })
      | inr ge ↦ rw ge (record {
        wf = rw ge at v'.wf;
        within = rw ge at v'.within;
        in_turn = rw ge at v'.in_turn;
      })
    ]

deactivate-IsValid : (q : Fq) (n : ℕ) → q.active ≡ suc n → IsValid q → IsValid (deactivate q n)
deactivate-IsValid q n e v = Sending.deactivate-IsValid (as_lb q) n e v

module _ {P M : Type 0} (ps : Pipes P M) where
  -- What the answer of recvpipe says of the state it leaves: nothing is active, or the next part
  -- of an unfinished message comes from the pipe of this part.
  abbrev pub Answered : Received M → Fq → Type 0
  Answered (part m x) q = (q.more ≡ ps.has_more m) × (ps.has_more m ≡ true → source q ≡ x)
  Answered try_again q = q.active ≡ 0

  fetched-IsValid :
      (q : Fq) (p : P) (m : M)
      → q.active ≢ 0
      → IsValid q
      → let (r, q', _) = fetched ps q p m in IsValid q' × Answered r q'
  fetched-IsValid q p m some_active v = elim (Bool-cases (ps.has_more m)) [
    | inl more ↦
        rw more (record { wf = v.wf; within = v.within; in_turn = v.in_turn }, (refl, λ e. refl))
    | inr last ↦ rw last (
      record { wf = v.wf; within = v.within; in_turn = inl (omega arith) },
      (refl, λ e. absurd (cc)),
    )
  ]

  -- The same for a call on a state with the given `more`: the assertion can fail only in the
  -- middle of a message.
  abbrev pub AnsweredIf : Bool → Option (Received M × Fq × P) → Type 0
  AnsweredIf more none = more ≡ true
  AnsweredIf more (some (r, q, p)) = IsValid q × Answered r q

  if_kept :
      (b : Bool) (o : Option (Received M × Fq × P))
      → AnsweredIf b o
      → AnsweredIf b (if b then none else o)
  if_kept true o a = refl
  if_kept false o a = a

  pub recv_loop_round :
      (n : ℕ) (q : Fq) (p : P)
      → (ps.read p (source q)).0 ≡ none
      → recv_loop ps (suc n) q p
        ≡ (if q.more then none else recv_loop ps n (deactivate q n) (ps.read p (source q)).1)
  unfolding recv_loop
  recv_loop_round n q p nothing = rw (nothing, recv_loop)

  pub recv_loop_got :
      (n : ℕ) (q : Fq) (p : P) (m : M)
      → (ps.read p (source q)).0 ≡ some m
      → recv_loop ps (suc n) q p ≡ some (fetched ps q (ps.read p (source q)).1 m)
  unfolding recv_loop
  recv_loop_got n q p m got = rw (got, recv_loop)

  recv_loop-AnsweredIf :
      (n : ℕ) (q : Fq) (p : P) → q.active ≡ n → IsValid q → AnsweredIf q.more (recv_loop ps n q p)
  unfolding recv_loop
  recv_loop-AnsweredIf zero q p e v = (v, e)
  recv_loop-AnsweredIf (suc n) q p e v = elim (Option-cases (ps.read p (source q)).0) [
    | inl nothing ↦
        let rest =
          recv_loop-AnsweredIf n (deactivate q n) (ps.read p (source q)).1 refl
            (deactivate-IsValid q n e v) in
        subst (AnsweredIf q.more) (sym (recv_loop_round n q p nothing))
          (if_kept q.more (recv_loop ps n (deactivate q n) (ps.read p (source q)).1) rest)
    | inr (m, got) ↦
        subst (AnsweredIf q.more) (sym (recv_loop_got n q p m got))
          (fetched-IsValid q (ps.read p (source q)).1 m (omega arith) v)
  ]

  -- recvpipe fails its assertion only in the middle of a message, and else keeps the invariant. It
  -- answers EAGAIN only once no pipe is active; and after a part with more to come the pipe in turn
  -- is the one that gave it.
  pub recvpipe-AnsweredIf : (q : Fq) (p : P) → IsValid q → AnsweredIf q.more (recvpipe ps q p)
  unfolding recvpipe
  recvpipe-AnsweredIf q p v = recv_loop-AnsweredIf q.active q p refl v

  has_in_loop-IsValid :
      (n : ℕ) (q : Fq) (p : P) → q.active ≡ n → IsValid q → IsValid (has_in_loop ps n q p).1
  unfolding has_in_loop
  has_in_loop-IsValid zero q p e v = v
  has_in_loop-IsValid (suc n) q p e v = elim (Bool-cases (ps.check_read p (source q)).0) [
    | inl ready ↦ rw ready v
    | inr empty ↦ rw empty (
        has_in_loop-IsValid n (deactivate q n) (ps.check_read p (source q)).1 refl
          (deactivate-IsValid q n e v))
  ]

  pub has_in-IsValid : (q : Fq) (p : P) → IsValid q → IsValid (has_in ps q p).1
  unfolding has_in
  has_in-IsValid q p v = elim (Bool-cases q.more) [
    | inl mid ↦ subst (λ r. IsValid r) (ground arith) v
    | inr start ↦ subst (λ r. IsValid r) (ground arith) (has_in_loop-IsValid q.active q p refl v)
  ]
