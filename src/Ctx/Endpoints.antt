-- ===== src/Ctx/Endpoints.antt =====
-- ctx.cpp: the inproc endpoints of a context, in a list in no order. `O` is the type of a socket's
-- options.
use cctas.Base.{
  ℕ, ◌≡◌, ◌≢◌, refl, ap, ◌∙◌, ◌==◌, Bool, true, false, ◌&&◌, if◌then◌else◌, Bool-cases, inl, inr,
  Option, none, some, List, [], ◌∷◌, arith,
}

pub record Endpoint (O : Type 0) : Type 0 where
  pub socket : ℕ
  pub options : O

-- equality of two addresses
abbrev pub is_same_name : List ℕ → List ℕ → Bool
is_same_name [] [] = true
is_same_name [] (y ∷ ys) = false
is_same_name (x ∷ xs) [] = false
is_same_name (x ∷ xs) (y ∷ ys) = (x == y) && is_same_name xs ys

same_refl : (k : List ℕ) → is_same_name k k ≡ true
same_refl [] = refl
same_refl (x ∷ k) = let rest = same_refl k in ground (arith, rest)

module _ {O : Type 0} where
  -- find_endpoint; none for ECONNREFUSED. Where it finds one it also calls inc_seqnum of the socket.
  unfoldable pub find_endpoint : List ℕ → List (List ℕ × Endpoint O) → Option (Endpoint O)
  find_endpoint addr [] = none
  find_endpoint addr ((k, e) ∷ es) = if is_same_name addr k then some e else find_endpoint addr es

  -- register_endpoint; none for EADDRINUSE
  abbrev pub register_unless :
      Option (Endpoint O)
      → List ℕ
      → Endpoint O
      → List (List ℕ × Endpoint O)
      → Option (List (List ℕ × Endpoint O))
  register_unless (some used) addr e es = none
  register_unless none addr e es = some ((addr, e) ∷ es)

  unfoldable pub register_endpoint :
      List ℕ → Endpoint O → List (List ℕ × Endpoint O) → Option (List (List ℕ × Endpoint O))
  register_endpoint addr e es = register_unless (find_endpoint addr es) addr e es

  unfoldable pub unregister_endpoints : ℕ → List (List ℕ × Endpoint O) → List (List ℕ × Endpoint O)
  unregister_endpoints x [] = []
  unregister_endpoints x ((k, e) ∷ es) =
      let rest = unregister_endpoints x es in if e.socket == x then rest else (k, e) ∷ rest

  register_unless-find :
      (o : Option (Endpoint O)) (addr : List ℕ) (e : Endpoint O)
      (es es' : List (List ℕ × Endpoint O))
      → register_unless o addr e es ≡ some es'
      → (o ≡ none) × (es' ≡ (addr, e) ∷ es)
  register_unless-find none addr e es es' h = (refl, cc)
  register_unless-find (some used) addr e es es' h = absurd (cc)

  -- An address that was registered is found from then on, one in use is not registered again, and
  -- no other address is affected.
  pub find_endpoint-register_endpoint :
      (addr other : List ℕ) (e : Endpoint O) (es es' : List (List ℕ × Endpoint O))
      → register_endpoint addr e es ≡ some es'
      → (find_endpoint addr es ≡ none)
        × (find_endpoint addr es' ≡ some e)
        × (is_same_name other addr ≡ false → find_endpoint other es' ≡ find_endpoint other es)
  unfolding register_endpoint find_endpoint
  find_endpoint-register_endpoint addr other e es es' h =
      let (free, now) = register_unless-find (find_endpoint addr es) addr e es es' h in
      (
        free,
        ap (find_endpoint addr) now ∙ rw (same_refl addr) refl,
        λ apart. ap (find_endpoint other) now ∙ rw apart refl,
      )

  -- Once a socket is unregistered no address leads to it.
  pub find_endpoint-unregister_endpoints :
      (x : ℕ) (addr : List ℕ) (es : List (List ℕ × Endpoint O)) (e : Endpoint O)
      → find_endpoint addr (unregister_endpoints x es) ≡ some e
      → e.socket ≢ x
  unfolding find_endpoint unregister_endpoints
  find_endpoint-unregister_endpoints x addr [] e h = absurd (cc)
  find_endpoint-unregister_endpoints x addr ((k, e') ∷ es) e h =
      elim (Bool-cases (e'.socket == x)) [
        | inl gone ↦ find_endpoint-unregister_endpoints x addr es e (rw gone at h)
        | inr kept ↦ elim (Bool-cases (is_same_name addr k)) [
          | inl here ↦
              let found : some e' ≡ some e = rw (kept, here) at h in
              let same : e' ≡ e = cc in
              λ mine.
                let his : e'.socket ≡ x = ap (λ (o : Endpoint O). o.socket) same ∙ mine in
                ground (arith, kept, his)
          | inr later ↦ find_endpoint-unregister_endpoints x addr es e (rw (kept, later) at h)
        ]
      ]
