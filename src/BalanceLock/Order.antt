-- ===== src/BalanceLock/Order.antt =====
-- The calls of one key form a chain: each waits for the promise of the one before it.
use wizdaa_takehome.Prelude.{
  ℕ, ◌+◌, ◌<◌, true, false, Option, none, some, List, [], ◌∷◌, ◌++◌, ◌≡◌, refl, sym, ap, ◌∙◌, subst,
  ◌⊎◌, inl, inr, ◌==◌, first, All, Bool-cases, arith,
}
use wizdaa_takehome.BalanceLock.Defs.{
  Phase, waiting, ExclusiveCall, KeyLock, is_in, is_done, turn_is, set_phase, without, arrive,
}

-- The calls behind a turn, up to the tail.
abbrev pub Behind : ℕ → List ExclusiveCall → Option ℕ → Type 0
Behind t [] tail = tail ≡ some t
Behind t (c ∷ cs) tail =
    (c.prev ≡ some t) × (c.phase ≡ waiting) × (t < c.turn) × Behind c.turn cs tail

-- The first call need not wait.
abbrev pub Chained : List ℕ → List ExclusiveCall → Option ℕ → Type 0
Chained settled [] tail = tail ≡ none
Chained settled (c ∷ cs) tail = (is_done settled c.prev ≡ true) × Behind c.turn cs tail

-- A promise of a call that has not finished is one that was made, and not resolved.
abbrev pub Pending : List ℕ → ℕ → List ExclusiveCall → Type 0
Pending settled turns calls =
    All (λ (c : ExclusiveCall). (is_in c.turn settled ≡ false) × (c.turn < turns)) calls

pub record IsQueue (s : KeyLock) : Type 0 where
  pub chained : Chained s.settled s.calls s.tail
  pub pending : Pending s.settled s.turns s.calls
  pub made : All (λ t. t < s.turns) s.settled

-- The call of a turn is the first one, or it waits for a promise that is not resolved.
Behind-waits :
    (settled : List ℕ) (turns t x : ℕ) (cs : List ExclusiveCall) (tail : Option ℕ)
    (c : ExclusiveCall)
    → is_in t settled ≡ false
    → Pending settled turns cs
    → Behind t cs tail
    → first (turn_is x) cs ≡ some c
    → (is_done settled c.prev ≡ false) × (c.phase ≡ waiting)
Behind-waits settled turns t x [] tail c u p b e = absurd (cc e)
Behind-waits settled turns t x (d ∷ cs) tail c u p b e = elim (Bool-cases (d.turn == x)) [
  | inl here ↦
      let d_eq : d ≡ c = ground arith in
      subst (λ y. (is_done settled y.prev ≡ false) × (y.phase ≡ waiting)) d_eq (rw b.0 u, b.1)
  | inr other ↦ Behind-waits settled turns d.turn x cs tail c p.0.0 p.1 b.3 (ground arith)
]

pub self_eq : (n : ℕ) → (n == n) ≡ true
self_eq n = ground arith

-- A call that is found is the first one, or waits.
pub found_first :
    (s : KeyLock) (x : ℕ) (c : ExclusiveCall)
    → IsQueue s
    → first (turn_is x) s.calls ≡ some c
    → ((cs : List ExclusiveCall) × (s.calls ≡ c ∷ cs))
      ⊎ ((is_done s.settled c.prev ≡ false) × (c.phase ≡ waiting))
found_first s x c q e = go s.calls q.chained q.pending e
  where
    go :
        (calls : List ExclusiveCall)
        → Chained s.settled calls s.tail
        → Pending s.settled s.turns calls
        → first (turn_is x) calls ≡ some c
        → ((cs : List ExclusiveCall) × (calls ≡ c ∷ cs))
          ⊎ ((is_done s.settled c.prev ≡ false) × (c.phase ≡ waiting))
    go [] ch p e = absurd (cc e)
    go (d ∷ cs) ch p e = elim (Bool-cases (d.turn == x)) [
      | inl here ↦ let d_eq : d ≡ c = ground arith in inl (cs, ap (λ y. y ∷ cs) d_eq)
      | inr other ↦
          inr (Behind-waits s.settled s.turns d.turn x cs s.tail c p.0.0 p.1 ch.1 (ground arith))
    ]

-- The turn of the first call is its own.
pub set_first :
    (p : Phase) (c : ExclusiveCall) (cs : List ExclusiveCall)
    → set_phase c.turn p (c ∷ cs) ≡ record c { phase = p } ∷ cs
set_first p c cs = rw (self_eq c.turn) refl

pub without_first : (c : ExclusiveCall) (cs : List ExclusiveCall) → without c.turn (c ∷ cs) ≡ cs
without_first c cs = rw (self_eq c.turn) refl

-- A change of the first call's phase keeps the chain.
pub set_phase-Chained :
    (s : KeyLock) (p : Phase) (c : ExclusiveCall) (cs : List ExclusiveCall)
    → IsQueue s
    → s.calls ≡ c ∷ cs
    → Chained s.settled (set_phase c.turn p s.calls) s.tail
      × Pending s.settled s.turns (set_phase c.turn p s.calls)
set_phase-Chained s p c cs q e =
    let ch : Chained s.settled (c ∷ cs) s.tail =
      subst (λ l. Chained s.settled l s.tail) e q.chained in
    let pe : Pending s.settled s.turns (c ∷ cs) =
      subst (λ l. Pending s.settled s.turns l) e q.pending in
    let eq : set_phase c.turn p s.calls ≡ record c { phase = p } ∷ cs =
      ap (set_phase c.turn p) e ∙ set_first p c cs in
    (
      subst (λ l. Chained s.settled l s.tail) (sym eq) ch,
      subst (λ l. Pending s.settled s.turns l) (sym eq) pe,
    )

-- One more call at the end of the chain waits for the one that was last.
append-Behind :
    (t n : ℕ) (cs : List ExclusiveCall) (tail : Option ℕ) (c : ExclusiveCall)
    → Behind t cs tail
    → t < n
    → All (λ (d : ExclusiveCall). d.turn < n) cs
    → c.turn ≡ n
    → c.prev ≡ tail
    → c.phase ≡ waiting
    → Behind t (cs ++ (c ∷ [])) (some n)
append-Behind t n [] tail c b below all own prev wait =
    (prev ∙ b, wait, omega (arith, below, own), ap some (sym own))
append-Behind t n (d ∷ cs) tail c b below all own prev wait =
    (b.0, b.1, b.2, append-Behind d.turn n cs tail c b.3 all.0 all.1 own prev wait)

turns_below :
    (settled : List ℕ) (n : ℕ) (cs : List ExclusiveCall)
    → Pending settled n cs
    → All (λ (d : ExclusiveCall). d.turn < n) cs
turns_below settled n [] p = tt
turns_below settled n (c ∷ cs) p = (p.0.1, turns_below settled n cs p.1)

append-Chained :
    (settled : List ℕ) (n : ℕ) (cs : List ExclusiveCall) (tail : Option ℕ) (c : ExclusiveCall)
    → Chained settled cs tail
    → Pending settled n cs
    → c.turn ≡ n
    → c.prev ≡ tail
    → c.phase ≡ waiting
    → Chained settled (cs ++ (c ∷ [])) (some n)
append-Chained settled n [] tail c ch p own prev wait = (rw (prev ∙ ch) refl, ap some (sym own))
append-Chained settled n (d ∷ cs) tail c ch p own prev wait =
    (ch.0, append-Behind d.turn n cs tail c ch.1 p.0.1 (turns_below settled n cs p.1) own prev wait)

not_made : (n : ℕ) (settled : List ℕ) → All (λ t. t < n) settled → is_in n settled ≡ false
not_made n [] a = refl
not_made n (t ∷ ts) a = ground (arith, not_made n ts a.1)

append-Pending :
    (settled : List ℕ) (n : ℕ) (cs : List ExclusiveCall) (c : ExclusiveCall)
    → Pending settled n cs
    → is_in n settled ≡ false
    → c.turn ≡ n
    → Pending settled (n + 1) (cs ++ (c ∷ []))
append-Pending settled n [] c p fresh own = ((rw own fresh, omega (arith, own)), tt)
append-Pending settled n (d ∷ cs) c p fresh own =
    ((p.0.0, omega (arith, p.0.1)), append-Pending settled n cs c p.1 fresh own)

made_more : (n : ℕ) (settled : List ℕ) → All (λ t. t < n) settled → All (λ t. t < n + 1) settled
made_more n [] a = tt
made_more n (t ∷ ts) a = (omega (arith, a.0), made_more n ts a.1)

pub arrive-IsQueue : (s : KeyLock) → IsQueue s → IsQueue (arrive s)
unfolding arrive
arrive-IsQueue s q =
    let c : ExclusiveCall = record { turn = s.turns; prev = s.tail; phase = waiting } in
    record {
      chained =
          append-Chained s.settled s.turns s.calls s.tail c q.chained q.pending refl refl refl;
      pending =
          append-Pending s.settled s.turns s.calls c q.pending (not_made s.turns s.settled q.made)
            refl;
      made = made_more s.turns s.settled q.made;
    }
