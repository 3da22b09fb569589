-- ===== src/BalanceLock/Finish.antt =====
-- The end of a call, and every event: the calls of a key stay a queue.
use wizdaa_takehome.Prelude.{
  ℕ, ◌<◌, ◌≤◌, true, false, Option, none, some, List, [], ◌∷◌, ◌≡◌, sym, ap, ◌∙◌, subst, inl, inr,
  ◌==◌, first, arith, if◌then◌else◌,
}
use wizdaa_takehome.BalanceLock.Defs.{
  Phase, latched, inside, ExclusiveCall, KeyLock, tail_is, turn_is, is_waiting, is_inside, is_open,
  set_phase, without, enter_at, resume, finish, try_enter, try_resume, try_finish,
}
use wizdaa_takehome.BalanceLock.Order.{
  Behind, Chained, Pending, IsQueue, found_first, set_phase-Chained, without_first,
}

-- The tail of a chain is no turn before it.
tail_later :
    (t u : ℕ) (cs : List ExclusiveCall) (tail : Option ℕ)
    → Behind t cs tail
    → u < t
    → tail_is tail u ≡ false
tail_later t u [] tail b lt = rw b (ground arith)
tail_later t u (c ∷ cs) tail b lt = tail_later c.turn u cs tail b.3 (omega (arith, b.2))

-- The calls behind a turn do not wait for it to be made again: it is none of theirs.
Behind-Pending :
    (settled : List ℕ) (n t u : ℕ) (cs : List ExclusiveCall) (tail : Option ℕ)
    → Behind t cs tail
    → u ≤ t
    → Pending settled n cs
    → Pending (u ∷ settled) n cs
Behind-Pending settled n t u [] tail b le p = tt
Behind-Pending settled n t u (c ∷ cs) tail b le p =
    let later : u < c.turn = omega (arith, b.2) in
    let other : (c.turn == u) ≡ false = ground arith in
    ((rw other p.0.0, p.0.1), Behind-Pending settled n c.turn u cs tail b.3 (omega arith) p.1)

finished-Chained :
    (settled : List ℕ) (c : ExclusiveCall) (cs : List ExclusiveCall) (tail : Option ℕ)
    → Behind c.turn cs tail
    → Chained (c.turn ∷ settled) cs (if tail_is tail c.turn then none else tail)
finished-Chained settled c [] tail b = rw b (ground arith)
finished-Chained settled c (d ∷ cs) tail b =
    let later : tail_is tail c.turn ≡ false = tail_later d.turn c.turn cs tail b.3 b.2 in
    (rw b.0 (ground arith), rw later b.3)

pub finish-IsQueue :
    (s : KeyLock) (c : ExclusiveCall) (cs : List ExclusiveCall)
    → IsQueue s
    → s.calls ≡ c ∷ cs
    → IsQueue (finish c s)
unfolding finish
finish-IsQueue s c cs q e =
    let ch : Chained s.settled (c ∷ cs) s.tail =
      subst (λ l. Chained s.settled l s.tail) e q.chained in
    let pe : Pending s.settled s.turns (c ∷ cs) =
      subst (λ l. Pending s.settled s.turns l) e q.pending in
    let eq : without c.turn s.calls ≡ cs = ap (without c.turn) e ∙ without_first c cs in
    record {
      chained =
          subst
            (λ l. Chained (c.turn ∷ s.settled) l (if tail_is s.tail c.turn then none else s.tail))
            (sym eq) (finished-Chained s.settled c cs s.tail ch.1);
      pending =
          subst (λ l. Pending (c.turn ∷ s.settled) s.turns l) (sym eq)
            (Behind-Pending s.settled s.turns c.turn c.turn cs s.tail ch.1 (omega arith) pe.1);
      made = (pe.0.1, q.made);
    }

-- The first call goes on.
pub phase-IsQueue :
    (s : KeyLock) (p : Phase) (latch : Option ℕ) (c : ExclusiveCall) (cs : List ExclusiveCall)
    → IsQueue s
    → s.calls ≡ c ∷ cs
    → IsQueue (record s { latch = latch; calls = set_phase c.turn p s.calls })
phase-IsQueue s p latch c cs q e =
    let (chained, pending) = set_phase-Chained s p c cs q e in
    record { chained = chained; pending = pending; made = q.made }

pub enter_at-IsQueue :
    (s : KeyLock) (latch : Option ℕ) (c : ExclusiveCall) (cs : List ExclusiveCall)
    → IsQueue s
    → s.calls ≡ c ∷ cs
    → s.latch ≡ latch
    → IsQueue (enter_at latch c s)
enter_at-IsQueue s none c cs q e l = phase-IsQueue s inside s.latch c cs q e
enter_at-IsQueue s (some g) c cs q e l = phase-IsQueue s (latched g) none c cs q e

-- The call that enters, resumes or finishes is the first.
pub enter-first :
    (s : KeyLock) (t : ℕ) (c : ExclusiveCall) (u : KeyLock)
    → IsQueue s
    → first (turn_is t) s.calls ≡ some c
    → try_enter (some c) s ≡ some u
    → (cs : List ExclusiveCall) × (s.calls ≡ c ∷ cs)
      × (is_waiting c.phase ≡ true)
      × (u ≡ enter_at s.latch c s)
enter-first s t c u q found h = elim (found_first s t c q found) [
  | inl (cs, e) ↦ (cs, e, ground arith, ground arith)
  | inr (blocked, waits) ↦ absurd (ground arith)
]

pub resume-first :
    (s : KeyLock) (t : ℕ) (c : ExclusiveCall) (u : KeyLock)
    → IsQueue s
    → first (turn_is t) s.calls ≡ some c
    → try_resume (some c) s ≡ some u
    → (cs : List ExclusiveCall) × (s.calls ≡ c ∷ cs)
      × (is_open s.opened c.phase ≡ true)
      × (u ≡ resume c s)
resume-first s t c u q found h = elim (found_first s t c q found) [
  | inl (cs, e) ↦ (cs, e, ground arith, ground arith)
  | inr (blocked, waits) ↦ absurd (ground arith)
]

pub finish-first :
    (s : KeyLock) (t : ℕ) (c : ExclusiveCall) (u : KeyLock)
    → IsQueue s
    → first (turn_is t) s.calls ≡ some c
    → try_finish (some c) s ≡ some u
    → (cs : List ExclusiveCall) × (s.calls ≡ c ∷ cs) × (is_inside c.phase ≡ true) × (u ≡ finish c s)
finish-first s t c u q found h = elim (found_first s t c q found) [
  | inl (cs, e) ↦ (cs, e, ground arith, ground arith)
  | inr (blocked, waits) ↦ absurd (ground arith)
]
