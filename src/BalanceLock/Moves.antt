-- ===== src/BalanceLock/Moves.antt =====
-- What an event does to the queue of a key.
use wizdaa_takehome.Prelude.{
  ℕ, String, true, some, List, ◌∷◌, ◌≡◌, refl, sym, ap, ◌∙◌, subst, inl, inr, ◌==◌, first,
  first-holds, same, Bool-cases, Option-cases, arith,
}
use wizdaa_takehome.BalanceLock.Defs.{
  inside, ExclusiveCall, KeyLock, turn_is, is_waiting, is_inside, is_open, arrive, enter_at, resume,
  finish, install_latch, open_gate, LockEvent, arrives, enters, resumes, finishes, installs, opens,
  try_enter, try_resume, try_finish, lock_step, Locks, put, LocksReached, no_calls, after_event,
}
use wizdaa_takehome.BalanceLock.Order.{IsQueue, arrive-IsQueue}
use wizdaa_takehome.BalanceLock.Finish.{
  finish-IsQueue, phase-IsQueue, enter_at-IsQueue, enter-first, resume-first, finish-first,
}

-- An event is an arrival, or concerns the first call, or leaves the calls alone.
pub data Move (e : LockEvent) (s u : KeyLock) : Type 0 where
  came : e ≡ arrives → u ≡ arrive s → Move e s u
  entered :
      (c : ExclusiveCall) (cs : List ExclusiveCall)
      → e ≡ enters c.turn
      → s.calls ≡ c ∷ cs
      → is_waiting c.phase ≡ true
      → u ≡ enter_at s.latch c s
      → Move e s u
  resumed :
      (c : ExclusiveCall) (cs : List ExclusiveCall)
      → e ≡ resumes c.turn
      → s.calls ≡ c ∷ cs
      → is_open s.opened c.phase ≡ true
      → u ≡ resume c s
      → Move e s u
  finished :
      (c : ExclusiveCall) (cs : List ExclusiveCall)
      → e ≡ finishes c.turn
      → s.calls ≡ c ∷ cs
      → is_inside c.phase ≡ true
      → u ≡ finish c s
      → Move e s u
  installed : e ≡ installs → u ≡ install_latch s → Move e s u
  opened_gate : (g : ℕ) → e ≡ opens g → u ≡ open_gate g s → Move e s u

turn_eq :
    (t : ℕ) (calls : List ExclusiveCall) (c : ExclusiveCall)
    → first (turn_is t) calls ≡ some c
    → t ≡ c.turn
turn_eq t calls c found =
    let holds : (c.turn == t) ≡ true = first-holds (turn_is t) calls c found in ground arith

got : {A : Type 0} → (a b : A) → some a ≡ some b → b ≡ a
got a b h = cc

enter-Move :
    (s u : KeyLock) (t : ℕ)
    → IsQueue s
    → try_enter (first (turn_is t) s.calls) s ≡ some u
    → Move (enters t) s u
enter-Move s u t q h = elim (Option-cases (first (turn_is t) s.calls)) [
  | inl lost ↦ absurd (cc (h, ap (λ o. try_enter o s) lost))
  | inr (c, found) ↦
      let (cs, e, waits, u_eq) =
        enter-first s t c u q found (ap (λ o. try_enter o s) (sym found) ∙ h) in
      entered c cs (ap enters (turn_eq t s.calls c found)) e waits u_eq
]

resume-Move :
    (s u : KeyLock) (t : ℕ)
    → IsQueue s
    → try_resume (first (turn_is t) s.calls) s ≡ some u
    → Move (resumes t) s u
resume-Move s u t q h = elim (Option-cases (first (turn_is t) s.calls)) [
  | inl lost ↦ absurd (cc (h, ap (λ o. try_resume o s) lost))
  | inr (c, found) ↦
      let (cs, e, is_free, u_eq) =
        resume-first s t c u q found (ap (λ o. try_resume o s) (sym found) ∙ h) in
      resumed c cs (ap resumes (turn_eq t s.calls c found)) e is_free u_eq
]

finish-Move :
    (s u : KeyLock) (t : ℕ)
    → IsQueue s
    → try_finish (first (turn_is t) s.calls) s ≡ some u
    → Move (finishes t) s u
finish-Move s u t q h = elim (Option-cases (first (turn_is t) s.calls)) [
  | inl lost ↦ absurd (cc (h, ap (λ o. try_finish o s) lost))
  | inr (c, found) ↦
      let (cs, e, runs, u_eq) =
        finish-first s t c u q found (ap (λ o. try_finish o s) (sym found) ∙ h) in
      finished c cs (ap finishes (turn_eq t s.calls c found)) e runs u_eq
]

pub lock_step-Move :
    (e : LockEvent) (s u : KeyLock) → IsQueue s → lock_step e s ≡ some u → Move e s u
unfolding lock_step
lock_step-Move arrives s u q h = came refl (got (arrive s) u h)
lock_step-Move (enters t) s u q h = enter-Move s u t q h
lock_step-Move (resumes t) s u q h = resume-Move s u t q h
lock_step-Move (finishes t) s u q h = finish-Move s u t q h
lock_step-Move installs s u q h = installed refl (got (install_latch s) u h)
lock_step-Move (opens g) s u q h = opened_gate g refl (got (open_gate g s) u h)

Move-IsQueue : (e : LockEvent) (s u : KeyLock) → IsQueue s → Move e s u → IsQueue u
unfolding resume install_latch
Move-IsQueue e s u q (came k h) = subst IsQueue (sym h) (arrive-IsQueue s q)
Move-IsQueue e s u q (entered c cs k l w h) =
    subst IsQueue (sym h) (enter_at-IsQueue s s.latch c cs q l refl)
Move-IsQueue e s u q (resumed c cs k l w h) =
    subst IsQueue (sym h) (phase-IsQueue s inside s.latch c cs q l)
Move-IsQueue e s u q (finished c cs k l w h) = subst IsQueue (sym h) (finish-IsQueue s c cs q l)
Move-IsQueue e s u q (installed k h) =
    subst IsQueue (sym h) (record { chained = q.chained; pending = q.pending; made = q.made })
Move-IsQueue e s u q (opened_gate g k h) =
    subst IsQueue (sym h) (record { chained = q.chained; pending = q.pending; made = q.made })

pub lock_step-IsQueue :
    (e : LockEvent) (s u : KeyLock) → IsQueue s → lock_step e s ≡ some u → IsQueue u
lock_step-IsQueue e s u q h = Move-IsQueue e s u q (lock_step-Move e s u q h)

put-IsQueue :
    (key k : String) (u : KeyLock) (s : Locks) → IsQueue u → IsQueue (s k) → IsQueue (put key u s k)
put-IsQueue key k u s h g = elim (Bool-cases (same k key)) [ inl e ↦ rw e h | inr e ↦ rw e g ]

pub LocksReached-IsQueue : (s : Locks) → LocksReached s → (key : String) → IsQueue (s key)
LocksReached-IsQueue s no_calls key = record { chained = refl; pending = tt; made = tt }
LocksReached-IsQueue s (after_event key e before u r h) k =
    put-IsQueue key k u before
      (lock_step-IsQueue e (before key) u (LocksReached-IsQueue before r key) h)
      (LocksReached-IsQueue before r k)
