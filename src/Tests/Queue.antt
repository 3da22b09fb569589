-- ===== src/Tests/Queue.antt =====
-- Two calls of the lock of one balance.
use wizdaa_takehome.Prelude.{ℕ, none, some, List, [], ◌∷◌, ◌≡◌, ◌≢◌, refl, ◌⊎◌, inr, All}
use wizdaa_takehome.BalanceLock.{
  waiting, inside, ExclusiveCall, KeyLock, fresh_lock, arrive, enter_at, arrives, enters, finishes,
  lock_step, Locks, put, LocksReached, no_calls, after_event,
}
use wizdaa_takehome.BalanceLock.Fifo.{fifo_step, fifo_of}
use wizdaa_takehome.Guarantees.Queues.{lock_is_fifo, CanGo, first_call_goes_on}
use wizdaa_takehome.Guarantees.Holding.{nothing_yet, then_event, held_lock_blocks}

abbrev first_call : ExclusiveCall
first_call = record { turn = 0; prev = none; phase = inside }

abbrev one_call : Locks
one_call = put "e1::l1" (arrive fresh_lock) (λ key. fresh_lock)

abbrev one_inside : Locks
one_inside =
    put "e1::l1"
      (enter_at none (record { turn = 0; prev = none; phase = waiting }) (one_call "e1::l1"))
      one_call

abbrev two_calls : Locks
two_calls = put "e1::l1" (arrive (one_inside "e1::l1")) one_inside

arrives_at : (s : KeyLock) → lock_step arrives s ≡ some (arrive s)
unfolding lock_step
arrives_at s = refl

enters_at :
    lock_step (enters 0) (one_call "e1::l1")
    ≡ some (enter_at none (record { turn = 0; prev = none; phase = waiting }) (one_call "e1::l1"))
unfolding lock_step arrive
enters_at = refl

one_inside-LocksReached : LocksReached one_inside
one_inside-LocksReached =
    after_event "e1::l1" (enters 0) one_call _
      (after_event "e1::l1" arrives (λ key. fresh_lock) (arrive fresh_lock) no_calls
        (arrives_at fresh_lock))
      enters_at

two_calls-LocksReached : LocksReached two_calls
two_calls-LocksReached =
    after_event "e1::l1" arrives one_inside (arrive (one_inside "e1::l1")) one_inside-LocksReached
      (arrives_at (one_inside "e1::l1"))

first_inside : (one_inside "e1::l1").calls ≡ first_call ∷ []
unfolding arrive
first_inside = refl

lock_is_fifo_example :
    fifo_step arrives (fifo_of (one_inside "e1::l1"))
    ≡ some (fifo_of (arrive (one_inside "e1::l1")))
lock_is_fifo_example =
    lock_is_fifo one_inside "e1::l1" arrives (arrive (one_inside "e1::l1")) one_inside-LocksReached
      (arrives_at (one_inside "e1::l1"))

first_call_goes_on_example :
    (((two_calls "e1::l1").calls ≡ []) × ((two_calls "e1::l1").tail ≡ none))
    ⊎ ((c : ExclusiveCall) × (cs : List ExclusiveCall) × ((two_calls "e1::l1").calls ≡ c ∷ cs)
        × CanGo (two_calls "e1::l1") c)
first_call_goes_on_example = first_call_goes_on two_calls two_calls-LocksReached "e1::l1"

-- A second call comes while the first runs.
arrives_differs : (t : ℕ) → arrives ≢ finishes t
arrives_differs t h = cc

held_lock_blocks_example :
    (ds : List ExclusiveCall) × ((two_calls "e1::l1").calls ≡ first_call ∷ ds)
    × All (λ (d : ExclusiveCall). d.phase ≡ waiting) ds
held_lock_blocks_example =
    held_lock_blocks one_inside two_calls "e1::l1" first_call [] one_inside-LocksReached
      first_inside refl
      (then_event one_inside "e1::l1" arrives (arrive (one_inside "e1::l1"))
        (nothing_yet one_inside refl) (arrives_at (one_inside "e1::l1")) (inr (arrives_differs 0)))
