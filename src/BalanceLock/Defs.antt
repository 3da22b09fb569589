-- ===== src/BalanceLock/Defs.antt =====
-- The calls of `runExclusive`, which come, enter and finish one event at a time. The maps `chains` and
-- `latches` are read and written at the caller's key only, so the state is one `KeyLock` for each key;
-- a promise `myTurn` of a key, and a gate, is a number in the order in which they are made.
use wizdaa_takehome.Prelude.{
  ℕ, ◌+◌, String, Bool, true, false, Option, none, some, List, [], ◌∷◌, ◌++◌, ◌≡◌, ◌==◌, ◌&&◌, ◌||◌,
  same, first, if◌then◌else◌,
}

-- A call waits for the promise before it, or has met a latch and waits for its gate, or runs `fn`.
pub data Phase : Type 0 where
  waiting : Phase
  latched : ℕ → Phase
  inside : Phase

-- A call that has not finished: its own promise, and the one that it waits for, if there was one.
pub record ExclusiveCall : Type 0 where
  pub turn : ℕ
  pub prev : Option ℕ
  pub phase : Phase

-- `tail` is the entry of `chains` and `latch` that of `latches`. `calls` are those that have not
-- finished, as they came; `settled` and `opened` are the promises that are resolved.
pub record KeyLock : Type 0 where
  pub tail : Option ℕ
  pub latch : Option ℕ
  pub calls : List ExclusiveCall
  pub turns : ℕ
  pub settled : List ℕ
  pub gates : ℕ
  pub opened : List ℕ

abbrev pub fresh_lock : KeyLock
fresh_lock = record {
  tail = none;
  latch = none;
  calls = [];
  turns = 0;
  settled = [];
  gates = 0;
  opened = [];
}

abbrev pub is_in : ℕ → List ℕ → Bool
is_in n [] = false
is_in n (m ∷ ms) = (n == m) || is_in n ms

abbrev pub tail_is : Option ℕ → ℕ → Bool
tail_is none t = false
tail_is (some e) t = e == t

-- `chains.get(key) ?? Promise.resolve()`: with no promise before it a call need not wait.
abbrev pub is_done : List ℕ → Option ℕ → Bool
is_done settled none = true
is_done settled (some t) = is_in t settled

abbrev pub turn_is : ℕ → ExclusiveCall → Bool
turn_is t c = c.turn == t

abbrev pub is_waiting : Phase → Bool
is_waiting waiting = true
is_waiting _ = false

abbrev pub is_inside : Phase → Bool
is_inside inside = true
is_inside _ = false

-- It met a latch whose gate is open.
abbrev pub is_open : List ℕ → Phase → Bool
is_open opened (latched g) = is_in g opened
is_open opened _ = false

abbrev pub set_phase : ℕ → Phase → List ExclusiveCall → List ExclusiveCall
set_phase t p [] = []
set_phase t p (c ∷ cs) = if c.turn == t then record c { phase = p } ∷ cs else c ∷ set_phase t p cs

abbrev pub without : ℕ → List ExclusiveCall → List ExclusiveCall
without t [] = []
without t (c ∷ cs) = if c.turn == t then cs else c ∷ without t cs

-- `runExclusive` up to its first `await`.
unfoldable pub arrive : KeyLock → KeyLock
arrive s = record s {
  tail = some s.turns;
  turns = s.turns + 1;
  calls = s.calls ++ (record { turn = s.turns; prev = s.tail; phase = waiting } ∷ []);
}

-- Past `await prev`: a latch is taken away, and its gate waited for.
abbrev pub enter_at : Option ℕ → ExclusiveCall → KeyLock → KeyLock
enter_at none c s = record s { calls = set_phase c.turn inside s.calls }
enter_at (some g) c s = record s { latch = none; calls = set_phase c.turn (latched g) s.calls }

-- Past `await latch.gate`.
unfoldable pub resume : ExclusiveCall → KeyLock → KeyLock
resume c s = record s { calls = set_phase c.turn inside s.calls }

-- What `finally` does, whether `fn` returned or threw.
unfoldable pub finish : ExclusiveCall → KeyLock → KeyLock
finish c s = record s {
  tail = if tail_is s.tail c.turn then none else s.tail;
  settled = c.turn ∷ s.settled;
  calls = without c.turn s.calls;
}

unfoldable pub install_latch : KeyLock → KeyLock
install_latch s = record s { latch = some s.gates; gates = s.gates + 1 }

abbrev pub open_gate : ℕ → KeyLock → KeyLock
open_gate g s = record s { opened = g ∷ s.opened }

-- What may happen next at one key.
pub data LockEvent : Type 0 where
  arrives : LockEvent
  enters resumes finishes : ℕ → LockEvent
  installs : LockEvent
  opens : ℕ → LockEvent

abbrev pub try_enter : Option ExclusiveCall → KeyLock → Option KeyLock
try_enter none s = none
try_enter (some c) s =
    if is_waiting c.phase && is_done s.settled c.prev then some (enter_at s.latch c s) else none

abbrev pub try_resume : Option ExclusiveCall → KeyLock → Option KeyLock
try_resume none s = none
try_resume (some c) s = if is_open s.opened c.phase then some (resume c s) else none

abbrev pub try_finish : Option ExclusiveCall → KeyLock → Option KeyLock
try_finish none s = none
try_finish (some c) s = if is_inside c.phase then some (finish c s) else none

-- The state after an event, if the event can happen.
unfoldable pub lock_step : LockEvent → KeyLock → Option KeyLock
lock_step arrives s = some (arrive s)
lock_step (enters t) s = try_enter (first (turn_is t) s.calls) s
lock_step (resumes t) s = try_resume (first (turn_is t) s.calls) s
lock_step (finishes t) s = try_finish (first (turn_is t) s.calls) s
lock_step installs s = some (install_latch s)
lock_step (opens g) s = some (open_gate g s)

-- The locks of all keys, and the states that events in any order lead to.
abbrev pub Locks : Type 0
Locks = String → KeyLock

abbrev pub put : String → KeyLock → Locks → Locks
put key u s k = if same k key then u else s k

pub data LocksReached : Locks → Type 0 where
  no_calls : LocksReached (λ key. fresh_lock)
  after_event :
      (key : String) (e : LockEvent) (s : Locks) (u : KeyLock)
      → LocksReached s
      → lock_step e (s key) ≡ some u
      → LocksReached (put key u s)
