-- ===== src/BalanceLock/Fifo.antt =====
-- What the lock of one key promises: a queue, whose first ticket alone is served.
use wizdaa_takehome.Prelude.{
  ℕ, ◌+◌, Bool, true, false, Option, none, some, List, [], ◌∷◌, ◌++◌, map, ◌==◌, ◌&&◌, not,
  if◌then◌else◌,
}
use wizdaa_takehome.BalanceLock.Defs.{
  ExclusiveCall, KeyLock, LockEvent, arrives, enters, resumes, finishes, installs, opens,
  is_waiting,
}

pub record Ticket : Type 0 where
  pub turn : ℕ
  pub is_served : Bool

pub record Fifo : Type 0 where
  pub next : ℕ
  pub tickets : List Ticket

-- Only the first ticket is served, and it is taken away when it was served.
abbrev pub serve_first : ℕ → List Ticket → ℕ → Option Fifo
serve_first t [] n = none
serve_first t (k ∷ ks) n =
    if (k.turn == t) && not k.is_served
    then some (record { next = n; tickets = record k { is_served = true } ∷ ks })
    else none

abbrev pub drop_first : ℕ → List Ticket → ℕ → Option Fifo
drop_first t [] n = none
drop_first t (k ∷ ks) n =
    if (k.turn == t) && k.is_served then some (record { next = n; tickets = ks }) else none

unfoldable pub fifo_step : LockEvent → Fifo → Option Fifo
fifo_step arrives q = some (record {
  next = q.next + 1;
  tickets = q.tickets ++ (record { turn = q.next; is_served = false } ∷ []);
})
fifo_step (enters t) q = serve_first t q.tickets q.next
fifo_step (resumes t) q = some q
fifo_step (finishes t) q = drop_first t q.tickets q.next
fifo_step installs q = some q
fifo_step (opens g) q = some q

-- The queue that a lock stands for forgets the promises, the maps and the latches.
abbrev pub ticket_of : ExclusiveCall → Ticket
ticket_of c = record { turn = c.turn; is_served = not (is_waiting c.phase) }

abbrev pub fifo_of : KeyLock → Fifo
fifo_of s = record { next = s.turns; tickets = map ticket_of s.calls }
