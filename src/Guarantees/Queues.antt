-- ===== src/Guarantees/Queues.antt =====
-- The lock of the balances: first come, first served, one at a time.
use wizdaa_takehome.Prelude.{
  ℕ, ◌+◌, String, true, false, not, Option, none, some, List, [], ◌∷◌, ◌++◌, map, ◌≡◌, refl, sym,
  ap, ◌∙◌, subst, ◌⊎◌, inl, inr, first,
}
use wizdaa_takehome.BalanceLock.{
  Phase, waiting, latched, inside, ExclusiveCall, KeyLock, is_done, turn_is, is_waiting, is_inside,
  is_open, set_phase, without, arrive, enter_at, resume, finish, install_latch, open_gate,
  LockEvent, enters, resumes, finishes, lock_step, Locks, LocksReached,
}
use wizdaa_takehome.BalanceLock.Order.{Chained, IsQueue, set_first, without_first, self_eq}
use wizdaa_takehome.BalanceLock.Moves.{
  Move, came, entered, resumed, finished, installed, opened_gate, lock_step-Move,
  LocksReached-IsQueue,
}
use wizdaa_takehome.BalanceLock.Fifo.{
  Ticket, serve_first, drop_first, fifo_step, ticket_of, fifo_of,
}

map-append :
    (cs : List ExclusiveCall) (c : ExclusiveCall)
    → map ticket_of (cs ++ (c ∷ [])) ≡ map ticket_of cs ++ (ticket_of c ∷ [])
map-append [] c = refl
map-append (d ∷ cs) c = ap (λ l. ticket_of d ∷ l) (map-append cs c)

-- The tickets after the first call has gone on.
tickets_set :
    (p : Phase) (s : KeyLock) (c : ExclusiveCall) (cs : List ExclusiveCall)
    → s.calls ≡ c ∷ cs
    → map ticket_of (set_phase c.turn p s.calls)
      ≡ record { turn = c.turn; is_served = not (is_waiting p) } ∷ map ticket_of cs
tickets_set p s c cs e = ap (map ticket_of) (ap (set_phase c.turn p) e ∙ set_first p c cs)

serve_lem :
    (t n : ℕ) (ks : List Ticket)
    → serve_first t (record { turn = t; is_served = false } ∷ ks) n
      ≡ some (record { next = n; tickets = record { turn = t; is_served = true } ∷ ks })
serve_lem t n ks = rw (self_eq t) refl

drop_lem :
    (t n : ℕ) (ks : List Ticket)
    → drop_first t (record { turn = t; is_served = true } ∷ ks) n
      ≡ some (record { next = n; tickets = ks })
drop_lem t n ks = rw (self_eq t) refl

enter_tickets :
    (latch : Option ℕ) (s : KeyLock) (c : ExclusiveCall) (cs : List ExclusiveCall)
    → s.calls ≡ c ∷ cs
    → (fifo_of (enter_at latch c s) ≡ record {
      next = s.turns;
      tickets = record { turn = c.turn; is_served = true } ∷ map ticket_of cs;
    })
enter_tickets none s c cs e =
    ap (λ l. record { next = s.turns; tickets = l }) (tickets_set inside s c cs e)
enter_tickets (some g) s c cs e =
    ap (λ l. record { next = s.turns; tickets = l }) (tickets_set (latched g) s c cs e)

inside_served : (p : Phase) → is_inside p ≡ true → not (is_waiting p) ≡ true
inside_served waiting h = h
inside_served (latched g) h = refl
inside_served inside h = refl

open_served : (opened : List ℕ) (p : Phase) → is_open opened p ≡ true → not (is_waiting p) ≡ true
open_served opened waiting h = h
open_served opened (latched g) h = refl
open_served opened inside h = refl

Move-fifo :
    (e : LockEvent) (s u : KeyLock) → Move e s u → fifo_step e (fifo_of s) ≡ some (fifo_of u)
unfolding fifo_step arrive resume finish install_latch
Move-fifo e s u (came k h) =
    rw (k, h)
      (ap (λ l. some (record { next = s.turns + 1; tickets = l }))
        (sym (map-append s.calls (record { turn = s.turns; prev = s.tail; phase = waiting }))))
Move-fifo e s u (entered c cs k l w h) =
    rw (k, h, enter_tickets s.latch s c cs l, l, w) (serve_lem c.turn s.turns (map ticket_of cs))
Move-fifo e s u (resumed c cs k l w h) =
    rw (k, h, tickets_set inside s c cs l, l)
      (ap
        (λ b. some (record {
          next = s.turns;
          tickets = record { turn = c.turn; is_served = b } ∷ map ticket_of cs;
        }))
        (open_served s.opened c.phase w))
Move-fifo e s u (finished c cs k l w h) =
    rw (k, h, ap (without c.turn) l ∙ without_first c cs, l, inside_served c.phase w)
      (drop_lem c.turn s.turns (map ticket_of cs))
Move-fifo e s u (installed k h) = rw (k, h) refl
Move-fifo e s u (opened_gate g k h) = rw (k, h) refl

-- In every state that calls of the lock lead to, and at every key: whatever event happens, it is what
-- happens in a queue, where a ticket is put at the end when its call comes, only the first ticket is
-- served, and it alone is taken away, when it was served.
pub lock_is_fifo :
    (s : Locks) (key : String) (e : LockEvent) (u : KeyLock)
    → LocksReached s
    → lock_step e (s key) ≡ some u
    → fifo_step e (fifo_of (s key)) ≡ some (fifo_of u)
lock_is_fifo s key e u r h =
    Move-fifo e (s key) u (lock_step-Move e (s key) u (LocksReached-IsQueue s r key) h)

-- What the first call of a key can do.
abbrev pub CanGo : KeyLock → ExclusiveCall → Type 0
CanGo s c =
    ((c.phase ≡ waiting) × ((u : KeyLock) × (lock_step (enters c.turn) s ≡ some u)))
    ⊎ ((c.phase ≡ inside) × ((u : KeyLock) × (lock_step (finishes c.turn) s ≡ some u)))
    ⊎ ((g : ℕ) × (c.phase ≡ latched g)
        × ((u : KeyLock) × (lock_step (resumes c.turn) (open_gate g s) ≡ some u)))

found_head :
    (c : ExclusiveCall) (cs : List ExclusiveCall) (calls : List ExclusiveCall)
    → calls ≡ c ∷ cs
    → first (turn_is c.turn) calls ≡ some c
found_head c cs calls e = rw (e, self_eq c.turn) refl

first_CanGo :
    (s : KeyLock) (c : ExclusiveCall) (cs : List ExclusiveCall) (p : Phase)
    → IsQueue s
    → s.calls ≡ c ∷ cs
    → c.phase ≡ p
    → CanGo s c
unfolding lock_step
first_CanGo s c cs waiting inv e at =
    let ready : is_done s.settled c.prev ≡ true =
      (subst (λ l. Chained s.settled l s.tail) e inv.chained).0 in
    inl (at, (enter_at s.latch c s, rw (found_head c cs s.calls e, at, ready) refl))
first_CanGo s c cs (latched g) inv e at =
    inr
      (inr (g, at, (resume c (open_gate g s), rw (found_head c cs s.calls e, at, self_eq g) refl)))
first_CanGo s c cs inside inv e at =
    inr (inl (at, (finish c s, rw (found_head c cs s.calls e, at) refl)))

-- In every state that calls of the lock lead to, and at every key: no call is left and the map has no
-- entry for the key, or there is a first call: if it waits, it can enter, if it runs, it can finish, and
-- if it is held by a latch, it can go on once its gate is open.
pub first_call_goes_on :
    (s : Locks)
    → LocksReached s
    → (key : String)
    → (((s key).calls ≡ []) × ((s key).tail ≡ none))
      ⊎ ((c : ExclusiveCall) × (cs : List ExclusiveCall) × ((s key).calls ≡ c ∷ cs)
          × CanGo (s key) c)
first_call_goes_on s r key = go (s key).calls refl
  where
    inv : IsQueue (s key)
    inv = LocksReached-IsQueue s r key

    go :
        (calls : List ExclusiveCall)
        → (s key).calls ≡ calls
        → (((s key).calls ≡ []) × ((s key).tail ≡ none))
          ⊎ ((c : ExclusiveCall) × (cs : List ExclusiveCall) × ((s key).calls ≡ c ∷ cs)
              × CanGo (s key) c)
    go [] e = inl (e, subst (λ l. Chained (s key).settled l (s key).tail) e inv.chained)
    go (c ∷ cs) e = inr (c, cs, e, first_CanGo (s key) c cs c.phase inv e refl)
