-- ===== src/Guarantees/Holding.antt =====
-- A call that runs inside the lock, and what becomes of the others meanwhile.
use wizdaa_takehome.Prelude.{
  ℕ, String, Option, some, List, [], ◌∷◌, ◌++◌, ◌≡◌, ◌≢◌, sym, ap, ◌∙◌, subst, ◌⊎◌, inl, inr, All,
  same, eq_of_same, Bool-cases,
}
use wizdaa_takehome.BalanceLock.{
  waiting, inside, ExclusiveCall, KeyLock, arrive, resume, finish, install_latch, LockEvent,
  finishes, lock_step, Locks, put, LocksReached, after_event,
}
use wizdaa_takehome.BalanceLock.Order.{Behind, Chained, IsQueue}
use wizdaa_takehome.BalanceLock.Moves.{
  Move, came, entered, resumed, finished, installed, opened_gate, lock_step-Move,
  LocksReached-IsQueue,
}

-- Events at any keys, save that the call of a turn does not finish.
pub data Meanwhile (key : String) (t : ℕ) (s : Locks) : Locks → Type 0 where
  nothing_yet : (u : Locks) → u ≡ s → Meanwhile key t s u
  then_event :
      (u : Locks) (k : String) (e : LockEvent) (v : KeyLock)
      → Meanwhile key t s u
      → lock_step e (u k) ≡ some v
      → (k ≢ key) ⊎ (e ≢ finishes t)
      → Meanwhile key t s (put k v u)

Meanwhile-LocksReached :
    (key : String) (t : ℕ) (s u : Locks) → LocksReached s → Meanwhile key t s u → LocksReached u
Meanwhile-LocksReached key t s _ r (nothing_yet u e) = subst LocksReached (sym e) r
Meanwhile-LocksReached key t s _ r (then_event u k e v m h other) =
    after_event k e u v (Meanwhile-LocksReached key t s u r m) h

abbrev pub IsFirst : ExclusiveCall → KeyLock → Type 0
IsFirst c s = (cs : List ExclusiveCall) × (s.calls ≡ c ∷ cs)

head_eq :
    (c d : ExclusiveCall) (cs ds calls : List ExclusiveCall)
    → calls ≡ c ∷ cs
    → calls ≡ d ∷ ds
    → d ≡ c
head_eq c d cs ds calls e f = cc

-- While it does not finish, the call that runs stays the first.
Move-IsFirst :
    (c : ExclusiveCall) (e : LockEvent) (s u : KeyLock)
    → c.phase ≡ inside
    → IsFirst c s
    → e ≢ finishes c.turn
    → Move e s u
    → IsFirst c u
unfolding arrive resume finish install_latch
Move-IsFirst c e s u runs (cs, first_is) other (came k h) = (
  cs ++ (record { turn = s.turns; prev = s.tail; phase = waiting } ∷ []),
  ap (λ (x : KeyLock). x.calls) h
      ∙ ap (λ l. l ++ (record { turn = s.turns; prev = s.tail; phase = waiting } ∷ [])) first_is,
)
Move-IsFirst c e s u runs (cs, first_is) other (entered d ds k l w h) =
    let d_eq : d ≡ c = head_eq c d cs ds s.calls first_is l in
    absurd (cc (runs, w, ap (λ (x : ExclusiveCall). x.phase) d_eq))
Move-IsFirst c e s u runs (cs, first_is) other (resumed d ds k l w h) =
    let d_eq : d ≡ c = head_eq c d cs ds s.calls first_is l in
    absurd (cc (runs, w, ap (λ (x : ExclusiveCall). x.phase) d_eq))
Move-IsFirst c e s u runs (cs, first_is) other (finished d ds k l w h) =
    let d_eq : d ≡ c = head_eq c d cs ds s.calls first_is l in
    absurd (other (k ∙ ap (λ (x : ExclusiveCall). finishes x.turn) d_eq))
Move-IsFirst c e s u runs (cs, first_is) other (installed k h) =
    (cs, ap (λ (x : KeyLock). x.calls) h ∙ first_is)
Move-IsFirst c e s u runs (cs, first_is) other (opened_gate g k h) =
    (cs, ap (λ (x : KeyLock). x.calls) h ∙ first_is)

put-IsFirst :
    (c : ExclusiveCall) (key k : String) (e : LockEvent) (u : Locks) (v : KeyLock)
    → LocksReached u
    → c.phase ≡ inside
    → IsFirst c (u key)
    → lock_step e (u k) ≡ some v
    → (k ≢ key) ⊎ (e ≢ finishes c.turn)
    → IsFirst c (put k v u key)
put-IsFirst c key k e u v r runs h step other = elim (Bool-cases (same key k)) [
  | inr far ↦ rw far h
  | inl here ↦
      let key_eq : key ≡ k = eq_of_same key k here in
      let inv : IsQueue (u k) = LocksReached-IsQueue u r k in
      rw here (
        Move-IsFirst c e (u k) v runs (subst (λ x. IsFirst c (u x)) key_eq h) (left other key_eq)
          (lock_step-Move e (u k) v inv step))
]
  where
    left : (k ≢ key) ⊎ (e ≢ finishes c.turn) → key ≡ k → e ≢ finishes c.turn
    left (inl apart) eq = absurd (apart (sym eq))
    left (inr differs) eq = differs

stays-IsFirst :
    (c : ExclusiveCall) (key : String) (s u : Locks)
    → LocksReached s
    → c.phase ≡ inside
    → IsFirst c (s key)
    → Meanwhile key c.turn s u
    → IsFirst c (u key)
stays-IsFirst c key s _ r runs h (nothing_yet u e) =
    subst (λ (x : Locks). IsFirst c (x key)) (sym e) h
stays-IsFirst c key s _ r runs h (then_event u k e v m step other) =
    put-IsFirst c key k e u v (Meanwhile-LocksReached key c.turn s u r m) runs
      (stays-IsFirst c key s u r runs h m) step other

Behind-waits :
    (t : ℕ) (cs : List ExclusiveCall) (tail : Option ℕ)
    → Behind t cs tail
    → All (λ (d : ExclusiveCall). d.phase ≡ waiting) cs
Behind-waits t [] tail b = tt
Behind-waits t (d ∷ cs) tail b = (b.1, Behind-waits d.turn cs tail b.3)

-- In a state that calls of the lock lead to, the first call of a key runs. Until it finishes, whatever
-- else happens, at this key and at others, it stays the first and runs, and each other call of the key
-- waits for the promise before it: no two run, and a call that the running one makes never enters.
pub held_lock_blocks :
    (s u : Locks) (key : String) (c : ExclusiveCall) (cs : List ExclusiveCall)
    → LocksReached s
    → (s key).calls ≡ c ∷ cs
    → c.phase ≡ inside
    → Meanwhile key c.turn s u
    → (ds : List ExclusiveCall) × ((u key).calls ≡ c ∷ ds)
      × All (λ (d : ExclusiveCall). d.phase ≡ waiting) ds
held_lock_blocks s u key c cs r e runs m =
    let (ds, first_is) = stays-IsFirst c key s u r runs (cs, e) m in
    let inv : IsQueue (u key) =
      LocksReached-IsQueue u (Meanwhile-LocksReached key c.turn s u r m) key in
    let ch : Chained (u key).settled (c ∷ ds) (u key).tail =
      subst (λ l. Chained (u key).settled l (u key).tail) first_is inv.chained in
    (ds, first_is, Behind-waits c.turn ds (u key).tail ch.1)
