-- ===== src/Guarantees/Doubles.antt =====
-- The client that the tests use in the place of HCM, beside the mock service.
use mathlib.Core.Option
use wizdaa_takehome.Prelude.{
  ℕ, String, false, Option, none, some, List, [], ◌∷◌, map, ◌≡◌, refl, ap, inl, inr, first, upsert,
  same, Bool-cases, Option-cases,
}
use wizdaa_takehome.Prelude.Int.{ltb_ℤ, pos, ◌+ℤ◌, ◌-ℤ◌}
use wizdaa_takehome.Entities.{FileTimeOffCommand, ReverseTimeOffCommand, HcmBalance}
use wizdaa_takehome.Balances.{HcmReply, snapshot, unavailable}
use wizdaa_takehome.MockHcm.{
  MockResult, BalanceEntry, BalanceSlot, MockStore, Answer, gives, status, store_key, slot_is,
  slot_key_is, HcmScenario, is_mutating, read_entry, provisioned, result_is, entry_of, set_entry,
  accepts, keep_result, file_entry, file_fresh, reverse_entry, is_timeout, is_silent, should_dedup,
  get_entry, declines, deduplicated, mock_get_balance, mock_file_time_off, mock_reverse_time_off,
}
use wizdaa_takehome.FakeHcm.{
  FakeEntry, FakeSlot, FakeStore, CallCounters, fake_slot_is, fake_key_is, fake_entry_of, get_fake,
  set_fake, fake_read, fake_provisioned, keep_fake, fake_deduplicated, fake_file_entry,
  fake_file_fresh, fake_reverse_entry, count_read, count_file, count_reverse, fake_get_balance,
  fake_file_time_off, fake_reverse_time_off,
}

-- What the test client keeps of an entry of the mock's.
abbrev fake_entry : BalanceEntry → FakeEntry
fake_entry e = record { balance = e.balance; as_of = e.as_of }

abbrev fake_slot : BalanceSlot → FakeSlot
fake_slot slot = record { key = slot.key; entry = fake_entry slot.entry }

-- The test client in the state of the mock.
abbrev pub fake_of : CallCounters → MockStore → FakeStore
fake_of c s = record {
  balances = map fake_slot s.balances;
  results = s.results;
  scenario = s.scenario;
  calls_to = c;
}

-- What the test client gives for an answer of the mock.
abbrev result_from : Answer MockResult → MockResult
result_from (gives r) = r
result_from (status code) = declines "unreachable"

abbrev reply_from : String → String → Answer HcmBalance → HcmReply
reply_from employee location (gives h) =
    snapshot (record h { employee_id = employee; location_id = location })
reply_from employee location (status code) = unavailable

first-map :
    (key : String) (xs : List BalanceSlot)
    → fake_entry_of (first (fake_slot_is key) (map fake_slot xs))
      ≡ Option.map fake_entry (entry_of (first (slot_is key) xs))
first-map key [] = refl
first-map key (x ∷ xs) = elim (Bool-cases (same key x.key)) [
  | inl hit ↦ rw hit refl
  | inr miss ↦ rw miss (first-map key xs)
]

set_fake-map :
    (slot : BalanceSlot) (xs : List BalanceSlot)
    → upsert fake_key_is (fake_slot slot) (map fake_slot xs)
      ≡ map fake_slot (upsert slot_key_is slot xs)
set_fake-map slot [] = refl
set_fake-map slot (x ∷ xs) = elim (Bool-cases (same slot.key x.key)) [
  | inl hit ↦ rw hit refl
  | inr miss ↦ rw miss (ap (◌∷◌ (fake_slot x)) (set_fake-map slot xs))
]

module _ (c : CallCounters) where
  -- A call of the client, and a route of the mock, from states that agree.
  abbrev Agrees : MockResult × FakeStore → Answer MockResult × MockStore → Type 0
  Agrees fake mock = fake ≡ (result_from mock.0, fake_of c mock.1)

  keep-Agrees :
      (key : String) (r : MockResult) (s : MockStore)
      → Agrees (keep_fake key r (fake_of c s)) (keep_result key r s)
  keep-Agrees key r s = elim (Bool-cases (should_dedup s.scenario)) [
    | inl on ↦ rw on refl
    | inr off ↦ rw off refl
  ]

  -- The entry of a key set in both.
  set-Agrees :
      (key id : String) (entry : BalanceEntry) (now : ℕ) (s : MockStore)
      → Agrees
          (keep_fake key (accepts now) (set_fake id (fake_entry entry) (fake_of c s)))
          (keep_result key (accepts now) (set_entry id entry s))
  set-Agrees key id entry now s =
      rw (set_fake-map (record { key = id; entry = entry }) s.balances)
        (keep-Agrees key (accepts now) (set_entry id entry s))

  file_entry-Agrees :
      (cmd : FileTimeOffCommand) (now : ℕ) (entry : Option BalanceEntry) (s : MockStore)
      → Agrees
          (fake_file_entry cmd now (Option.map fake_entry entry) (fake_of c s))
          (file_entry cmd.idempotency_key cmd now entry s)
  file_entry-Agrees cmd now none s = keep-Agrees cmd.idempotency_key _ s
  file_entry-Agrees cmd now (some entry) s =
      elim (Bool-cases (ltb_ℤ entry.balance (pos cmd.days))) [
        | inl short ↦ rw short (keep-Agrees cmd.idempotency_key (declines "Insufficient balance") s)
        | inr enough ↦ rw enough (
            set-Agrees cmd.idempotency_key (store_key cmd.employee_id cmd.location_id)
              (record entry { balance = entry.balance -ℤ pos cmd.days; as_of = now }) now s)
      ]

  reverse_entry-Agrees :
      (cmd : ReverseTimeOffCommand) (now : ℕ) (entry : Option BalanceEntry) (s : MockStore)
      → Agrees
          (fake_reverse_entry cmd now (Option.map fake_entry entry) (fake_of c s))
          (reverse_entry cmd.idempotency_key cmd now entry s)
  reverse_entry-Agrees cmd now none s = keep-Agrees cmd.idempotency_key (accepts now) s
  reverse_entry-Agrees cmd now (some entry) s =
      set-Agrees cmd.idempotency_key (store_key cmd.employee_id cmd.location_id)
        (record entry { balance = entry.balance +ℤ pos cmd.days; as_of = now }) now s

  deduplicated-Agrees :
      (key : String) (fake : FakeStore → MockResult × FakeStore)
      (fresh : MockStore → Answer MockResult × MockStore) (s : MockStore)
      → same key "" ≡ false
      → Agrees (fake (fake_of c s)) (fresh s)
      → Agrees (fake_deduplicated key fake (fake_of c s)) (deduplicated key fresh s)
  unfolding deduplicated
  deduplicated-Agrees key fake fresh s given h = elim (Bool-cases (is_timeout s.scenario)) [
    | inl late ↦ rw (given, late) refl
    | inr soon ↦ elim (Bool-cases (should_dedup s.scenario)) [
      | inr off ↦ rw (given, soon, off) h
      | inl on ↦ elim (Option-cases (first (result_is key) s.results)) [
        | inl new ↦ rw (given, soon, on, new) h
        | inr (prior, e) ↦ rw (given, soon, on, e) refl
      ]
    ]
  ]

file_fresh-Agrees :
    (c : CallCounters) (cmd : FileTimeOffCommand) (now : ℕ) (s : MockStore)
    → Agrees c (fake_file_fresh cmd now (fake_of c s)) (file_fresh cmd.idempotency_key cmd now s)
file_fresh-Agrees c cmd now s = elim (Bool-cases (is_silent s.scenario)) [
  | inl silent ↦ rw silent (keep-Agrees c cmd.idempotency_key (accepts now) s)
  | inr open_one ↦
      let id = store_key cmd.employee_id cmd.location_id in
      rw (open_one, first-map id s.balances)
        (file_entry-Agrees c cmd now (entry_of (first (slot_is id) s.balances)) s)
]

reverse_fresh-Agrees :
    (c : CallCounters) (cmd : ReverseTimeOffCommand) (now : ℕ) (s : MockStore)
    → let id = store_key cmd.employee_id cmd.location_id in
      Agrees c
        (fake_reverse_entry cmd now (get_fake id (fake_of c s)) (fake_of c s))
        (reverse_entry cmd.idempotency_key cmd now (get_entry id s) s)
reverse_fresh-Agrees c cmd now s =
    let id = store_key cmd.employee_id cmd.location_id in
    rw (first-map id s.balances)
      (reverse_entry-Agrees c cmd now (entry_of (first (slot_is id) s.balances)) s)

module _ (scenario : HcmScenario) (employee location : String) (now : ℕ) where
  -- The entry that a read leaves.
  read_entry-eq :
      (entry : Option BalanceEntry)
      → fake_read scenario now (fake_provisioned now (Option.map fake_entry entry))
        ≡ fake_entry (read_entry scenario now (provisioned employee location now entry))
  read_entry-eq none = elim (Bool-cases (is_mutating scenario)) [
    | inl on ↦ rw on refl
    | inr off ↦ rw off refl
  ]
  read_entry-eq (some entry) = elim (Bool-cases (is_mutating scenario)) [
    | inl on ↦ rw on refl
    | inr off ↦ rw off refl
  ]

read_agrees :
    (c : CallCounters) (s : MockStore) (now : ℕ) (employee location : String)
    → same employee "" ≡ false
    → same location "" ≡ false
    → fake_get_balance now employee location (fake_of c s) ≡ (
        let m = mock_get_balance now employee location s in
        (reply_from employee location m.0, fake_of (count_read c) m.1))
unfolding fake_get_balance mock_get_balance
read_agrees c s now employee location e l = elim (Bool-cases (is_timeout s.scenario)) [
  | inl late ↦ rw (e, l, late) refl
  | inr soon ↦
      let id = store_key employee location in
      let old = entry_of (first (slot_is id) s.balances) in
      let entry = read_entry s.scenario now (provisioned employee location now old) in
      rw
        (
          e,
          l,
          soon,
          first-map id s.balances,
          read_entry-eq s.scenario employee location now old,
          set_fake-map (record { key = id; entry = entry }) s.balances,
        )
        refl
]

-- The test client gives what the mock answers, and `ok` is false where the mock throws.
abbrev pub SameResult : MockResult → Answer MockResult → Type 0
SameResult r (gives m) = r ≡ m
SameResult r (status code) = r.is_ok ≡ false

-- The test client gives the balance and the time of the mock's answer under the ids that it was asked
-- for, and that HCM is unavailable where the mock throws.
abbrev pub SameBalance : String → String → HcmReply → Answer HcmBalance → Type 0
SameBalance employee location reply (gives h) =
    reply
    ≡ snapshot (record {
      employee_id = employee;
      location_id = location;
      balance = h.balance;
      as_of = h.as_of;
    })
SameBalance employee location reply (status code) = reply ≡ unavailable

same_result : (a : Answer MockResult) → SameResult (result_from a) a
same_result (gives m) = refl
same_result (status code) = refl

same_balance :
    (employee location : String) (a : Answer HcmBalance)
    → SameBalance employee location (reply_from employee location a) a
same_balance employee location (gives h) = refl
same_balance employee location (status code) = refl

-- From states that agree, and with a key, an employee and a location that are not empty texts, the
-- client that the tests use and the routes of the mock agree on a read, a filing and a reversal, in
-- every scenario. Where the mock answers, the test client gives the balance and the time of the answer
-- to a read, and the very answer to a filing and to a reversal; where the mock throws, it gives that
-- HCM is unavailable, or a result whose `ok` is false. The states that are left agree too.
pub fake_mirrors_mock :
    (c : CallCounters) (s : MockStore) (now : ℕ) (employee location : String)
    (cmd : FileTimeOffCommand)
    → same employee "" ≡ false
    → same location "" ≡ false
    → same cmd.idempotency_key "" ≡ false
    → (let fake = fake_get_balance now employee location (fake_of c s) in
        let mock = mock_get_balance now employee location s in
        SameBalance employee location fake.0 mock.0 × (fake.1 ≡ fake_of (count_read c) mock.1))
      × (let fake = fake_file_time_off cmd now (fake_of c s) in
          let mock = mock_file_time_off cmd.idempotency_key cmd now s in
          SameResult fake.0 mock.0 × (fake.1 ≡ fake_of (count_file c) mock.1))
      × (let fake = fake_reverse_time_off cmd now (fake_of c s) in
          let mock = mock_reverse_time_off cmd.idempotency_key cmd now s in
          SameResult fake.0 mock.0 × (fake.1 ≡ fake_of (count_reverse c) mock.1))
unfolding fake_file_time_off mock_file_time_off fake_reverse_time_off mock_reverse_time_off
fake_mirrors_mock c s now employee location cmd e l given =
    let read = read_agrees c s now employee location e l in
    let file =
      deduplicated-Agrees (count_file c) cmd.idempotency_key (fake_file_fresh cmd now)
        (file_fresh cmd.idempotency_key cmd now) s given
        (file_fresh-Agrees (count_file c) cmd now s) in
    let reverse =
      deduplicated-Agrees (count_reverse c) cmd.idempotency_key
        (λ u. fake_reverse_entry cmd now (get_fake (store_key cmd.employee_id cmd.location_id) u) u)
        (λ u.
          reverse_entry cmd.idempotency_key cmd now
            (get_entry (store_key cmd.employee_id cmd.location_id) u) u)
        s given (reverse_fresh-Agrees (count_reverse c) cmd now s) in
    (
      rw read (same_balance employee location (mock_get_balance now employee location s).0, refl),
      rw file (
        same_result (deduplicated cmd.idempotency_key (file_fresh cmd.idempotency_key cmd now) s).0,
        refl,
      ),
      rw reverse (
        same_result
            (deduplicated cmd.idempotency_key
              (λ u.
                reverse_entry cmd.idempotency_key cmd now
                  (get_entry (store_key cmd.employee_id cmd.location_id) u) u)
              s).0,
        refl,
      ),
    )
