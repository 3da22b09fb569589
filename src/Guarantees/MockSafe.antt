-- ===== src/Guarantees/MockSafe.antt =====
-- No route of the mock of HCM sets a balance below zero.
use wizdaa_takehome.Prelude.{
  ℕ, String, Bool, true, false, Option, none, some, [], ◌≡◌, refl, inl, inr, same, first, All,
  All-first, All-upsert, Bool-cases, arith, ◌||◌, if◌then◌else◌,
}
use wizdaa_takehome.Prelude.Int.{ℤ, pos, negsuc, ◌+ℤ◌, ◌-ℤ◌, ◌≤ℤ◌, ltb_ℤ}
use wizdaa_takehome.Entities.{FileTimeOffCommand, BatchCorpus}
use wizdaa_takehome.MockHcm.{
  MockResult, BalanceEntry, BalanceSlot, ResultSlot, MockStore, HcmScenario, store_key, slot_is,
  slot_key_is, result_is, get_entry, entry_of, seeded, set_entry, next_sequence, reset_mock_store,
  seed_balances, Answer, status, max_zero, is_timeout, is_mutating, is_silent, should_dedup,
  provisioned, mock_get_balance, keep_result, accepts, declines, or_prior, deduplicated, file_entry,
  file_fresh, mock_file_time_off, reverse_entry, mock_reverse_time_off, set_found, mock_refresh,
  Overrides, Delivery, take_sequence, build_corpus, emit_batch, read_entry,
}

abbrev pub IsNonnegative : MockStore → Type 0
IsNonnegative s = All (λ (slot : BalanceSlot). pos 0 ≤ℤ slot.entry.balance) s.balances

-- What a route may do: keep the balances, or set one that is not negative.
set_entry-Nonnegative :
    (key : String) (entry : BalanceEntry) (s : MockStore)
    → pos 0 ≤ℤ entry.balance
    → IsNonnegative s
    → IsNonnegative (set_entry key entry s)
set_entry-Nonnegative key entry s h all =
    All-upsert (λ (slot : BalanceSlot). pos 0 ≤ℤ slot.entry.balance) slot_key_is
      (record { key = key; entry = entry }) s.balances h all

found-Nonnegative :
    (key : String) (slot : BalanceSlot) (s : MockStore)
    → IsNonnegative s
    → first (slot_is key) s.balances ≡ some slot
    → pos 0 ≤ℤ slot.entry.balance
found-Nonnegative key slot s all e =
    All-first (λ (x : BalanceSlot). pos 0 ≤ℤ x.entry.balance) (slot_is key) s.balances slot all e

max_zero-Nonnegative : (z : ℤ) → pos 0 ≤ℤ max_zero z
max_zero-Nonnegative (pos n) = omega arith
max_zero-Nonnegative (negsuc n) = omega arith

nonneg_sub : (z : ℤ) (n : ℕ) → ltb_ℤ z (pos n) ≡ false → pos 0 ≤ℤ (z -ℤ pos n)
unfolding ◌-ℤ◌
nonneg_sub z n f = ground arith

nonneg_add : (z : ℤ) (n : ℕ) → pos 0 ≤ℤ z → pos 0 ≤ℤ (z +ℤ pos n)
unfolding ◌+ℤ◌
nonneg_add z n f = ground arith

abbrev pub Safe : {A : Type 0} → Answer A × MockStore → Type 0
Safe out = IsNonnegative out.1

if_Safe :
    {A : Type 0} (c : Bool) (a b : Answer A × MockStore)
    → (c ≡ true → Safe a)
    → (c ≡ false → Safe b)
    → Safe (if c then a else b)
if_Safe true a b ha hb = ha refl
if_Safe false a b ha hb = hb refl

keep_result-Safe :
    (key : String) (r : MockResult) (s : MockStore) → IsNonnegative s → Safe (keep_result key r s)
keep_result-Safe key r s h = elim (Bool-cases (should_dedup s.scenario)) [
  | inl keeps ↦ rw keeps h
  | inr ignores ↦ rw ignores h
]

or_prior-Safe :
    (p : Option ResultSlot) (fresh : MockStore → Answer MockResult × MockStore) (s : MockStore)
    → IsNonnegative s
    → Safe (fresh s)
    → Safe (or_prior p fresh s)
or_prior-Safe none fresh s h k = k
or_prior-Safe (some p) fresh s h k = h

deduplicated-Safe :
    (key : String) (fresh : MockStore → Answer MockResult × MockStore) (s : MockStore)
    → IsNonnegative s
    → Safe (fresh s)
    → Safe (deduplicated key fresh s)
unfolding deduplicated
deduplicated-Safe key fresh s h k =
    if_Safe (same key "") (status 400, s) _ (λ _. h)
      (λ _.
        if_Safe (is_timeout s.scenario) (status 503, s) _ (λ _. h)
          (λ _.
            if_Safe (should_dedup s.scenario) (or_prior (first (result_is key) s.results) fresh s)
              (fresh s) (λ _. or_prior-Safe (first (result_is key) s.results) fresh s h k)
              (λ _. k)))

module _ (key : String) (cmd : FileTimeOffCommand) (now : ℕ) (s : MockStore)
    (h : IsNonnegative s) where
  abbrev place : String
  place = store_key cmd.employee_id cmd.location_id

  file_entry-Safe :
      (found : Option BalanceSlot)
      → first (slot_is place) s.balances ≡ found
      → Safe (file_entry key cmd now (entry_of found) s)
  file_entry-Safe none e = keep_result-Safe key (declines "Employee/location not found") s h
  file_entry-Safe (some slot) e =
      if_Safe (ltb_ℤ slot.entry.balance (pos cmd.days))
        (keep_result key (declines "Insufficient balance") s) _
        (λ _. keep_result-Safe key (declines "Insufficient balance") s h)
        (λ enough. keep_result-Safe key (accepts now) _ (
          set_entry-Nonnegative place
            (record slot.entry { balance = slot.entry.balance -ℤ pos cmd.days; as_of = now }) s
            (nonneg_sub slot.entry.balance cmd.days enough) h))

  reverse_entry-Safe :
      (found : Option BalanceSlot)
      → first (slot_is place) s.balances ≡ found
      → Safe (reverse_entry key cmd now (entry_of found) s)
  reverse_entry-Safe none e = keep_result-Safe key (accepts now) s h
  reverse_entry-Safe (some slot) e = keep_result-Safe key (accepts now) _ (
      set_entry-Nonnegative place
        (record slot.entry { balance = slot.entry.balance +ℤ pos cmd.days; as_of = now }) s
        (nonneg_add slot.entry.balance cmd.days (found-Nonnegative place slot s h e)) h)

  pub file-Safe : Safe (mock_file_time_off key cmd now s)
  unfolding mock_file_time_off
  file-Safe = deduplicated-Safe key (file_fresh key cmd now) s h (
      if_Safe (is_silent s.scenario) (keep_result key (accepts now) s) _
        (λ _. keep_result-Safe key (accepts now) s h)
        (λ _. file_entry-Safe (first (slot_is place) s.balances) refl))

  pub reverse-Safe : Safe (mock_reverse_time_off key cmd now s)
  unfolding mock_reverse_time_off
  reverse-Safe =
      deduplicated-Safe key (λ u. reverse_entry key cmd now (get_entry place u) u) s h
        (reverse_entry-Safe (first (slot_is place) s.balances) refl)

nonneg_test : (z : ℤ) → ltb_ℤ z (pos 0) ≡ false → pos 0 ≤ℤ z
nonneg_test z h = ground arith

read_one :
    (scenario : HcmScenario) (now : ℕ) (entry : BalanceEntry)
    → pos 0 ≤ℤ entry.balance
    → pos 0 ≤ℤ (read_entry scenario now entry).balance
read_one scenario now entry h = elim (Bool-cases (is_mutating scenario)) [
  | inl e ↦ rw e (max_zero-Nonnegative (entry.balance -ℤ pos 1))
  | inr e ↦ rw e h
]

read_entry-Nonnegative :
    (now : ℕ) (employee location : String) (s : MockStore)
    → IsNonnegative s
    → (found : Option BalanceSlot)
    → first (slot_is (store_key employee location)) s.balances ≡ found
    → pos 0
      ≤ℤ (read_entry s.scenario now (provisioned employee location now (entry_of found))).balance
read_entry-Nonnegative now employee location s h none e =
    read_one s.scenario now (provisioned employee location now none) (omega arith)
read_entry-Nonnegative now employee location s h (some slot) e =
    read_one s.scenario now slot.entry (found-Nonnegative (store_key employee location) slot s h e)

pub get-Safe :
    (now : ℕ) (employee location : String) (s : MockStore)
    → IsNonnegative s
    → Safe (mock_get_balance now employee location s)
unfolding mock_get_balance
get-Safe now employee location s h =
    if_Safe (same employee "" || same location "") (status 400, s) _ (λ _. h)
      (λ _.
        if_Safe (is_timeout s.scenario) (status 503, s) _ (λ _. h)
          (λ _.
            set_entry-Nonnegative (store_key employee location) _ s
              (read_entry-Nonnegative now employee location s h
                (first (slot_is (store_key employee location)) s.balances) refl)
              h))

pub set_found-Safe :
    (text : String) (found : Option HcmScenario) (s : MockStore)
    → IsNonnegative s
    → Safe (set_found text found s)
set_found-Safe text none s h = h
set_found-Safe text (some scenario) s h = h

pub refresh-Safe :
    (now : ℕ) (employee location : String) (balance : ℤ) (s : MockStore)
    → IsNonnegative s
    → Safe (mock_refresh now employee location balance s)
unfolding mock_refresh
refresh-Safe now employee location balance s h =
    if_Safe (same employee "" || same location "") (status 400, s) _ (λ _. h)
      (λ _.
        if_Safe (ltb_ℤ balance (pos 0)) (status 400, s) _ (λ _. h)
          (λ enough.
            set_entry-Nonnegative (store_key employee location) _ s (nonneg_test balance enough) h))

-- A batch reads the balances only.
pub batch_balances :
    (now : ℕ) (o : Overrides) (s : MockStore) → (build_corpus now o s).1.balances ≡ s.balances
unfolding build_corpus next_sequence
batch_balances now o s = taken o.sequence
  where
    taken : (n : Option ℕ) → (take_sequence n s).1.balances ≡ s.balances
    taken none = refl
    taken (some n) = refl

pub emit-Safe :
    (post : BatchCorpus → Delivery) (now : ℕ) (target : String) (o : Overrides) (s : MockStore)
    → IsNonnegative s
    → Safe (emit_batch post now target o s)
unfolding emit_batch
emit-Safe post now target o s h =
    if_Safe (same target "") (status 400, s) _ (λ _. h) (λ _. rw (batch_balances now o s) h)

seeded-Nonnegative :
    (now : ℕ) (s : MockStore) (employee location : String) (n : ℕ)
    → IsNonnegative s
    → IsNonnegative (seeded now s employee location n)
seeded-Nonnegative now s employee location n h =
    set_entry-Nonnegative (store_key employee location) _ s (omega arith) h

pub reset-Nonnegative : (now : ℕ) → IsNonnegative (reset_mock_store now)
unfolding reset_mock_store seed_balances
reset-Nonnegative now =
    let s0 : MockStore = record {
      balances = [];
      results = [];
      sequence = 0;
      scenario = HcmScenario.correct;
    } in
    let s1 = seeded now s0 "emp1" "loc1" 10 in
    let s2 = seeded now s1 "emp1" "loc2" 5 in
    let s3 = seeded now s2 "emp2" "loc1" 8 in
    let s4 = seeded now s3 "emp3" "loc1" 15 in
    seeded-Nonnegative now s4 "emp3" "loc2" 3 (
      seeded-Nonnegative now s3 "emp3" "loc1" 15 (
        seeded-Nonnegative now s2 "emp2" "loc1" 8 (
          seeded-Nonnegative now s1 "emp1" "loc2" 5
            (seeded-Nonnegative now s0 "emp1" "loc1" 10 tt))))
