-- ===== src/Guarantees/Keys.antt =====
-- The idempotency keys of the mock of HCM.
use wizdaa_takehome.Prelude.{
  ℕ, String, Bool, true, false, Option, none, some, ◌≡◌, refl, ◌∙◌, ◌⊎◌, inl, inr, same, same_refl,
  first, first-upsert_self, Option-cases, if◌then◌else◌,
}
use wizdaa_takehome.Prelude.Int.{pos, ◌-ℤ◌, ltb_ℤ}
use wizdaa_takehome.Entities.{FileTimeOffCommand, ReverseTimeOffCommand}
use wizdaa_takehome.MockHcm.{
  MockResult, kept_text, BalanceEntry, ResultSlot, MockStore, result_is, result_key_is, get_entry,
  store_key, Answer, gives, is_timeout, is_silent, should_dedup, keep_result, accepts, declines,
  set_entry, prior_result, deduplicated, file_entry, file_fresh, reverse_entry, mock_file_time_off,
  mock_reverse_time_off,
}

-- The scenario keeps to the keys, and answers.
abbrev pub Answers : MockStore → Type 0
Answers s = (is_timeout s.scenario ≡ false) × (should_dedup s.scenario ≡ true)

-- A result is kept under a key.
pub record IsSettled (key : String) (r : MockResult) (s : MockStore) : Type 0 where
  pub slot : ResultSlot
  pub found : first (result_is key) s.results ≡ some slot
  pub ok_is : slot.is_ok ≡ r.is_ok
  pub time_is : (r.is_ok ≡ false) ⊎ (some slot.acked_at ≡ r.acked_at)
  pub answers : Answers s

-- A route that keeps a result, after changes to the balances only.
pub record Keeps (key : String) (fresh : MockStore → Answer MockResult × MockStore) (s : MockStore)
    : Type 0 where
  pub result : MockResult
  pub before : MockStore
  pub runs : fresh s ≡ keep_result key result before
  pub scenario_is : before.scenario ≡ s.scenario
  pub timed : (result.is_ok ≡ false) ⊎ (some (kept_text result.acked_at) ≡ result.acked_at)

if_Keeps :
    (key : String) (c : Bool) (a b : MockStore → Answer MockResult × MockStore) (s : MockStore)
    → Keeps key a s
    → Keeps key b s
    → Keeps key (λ u. if c then a u else b u) s
if_Keeps key true a b s ka kb = ka
if_Keeps key false a b s ka kb = kb

kept_at :
    (key : String) (r : MockResult) (s before : MockStore)
    → before.scenario ≡ s.scenario
    → (r.is_ok ≡ false) ⊎ (some (kept_text r.acked_at) ≡ r.acked_at)
    → Keeps key (λ u. keep_result key r before) s
kept_at key r s before e timed = record {
  result = r;
  before = before;
  runs = refl;
  scenario_is = e;
  timed = timed;
}

file_entry-Keeps :
    (key : String) (cmd : FileTimeOffCommand) (now : ℕ) (found : Option BalanceEntry)
    (s : MockStore)
    → Keeps key (λ u. file_entry key cmd now found s) s
file_entry-Keeps key cmd now none s =
    kept_at key (declines "Employee/location not found") s s refl (inl refl)
file_entry-Keeps key cmd now (some entry) s =
    if_Keeps key (ltb_ℤ entry.balance (pos cmd.days))
      (λ u. keep_result key (declines "Insufficient balance") s)
      (λ u. keep_result key (accepts now) (
        set_entry (store_key cmd.employee_id cmd.location_id)
          (record entry { balance = entry.balance -ℤ pos cmd.days; as_of = now }) s))
      s (kept_at key (declines "Insufficient balance") s s refl (inl refl))
      (kept_at key (accepts now) s _ refl (inr refl))

pub file_fresh-Keeps :
    (key : String) (cmd : FileTimeOffCommand) (now : ℕ) (s : MockStore)
    → Keeps key (λ u. file_fresh key cmd now s) s
file_fresh-Keeps key cmd now s =
    if_Keeps key (is_silent s.scenario) (λ u. keep_result key (accepts now) s)
      (λ u. file_entry key cmd now (get_entry (store_key cmd.employee_id cmd.location_id) s) s) s
      (kept_at key (accepts now) s s refl (inr refl))
      (file_entry-Keeps key cmd now (get_entry (store_key cmd.employee_id cmd.location_id) s) s)

abbrev reverse_fresh :
    String → ReverseTimeOffCommand → ℕ → MockStore → Answer MockResult × MockStore
reverse_fresh key cmd now s =
    reverse_entry key cmd now (get_entry (store_key cmd.employee_id cmd.location_id) s) s

reverse_entry-Keeps :
    (key : String) (cmd : ReverseTimeOffCommand) (now : ℕ) (found : Option BalanceEntry)
    (s : MockStore)
    → Keeps key (λ u. reverse_entry key cmd now found s) s
reverse_entry-Keeps key cmd now none s = kept_at key (accepts now) s s refl (inr refl)
reverse_entry-Keeps key cmd now (some entry) s = kept_at key (accepts now) s _ refl (inr refl)

module _ (key : String) (s : MockStore) (named : same key "" ≡ false) (answers : Answers s) where
  after-IsSettled :
      (r : MockResult) (u : MockStore)
      → u.scenario ≡ s.scenario
      → (r.is_ok ≡ false) ⊎ (some (kept_text r.acked_at) ≡ r.acked_at)
      → IsSettled key r (keep_result key r u).1
  after-IsSettled r u e timed =
      let keeps : should_dedup u.scenario ≡ true = rw e answers.1 in
      let slot : ResultSlot = record {
        key = key;
        is_ok = r.is_ok;
        acked_at = kept_text r.acked_at;
      } in
      rw keeps (record {
        slot = slot;
        found = first-upsert_self result_key_is slot u.results (same_refl key);
        ok_is = refl;
        time_is = timed;
        answers = (rw e answers.0, keeps);
      })

  -- Whatever the route does with a new key, the key is settled after it.
  pub call-IsSettled :
      (fresh : MockStore → Answer MockResult × MockStore)
      → Keeps key (λ u. fresh s) s
      → (r : MockResult) × ((deduplicated key fresh s).0 ≡ gives r)
        × IsSettled key r (deduplicated key fresh s).1
  unfolding deduplicated
  call-IsSettled fresh k = elim (Option-cases (first (result_is key) s.results)) [
    | inr (p, e) ↦ (
      prior_result p,
      rw (named, answers.0, answers.1, e) refl,
      rw (named, answers.0, answers.1, e)
          (record { slot = p; found = e; ok_is = refl; time_is = inr refl; answers = answers }),
    )
    | inl e ↦ (
      k.result,
      rw (named, answers.0, answers.1, e, k.runs) refl,
      rw (named, answers.0, answers.1, e, k.runs)
          (after-IsSettled k.result k.before k.scenario_is k.timed),
    )
  ]

  -- A settled key gives its result, and changes nothing.
  pub settled-replay :
      (fresh : MockStore → Answer MockResult × MockStore) (slot : ResultSlot)
      → first (result_is key) s.results ≡ some slot
      → deduplicated key fresh s ≡ (gives (prior_result slot), s)
  unfolding deduplicated
  settled-replay fresh slot found = rw (named, answers.0, answers.1, found) refl

-- The second store has under a key what a call has left there.
abbrev pub HasKept :
    String → (MockStore → Answer MockResult × MockStore) → MockStore → MockStore → Type 0
HasKept key one s u = first (result_is key) u.results ≡ first (result_is key) (one s).1.results

-- A call on one store, and another of the same key on a later one: the second changes nothing, and
-- says what the first said.
abbrev pub SaysAgain :
    (MockStore → Answer MockResult × MockStore)
    → (MockStore → Answer MockResult × MockStore)
    → MockStore
    → MockStore
    → Type 0
SaysAgain one again s u =
    (r : MockResult) × (r' : MockResult) × ((one s).0 ≡ gives r)
    × (again u ≡ (gives r', u))
    × (r'.is_ok ≡ r.is_ok)
    × ((r.is_ok ≡ false) ⊎ (r'.acked_at ≡ r.acked_at))

says_again :
    (key : String) (s u : MockStore)
    → same key "" ≡ false
    → Answers s
    → Answers u
    → (fresh fresh' : MockStore → Answer MockResult × MockStore) → Keeps key (λ u. fresh s) s
    → HasKept key (deduplicated key fresh) s u
    → SaysAgain (deduplicated key fresh) (deduplicated key fresh') s u
says_again key s u named answers live fresh fresh' k kept =
    let (r, gave, settled) = call-IsSettled key s named answers fresh k in
    (
      r,
      prior_result settled.slot,
      gave,
      settled-replay key u named live fresh' settled.slot (kept ∙ settled.found),
      settled.ok_is,
      settled.time_is,
    )

-- With a key, in a scenario that answers and keeps to the keys: a filing, and a reversal, is given an
-- answer. A later call of the same route and key, with whatever command and at whatever time, on a
-- store that has under the key what the first call left there, in a scenario of that kind too, changes
-- nothing and has the same `ok`, and the same time of acknowledgement if `ok` is true.
pub repeat_changes_nothing :
    (key : String) (cmd cmd' : FileTimeOffCommand) (now now' : ℕ) (s u v : MockStore)
    → same key "" ≡ false
    → Answers s
    → Answers u
    → Answers v
    → HasKept key (mock_file_time_off key cmd now) s u
    → HasKept key (mock_reverse_time_off key cmd now) s v
    → SaysAgain (mock_file_time_off key cmd now) (mock_file_time_off key cmd' now') s u
      × SaysAgain (mock_reverse_time_off key cmd now) (mock_reverse_time_off key cmd' now') s v
unfolding mock_file_time_off mock_reverse_time_off
repeat_changes_nothing key cmd cmd' now now' s u v named answers live live' kept kept' = (
  says_again key s u named answers live (file_fresh key cmd now) (file_fresh key cmd' now')
      (file_fresh-Keeps key cmd now s) kept,
  says_again key s v named answers live' (reverse_fresh key cmd now) (reverse_fresh key cmd' now')
      (reverse_entry-Keeps key cmd now (get_entry (store_key cmd.employee_id cmd.location_id) s) s)
      kept',
)

-- The next filing under a key.
pub next_filing :
    (key : String) (cmd : FileTimeOffCommand) (now now' : ℕ) (s : MockStore)
    → same key "" ≡ false
    → Answers s
    → SaysAgain
        (mock_file_time_off key cmd now)
        (mock_file_time_off key cmd now')
        s
        (mock_file_time_off key cmd now s).1
unfolding mock_file_time_off
next_filing key cmd now now' s named answers =
    let k = file_fresh-Keeps key cmd now s in
    let (r, gave, settled) = call-IsSettled key s named answers (file_fresh key cmd now) k in
    says_again key s (deduplicated key (file_fresh key cmd now) s).1 named answers settled.answers
      (file_fresh key cmd now) (file_fresh key cmd now') k refl
