-- ===== src/Balances/Defs.antt =====
-- The methods of `BalanceService`. HCM's answer, if it is asked, is an argument.
use mathlib.Core.Option
use wizdaa_takehome.Prelude.{
  ℕ, zero, suc, ◌+◌, ◌-◌, String, Bool, true, false, Option, none, some, ◌∷◌, join, if◌then◌else◌,
}
use wizdaa_takehome.Prelude.Int.{ℤ, pos, ◌+ℤ◌, ◌-ℤ◌, ltb_ℤ}
use wizdaa_takehome.Entities.{Balance, HcmBalance, balance_at}
use wizdaa_takehome.Config.{AppConfig}
use wizdaa_takehome.Database.{
  Tables, Engine, Action, ok, err, deadlock, conflict, version_mismatch, row_vanished, other_error,
  pure, throw, gets, throw_if, on_option, on_saved, ◌>>=◌, ◌>>◌, holds,
}

-- `balanceKey`.
abbrev pub balance_key : String → String → String
balance_key employee location = join employee (join "::" location)

-- `runExclusive`, as the caller meets it: who asks for a lock that it holds itself waits for ever.
abbrev pub run_exclusive : {A : Type 0} → String → Action A → Action A
run_exclusive key body held t = if holds key held then (deadlock, t) else body (key ∷ held) t

-- What `HcmClient.getBalance` comes to.
pub data HcmReply : Type 0 where
  snapshot : HcmBalance → HcmReply
  unavailable : HcmReply
  broken : HcmReply

-- `BalanceWithDegraded`.
pub record BalanceView : Type 0 where
  pub balance : Balance
  pub degraded : Bool

abbrev pub view_of : Balance → BalanceView
view_of b = record { balance = b; degraded = false }

-- A row that is there. (`none` is the `null` of a row that is not found again after hydration.)
abbrev pub seen : Balance → Option BalanceView
seen b = some (view_of b)

abbrev pub zero_balance : String → String → Balance
zero_balance employee location = record {
  employee_id = employee;
  location_id = location;
  available = pos 0;
  reserved = 0;
  needs_review = false;
  last_hcm_as_of = none;
}

abbrev pub or_zero : String → String → Option Balance → Balance
or_zero employee location none = zero_balance employee location
or_zero employee location (some b) = b

-- The row, if it has been synchronised.
abbrev pub warm_row : Option Balance → Option Balance
warm_row none = none
warm_row (some b) = elim b.last_hcm_as_of [ none ↦ none | some _ ↦ some b ]

abbrev pub max_optimistic_retries : ℕ
max_optimistic_retries = 5

-- `available - reserved`.
abbrev pub free_days : Balance → ℤ
free_days b = b.available -ℤ pos b.reserved

-- The callbacks that `saveWithRetry` gets.
abbrev pub add_reserved : ℕ → Balance → Balance
add_reserved days b = record b { reserved = b.reserved + days }

abbrev pub drop_reserved : ℕ → Balance → Balance
drop_reserved days b = record b { reserved = b.reserved - days }

abbrev pub take_days : ℕ → Balance → Balance
take_days days b = record b { available = b.available -ℤ pos days; reserved = b.reserved - days }

abbrev pub give_days : ℕ → Balance → Balance
give_days days b = record b { available = b.available +ℤ pos days }

abbrev pub set_snapshot : HcmBalance → Balance → Balance
set_snapshot h b = record b { available = h.balance; last_hcm_as_of = some h.as_of }

abbrev pub clear_review : Balance → Balance
clear_review b = record b { needs_review = false }

abbrev pub set_reconciled : ℤ → ℕ → ℕ → Balance → Balance
set_reconciled value fresh as_of b = record b {
  available = value;
  reserved = fresh;
  last_hcm_as_of = some as_of;
  needs_review = if ltb_ℤ value (pos 0) then true else b.needs_review;
}

-- The guard on the days that are free.
abbrev pub check_view : ℕ → Option BalanceView → Action (Unit {0})
check_view days none = throw other_error
check_view days (some v) = throw_if (ltb_ℤ (free_days v.balance) (pos days)) conflict

module _ (e : Engine) where
  abbrev pub find_balance : String → String → Tables → Option Balance
  find_balance employee location t = e.find_one Balance (balance_at employee location) t.balances

  abbrev pub find_or_create : String → String → Action Balance
  find_or_create employee location =
      gets λ t. or_zero employee location (find_balance employee location t)

  -- The rounds of `saveWithRetry`, on the retries that are left.
  unfoldable pub save_attempts :
      String → String → (Balance → Balance) → ℕ → Balance → Action (Unit {0})
  save_attempts employee location mutate zero current held t =
      on_saved (e.save_balance current t.balances) (λ rows. (ok tt, record t { balances = rows }))
        (λ rows. (err version_mismatch, record t { balances = rows })) (err other_error, t)
  save_attempts employee location mutate (suc left) current held t =
      on_saved (e.save_balance current t.balances) (λ rows. (ok tt, record t { balances = rows }))
        (λ rows.
          on_option (e.find_one Balance (balance_at employee location) rows) (throw row_vanished)
            (λ reloaded. save_attempts employee location mutate left (mutate reloaded)) held
            (record t { balances = rows }))
        (err other_error, t)

  unfoldable pub save_with_retry : Balance → (Balance → Balance) → Action (Unit {0})
  save_with_retry b mutate =
      save_attempts b.employee_id b.location_id mutate max_optimistic_retries (mutate b)

  -- What `reserve`, `release`, `commit`, `restore` and `applyHcmSnapshot` share: load the row, or a
  -- zero row, and save it changed.
  unfoldable pub change_balance : String → String → (Balance → Balance) → Action (Unit {0})
  change_balance employee location mutate = do
    b ← find_or_create employee location
    save_with_retry b mutate

  unfoldable pub reserve : String → String → ℕ → Action (Unit {0})
  reserve employee location days = do
    b ← find_or_create employee location
    throw_if (ltb_ℤ (free_days b) (pos days)) conflict
    save_with_retry b (add_reserved days)

  unfoldable pub release : String → String → ℕ → Action (Unit {0})
  release employee location days = change_balance employee location (drop_reserved days)

  unfoldable pub commit : String → String → ℕ → Action (Unit {0})
  commit employee location days = change_balance employee location (take_days days)

  unfoldable pub restore : String → String → ℕ → Action (Unit {0})
  restore employee location days = change_balance employee location (give_days days)

  unfoldable pub apply_hcm_snapshot : HcmBalance → Action (Unit {0})
  apply_hcm_snapshot h = change_balance h.employee_id h.location_id (set_snapshot h)

  -- One call of HCM, and its answer saved; if HCM is down nothing is.
  unfoldable pub hydrate_cold : HcmReply → String → String → Action (Option BalanceView)
  hydrate_cold (snapshot h) employee location =
      apply_hcm_snapshot h >> gets λ t. Option.map view_of (find_balance employee location t)
  hydrate_cold unavailable employee location =
      pure (some (record { balance = zero_balance employee location; degraded = true }))
  hydrate_cold broken employee location = throw other_error

  -- The read under the lock: HCM is asked only if the row is still cold.
  unfoldable pub hydrate : HcmReply → String → String → Action (Option BalanceView)
  hydrate reply employee location = do
    row ← gets (find_balance employee location)
    on_option (warm_row row) (hydrate_cold reply employee location) (λ b. pure (seen b))

  -- With the feature flag off a missing row is made and saved.
  unfoldable pub zero_on_miss : String → String → Option Balance → Action (Option BalanceView)
  zero_on_miss employee location (some b) held t = (ok (seen b), t)
  zero_on_miss employee location none held t =
      on_saved (e.save_balance (zero_balance employee location) t.balances)
        (λ rows. (ok (seen (zero_balance employee location)), record t { balances = rows }))
        (λ rows. (err version_mismatch, record t { balances = rows })) (err other_error, t)

  unfoldable pub get_balance : AppConfig → HcmReply → String → String → Action (Option BalanceView)
  get_balance config reply employee location = do
    row ← gets (find_balance employee location)
    on_option (warm_row row)
        (if config.balance_lazy_load_enabled
          then run_exclusive (balance_key employee location) (hydrate reply employee location)
          else zero_on_miss employee location row)
        (λ b. pure (seen b))

  -- `validateAvailability`.
  unfoldable pub validate_availability :
      AppConfig → HcmReply → String → String → ℕ → Action (Unit {0})
  validate_availability config reply employee location days =
      get_balance config reply employee location >>= check_view days

  unfoldable pub resolve_review : String → String → Action (Unit {0})
  resolve_review employee location =
      run_exclusive (balance_key employee location) (change_balance employee location clear_review)
