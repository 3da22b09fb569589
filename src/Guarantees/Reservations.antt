-- ===== src/Guarantees/Reservations.antt =====
-- `reserve`, `getBalance` and the reconciliation of one balance.
use wizdaa_takehome.Prelude.{
  ℕ, ◌+◌, String, true, false, none, some, List, ◌≡◌, refl, ◌⊎◌, inl, inr, first, first-upsert_self,
  upsert, Bool-cases, arith,
}
use wizdaa_takehome.Prelude.Int.{ℤ, pos, ◌-ℤ◌, ◌≤ℤ◌, ltb_ℤ}
use wizdaa_takehome.Entities.{Balance, HcmBalance, balance_at}
use wizdaa_takehome.Config.{AppConfig}
use wizdaa_takehome.Database.{
  Tables, ok, err, conflict, holds, Database, balance_key_is, engine-eq-memory,
}
use wizdaa_takehome.Balances.{
  HcmReply, snapshot, warm_row, view_of, free_days, set_snapshot, add_reserved, balance_key,
  reserve, save_with_retry, save_attempts, get_balance, hydrate, hydrate_cold, apply_hcm_snapshot,
  change_balance,
}
use wizdaa_takehome.Ledger.Rows.{at_own_key, balance_of, balance_of-saved, balance_of-key}

first_saved :
    (employee location : String) (b : Balance) (t : Tables)
    → b.employee_id ≡ employee
    → b.location_id ≡ location
    → first (balance_at employee location) (upsert balance_key_is b t.balances) ≡ some b
first_saved employee location b t p q =
    rw (← p, ← q) (first-upsert_self balance_key_is b t.balances (at_own_key b))

enough_left :
    (available : ℤ) (reserved days : ℕ)
    → ltb_ℤ (available -ℤ pos reserved) (pos days) ≡ false
    → pos 0 ≤ℤ (available -ℤ pos (reserved + days))
unfolding ◌-ℤ◌
enough_left available reserved days h = ground arith

-- `reserve` refuses, and writes nothing, exactly if fewer days are free than it is asked for. If not,
-- it reserves them, leaves the available days as they are, and what is then free is not negative.
pub reserve_never_overdraws :
    (db : Database) (employee location : String) (days : ℕ) (locks : List String) (t : Tables)
    → let b = balance_of employee location t in
      let out = reserve db.engine employee location days locks t in
      ((ltb_ℤ (free_days b) (pos days) ≡ true) × (out ≡ (err conflict, t)))
      ⊎ ((ltb_ℤ (free_days b) (pos days) ≡ false)
          × (out.0 ≡ ok tt)
          × (balance_of employee location out.1 ≡ add_reserved days b)
          × (pos 0 ≤ℤ free_days (balance_of employee location out.1)))
unfolding reserve save_with_retry save_attempts
reserve_never_overdraws db employee location days locks t =
    let b = balance_of employee location t in
    let key = balance_of-key employee location t in
    rw (engine-eq-memory db) (elim (Bool-cases (ltb_ℤ (free_days b) (pos days))) [
      | inl short ↦ inl (short, rw short refl)
      | inr enough ↦
          let after = balance_of-saved employee location (add_reserved days b) t key.0 key.1 in
          inr (
            enough,
            rw enough refl,
            rw enough after,
            rw (enough, after) (enough_left b.available b.reserved days enough),
          )
    ])

-- A balance that was never synchronised, read with lazy loading on by a caller that does not hold
-- its lock: HCM's answer is saved, with the reserved days that there were, and given; a read after
-- that gives the same and writes nothing, whatever HCM would answer then.
pub read_is_hydrated_once :
    (db : Database) (config : AppConfig) (h : HcmBalance) (other : HcmReply) (locks : List String)
    (t : Tables)
    → config.balance_lazy_load_enabled ≡ true
    → holds (balance_key h.employee_id h.location_id) locks ≡ false
    → warm_row (first (balance_at h.employee_id h.location_id) t.balances) ≡ none
    → let b = set_snapshot h (balance_of h.employee_id h.location_id t) in
      let t' = record t { balances = upsert balance_key_is b t.balances } in
      (get_balance db.engine config (snapshot h) h.employee_id h.location_id locks t
        ≡ (ok (some (view_of b)), t'))
      × (get_balance db.engine config other h.employee_id h.location_id locks t'
          ≡ (ok (some (view_of b)), t'))
unfolding get_balance hydrate hydrate_cold apply_hcm_snapshot change_balance save_with_retry
    save_attempts
read_is_hydrated_once db config h other locks t on free_lock cold =
    let b = set_snapshot h (balance_of h.employee_id h.location_id t) in
    let key = balance_of-key h.employee_id h.location_id t in
    let found = first_saved h.employee_id h.location_id b t key.0 key.1 in
    rw (engine-eq-memory db) (
      rw (cold, on, get_balance, free_lock, get_balance, cold, hydrate, found) refl,
      rw (found, get_balance) refl,
    )
