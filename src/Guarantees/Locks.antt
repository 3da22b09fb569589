-- ===== src/Guarantees/Locks.antt =====
-- A submission that asks for a lock that it holds.
use wizdaa_takehome.Prelude.{ℕ, String, true, none, some, [], ◌∷◌, ◌≡◌, refl, first, same_refl}
use wizdaa_takehome.Entities.{balance_at}
use wizdaa_takehome.Config.{AppConfig}
use wizdaa_takehome.Database.{Tables, ok, deadlock, Database, memory_of, engine-eq-memory}
use wizdaa_takehome.Balances.{
  HcmReply, unavailable, warm_row, balance_key, get_balance, hydrate, hydrate_cold, zero_balance,
  validate_availability,
}
use wizdaa_takehome.Requests.{
  HcmReplies, SubmitArgs, has_key, check_range, submit, submit_locked, submit_with, submit_new,
  submit_days,
}

module _ (db : Database) (config : AppConfig) (employee location : String) (t : Tables)
    (on : config.balance_lazy_load_enabled ≡ true)
    (cold : warm_row (first (balance_at employee location) t.balances) ≡ none) where
  -- The read outside of the lock finds HCM down, and gives a zero row that is not saved.
  degraded_read :
      get_balance (memory_of db) config unavailable employee location [] t
      ≡ (ok (some (record { balance = zero_balance employee location; degraded = true })), t)
  unfolding get_balance hydrate hydrate_cold
  degraded_read = rw (cold, on, get_balance, cold, hydrate) refl

  -- The read by the holder of the lock waits for the lock.
  stuck_read :
      (reply : HcmReply)
      → get_balance
          (memory_of db)
          config
          reply
          employee
          location
          (balance_key employee location ∷ [])
          t
        ≡ (deadlock, t)
  unfolding get_balance
  stuck_read reply = rw (cold, on, get_balance, same_refl (balance_key employee location)) refl

-- With lazy loading on, HCM down and no balance that was ever synchronised, a submission under a
-- new key whose range passes the checks never returns: it takes the lock of its balance, and the
-- read of the balance in `validateAvailability` then waits for the same lock.
pub cold_submit_hangs :
    (db : Database) (config : AppConfig) (hcm : HcmReplies) (now : ℕ) (args : SubmitArgs) (days : ℕ)
    (t : Tables)
    → config.balance_lazy_load_enabled ≡ true
    → hcm.prewarm ≡ unavailable
    → warm_row (first (balance_at args.employee_id args.location_id) t.balances) ≡ none
    → first (has_key args.idempotency_key) t.requests ≡ none
    → check_range db.engine config hcm now args
        (balance_key args.employee_id args.location_id ∷ [])
        t
      ≡ (ok days, t)
    → submit db.engine config hcm now args [] t ≡ (deadlock, t)
unfolding submit submit_locked submit_with submit_new submit_days validate_availability check_range
cold_submit_hangs db config hcm now args days t on down cold free_key range =
    let range' = rw (engine-eq-memory db) at range in
    rw
      (
        engine-eq-memory db,
        down,
        degraded_read db config args.employee_id args.location_id t on cold,
        free_key,
        range',
        stuck_read db config args.employee_id args.location_id t on cold hcm.recheck,
      )
      refl
