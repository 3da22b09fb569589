-- ===== src/Ledger/Landed.antt =====
-- Transaction 2 of a dispatch, on tables that other sections wrote since transaction 1.
use wizdaa_takehome.Prelude.{
  ℕ, String, true, Option, none, some, List, ◌≤◌, total, ◌∙◌, ◌≡◌, refl, ap, sym, subst, inl, inr,
  first, upsert, upsert_twice, total-upsert, same, same_refl, eq_of_same, first-upsert_ne,
  first-upsert_self, Bool-cases, ltb, arith,
}
use wizdaa_takehome.Entities.{
  TimeOffRequest, Outbox, OutboxStatus, RequestStatus, request_id_is, is_file,
}
use wizdaa_takehome.Config.{AppConfig}
use wizdaa_takehome.Database.{Tables, Database, memory_of, request_key_is}
use wizdaa_takehome.Balances.{restore, change_balance, save_with_retry, save_attempts}
use wizdaa_takehome.Requests.{build_outbox_row, set_status}
use wizdaa_takehome.Dispatcher.{set_acked, success_tx, compensate_tx, failure_tx, reflect_tx}
use wizdaa_takehome.Ledger.Reject.{Kept, kept_trans}
use wizdaa_takehome.Ledger.Rows.{balance_of}
use wizdaa_takehome.Ledger.Value.{SameValue, committed}
use wizdaa_takehome.Prelude.Int.{pos, ◌+ℤ◌}
use wizdaa_takehome.Ledger.Reserved.{held}
use wizdaa_takehome.Ledger.Apart.{upsert-AreApart}
use wizdaa_takehome.Ledger.Filed.{file_row, sync_of, limit_of}
use wizdaa_takehome.Ledger.Moves.{Inv}
use wizdaa_takehome.Ledger.Sent.{resend, resend-Inv}
use wizdaa_takehome.Ledger.Dispatch.{Taken, reverse_idle, success_tx-Kept, compensate_tx-Kept}
use wizdaa_takehome.Ledger.Carried.{Carried}

-- A request saved over itself under another idempotency key.
module _ (t : Tables) (r : TimeOffRequest) (key : String)
    (found : first (request_id_is r.id) t.requests
      ≡ some (record r { idempotency_key = key })) where
  abbrev rewritten : Tables
  rewritten = record t { requests = upsert request_key_is r t.requests }

  -- What is read of the request is as before.
  same_read :
      (v : Option TimeOffRequest → ℕ) (id : String)
      → v (some (record r { idempotency_key = key })) ≡ v (some r)
      → v (first (request_id_is id) rewritten.requests) ≡ v (first (request_id_is id) t.requests)
  same_read v id e = elim (Bool-cases (same id r.id)) [
    | inl here ↦
        rw (eq_of_same id r.id here)
          (rw (first-upsert_self request_key_is r t.requests (same_refl r.id), found) (sym e))
    | inr other ↦ ap v (
        first-upsert_ne request_key_is (request_id_is id) r t.requests other
          (λ x e. rw (← eq_of_same r.id x.id e) other))
  ]

  rewritten-Inv : Inv t → Inv rewritten
  rewritten-Inv inv = record {
    reserved = λ employee location. omega (
      arith,
      inv.reserved employee location,
      total-upsert request_key_is (held employee location) r (record r { idempotency_key = key })
          t.requests found,
    );
    filed = λ id. inv.filed id ∙ sym (same_read sync_of id refl);
    single = λ id.
        subst (λ n. total (file_row id) t.outbox ≤ n) (sym (same_read limit_of id refl))
          (inv.single id);
    apart =
        upsert-AreApart r (record r { idempotency_key = key }) t.requests
          (record { first_one = λ x apart. apart; second_one = λ x apart. apart }) found inv.apart;
  }

  rewritten-SameValue : SameValue t rewritten
  rewritten-SameValue employee location =
      ap (λ n. (balance_of employee location t).available +ℤ pos n)
        (omega (
          arith,
          total-upsert request_key_is (committed employee location) r
              (record r { idempotency_key = key }) t.requests found,
        ))

module _ (db : Database) (t : Tables) (o : Outbox) (r : TimeOffRequest) (locks : List String)
    (inv : Inv t) (k : Carried o r t) where
  -- As if the request were still as transaction 1 read it.
  still_read : Taken (rewritten t r k.key k.found) o r
  still_read = record {
    row = k.row;
    found = first-upsert_self request_key_is r t.requests (same_refl r.id);
    own = k.own;
    wait = k.wait;
  }

  -- What holds after a write over the request as it was read holds after a write over it as it is.
  written_over :
      (u u' : Tables)
      → u ≡ u'
      → Inv u × SameValue (rewritten t r k.key k.found) u
      → Inv u' × SameValue t u'
  written_over u u' e kept =
      subst (λ v. Inv v × SameValue t v) e
        (kept_trans t (rewritten t r k.key k.found) u (rewritten-SameValue t r k.key k.found) kept)

  success_tx-landed : (time : ℕ) → Kept t (success_tx (memory_of db) time o r locks t)
  unfolding success_tx
  success_tx-landed time =
      let t1 = rewritten t r k.key k.found in
      written_over (success_tx (memory_of db) time o r locks t1).1
        (success_tx (memory_of db) time o r locks t).1
        (rw
          (upsert_twice request_key_is (set_acked time o r) r t.requests (λ x. refl)
            (same_refl r.id))
          refl)
        (success_tx-Kept db t1 o r locks (rewritten-Inv t r k.key k.found inv) still_read time)

  compensate_tx-landed :
      is_file o.operation ≡ true → Kept t (compensate_tx (memory_of db) o r locks t)
  unfolding compensate_tx restore change_balance save_with_retry save_attempts build_outbox_row
  compensate_tx-landed file =
      let t1 = rewritten t r k.key k.found in
      written_over (compensate_tx (memory_of db) o r locks t1).1
        (compensate_tx (memory_of db) o r locks t).1
        (rw
          (upsert_twice request_key_is (set_status RequestStatus.rejected r) r t.requests
            (λ x. refl) (same_refl r.id))
          refl)
        (compensate_tx-Kept db t1 o r locks (rewritten-Inv t r k.key k.found inv) still_read file)

  failure_tx-landed : (config : AppConfig) → Kept t (failure_tx (memory_of db) config o r locks t)
  unfolding failure_tx
  failure_tx-landed config = elim (Bool-cases (ltb o.attempts config.hcm_retry_max_attempts)) [
    | inl again ↦
        rw again
          (resend-Inv t o o.status o.attempts k.row (λ id. refl) inv, λ employee location. refl)
    | inr cap ↦ elim (Bool-cases (is_file o.operation)) [
      | inl file ↦ rw (cap, file) (compensate_tx-landed file)
      | inr reverse ↦
          rw (cap, reverse)
            (
              resend-Inv t o OutboxStatus.failed o.attempts k.row
                  (λ id.
                    reverse_idle id (resend OutboxStatus.failed o.attempts o) reverse
                    ∙ sym (reverse_idle id o reverse))
                  inv,
              λ employee location. refl,
            )
    ]
  ]

  pub reflect_tx-landed :
      (config : AppConfig) (acked : Option ℕ)
      → Kept t (reflect_tx (memory_of db) config acked o r locks t)
  unfolding reflect_tx
  reflect_tx-landed config (some time) = success_tx-landed time
  reflect_tx-landed config none = failure_tx-landed config
