-- ===== src/Tests/Accounts.antt =====
-- The accounts of one employee, through a submission, an approval and what may come after.
use wizdaa_takehome.Prelude.{◌≤◌, false, none, some, [], ◌∷◌, ◌≡◌, refl, first}
use wizdaa_takehome.Prelude.Int.{pos}
use wizdaa_takehome.Entities.{RequestStatus}
use wizdaa_takehome.Requests.{cancel_locked, file_sent, is_file_of}
use wizdaa_takehome.Database.{ok, Tables}
use wizdaa_takehome.Dispatcher.{dispatch_pending}
use wizdaa_takehome.Reaper.{sweep}
use wizdaa_takehome.Ledger.Rows.{balance_of}
use wizdaa_takehome.Ledger.Moves.{Inv}
use wizdaa_takehome.Ledger.Reject.{Kept}
use wizdaa_takehome.Guarantees.Accounts.{
  Reached-Inv, dispatch_keeps_days, sweep_keeps_days, cancel_keeps_days, synced_is_unsent,
  pending_is_reserved,
}
use wizdaa_takehome.Balances.{release, change_balance, save_with_retry, save_attempts}
use wizdaa_takehome.Requests.{cancel_tx, void_pending_file_rows}
use wizdaa_takehome.Tests.Reference.{reference}
use wizdaa_takehome.Tests.Data.{
  settings, hcm_down, hcm_fails, today, june_request, june_balance, tables_of, pending_tables,
  synced_tables,
}
use wizdaa_takehome.Tests.Runs.{
  pending_tables-Inv, synced_tables-Inv, pending_tables-Reached, synced_tables-Reached,
}

Reached-Inv_example : Inv synced_tables
Reached-Inv_example = Reached-Inv reference settings synced_tables synced_tables-Reached

dispatch_keeps_days_example :
    Kept synced_tables (dispatch_pending reference.engine settings hcm_fails today [] synced_tables)
dispatch_keeps_days_example =
    dispatch_keeps_days reference settings hcm_fails today [] synced_tables synced_tables-Inv

sweep_keeps_days_example :
    Kept pending_tables (sweep reference.engine 1767830400000 [] pending_tables)
sweep_keeps_days_example =
    sweep_keeps_days reference 1767830400000 [] pending_tables pending_tables-Inv

cancel_keeps_days_example :
    Kept synced_tables
      (cancel_locked reference.engine settings hcm_down today "k" ("e1::l1" ∷ []) synced_tables)
cancel_keeps_days_example =
    cancel_keeps_days reference settings hcm_down today "k" ("e1::l1" ∷ []) synced_tables
      synced_tables-Inv

synced_is_unsent_example : file_sent (first (is_file_of "k") synced_tables.outbox) ≡ false
synced_is_unsent_example =
    synced_is_unsent reference settings synced_tables
      (june_request RequestStatus.pending_sync (some today)) synced_tables-Reached refl refl

pending_is_reserved_example : 5 ≤ (balance_of "e1" "l1" pending_tables).reserved
pending_is_reserved_example =
    pending_is_reserved reference settings pending_tables (june_request RequestStatus.pending none)
      pending_tables-Reached refl refl

abbrev cancelled_tables : Tables
cancelled_tables =
    tables_of (june_balance (pos 10) 0) (june_request RequestStatus.cancelled none ∷ []) []

cancelled_run :
    cancel_locked reference.engine settings hcm_down today "k" ("e1::l1" ∷ []) pending_tables
    ≡ (ok (june_request RequestStatus.cancelled none), cancelled_tables)
unfolding cancel_locked cancel_tx release change_balance save_with_retry save_attempts
    void_pending_file_rows
cancelled_run = refl
