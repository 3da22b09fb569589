-- ===== src/Tests/Runs.antt =====
-- The tables after the sections, computed.
use wizdaa_takehome.Prelude.{[], ◌∷◌, ◌≡◌, refl, ap, ◌∙◌, subst}
use wizdaa_takehome.Prelude.Int.{◌-ℤ◌}
use wizdaa_takehome.Balances.{
  get_balance, hydrate, hydrate_cold, apply_hcm_snapshot, change_balance, save_with_retry,
  save_attempts, validate_availability, reserve, commit,
}
use wizdaa_takehome.Calendar.{count_business_days, civil_date}
use wizdaa_takehome.Requests.{
  submit_locked, submit_with, submit_new, check_range, submit_days, submit_tx, create_tx, reload,
  approve_locked, approve_refreshed, decide, decide_on, commit_tx, build_outbox_row,
  build_file_command,
}
use wizdaa_takehome.Ledger.Moves.{Inv}
use wizdaa_takehome.Ledger.Reached.{perform, approving, Reached}
use wizdaa_takehome.Guarantees.Accounts.{Reached-Inv}
use wizdaa_takehome.Tests.Reference.{reference}
use wizdaa_takehome.Tests.Data.{
  settings, hcm_up, today, after_submit, after_approve, pending_tables, synced_tables,
  submit-Reached, approve-Reached,
}

pub after_submit-eq : after_submit ≡ pending_tables
unfolding perform get_balance hydrate hydrate_cold apply_hcm_snapshot change_balance save_with_retry
    save_attempts validate_availability reserve submit_locked submit_with submit_new check_range
    submit_days submit_tx create_tx reload count_business_days civil_date ◌-ℤ◌
after_submit-eq = refl

pub approved :
    perform reference.engine settings (approving hcm_up today "k") ("e1::l1" ∷ []) pending_tables
    ≡ synced_tables
unfolding perform approve_locked approve_refreshed decide decide_on commit_tx commit get_balance
    apply_hcm_snapshot change_balance save_with_retry save_attempts civil_date build_outbox_row
    build_file_command ◌-ℤ◌
approved = refl

pub after_approve-eq : after_approve ≡ synced_tables
after_approve-eq =
    ap (perform reference.engine settings (approving hcm_up today "k") ("e1::l1" ∷ []))
      after_submit-eq
    ∙ approved

pub pending_tables-Inv : Inv pending_tables
pending_tables-Inv =
    subst Inv after_submit-eq (Reached-Inv reference settings after_submit submit-Reached)

pub synced_tables-Inv : Inv synced_tables
synced_tables-Inv =
    subst Inv after_approve-eq (Reached-Inv reference settings after_approve approve-Reached)

-- The same tables, as reached.
pub pending_tables-Reached : Reached reference.engine settings pending_tables
pending_tables-Reached = subst (Reached reference.engine settings) after_submit-eq submit-Reached

pub synced_tables-Reached : Reached reference.engine settings synced_tables
synced_tables-Reached = subst (Reached reference.engine settings) after_approve-eq approve-Reached
