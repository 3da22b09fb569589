-- ===== src/Ledger/Moves.antt =====
-- The moves of days that the methods make, and the invariants that each of them keeps.
use wizdaa_takehome.Prelude.{
  ℕ, ◌+◌, ◌≤◌, String, true, false, Option, none, some, List, ◌≡◌, refl, ap, sym, ◌∙◌, same, first,
  upsert, total, total-upsert_new, arith,
}
use wizdaa_takehome.Prelude.Int.{int_laws}
use wizdaa_takehome.Entities.{
  TimeOffRequest, Outbox, RequestStatus, request_id_is, outbox_id_is, is_pending, is_pending_sync,
  is_approved, is_terminal,
}
use wizdaa_takehome.Database.{Tables, outbox_key_is}
use wizdaa_takehome.Balances.{drop_reserved, take_days, give_days, is_committed}
use wizdaa_takehome.Ledger.Rows.{balance_of, balance_of-key, restate}
use wizdaa_takehome.Ledger.Reserved.{moved, IsReserved, held-le, pending_days_of, moved-IsReserved}
use wizdaa_takehome.Ledger.Apart.{AreApart, restated-AreApart}
use wizdaa_takehome.Ledger.Value.{committed_days_of, SameValue, moved-SameValue}
use wizdaa_takehome.Ledger.Filed.{
  IsFiled, IsSingle, waiting, file_row, limit_of, moved-IsSingle, voided_rows-files, sync_of,
  moved-IsFiled, voided_rows, voided_rows-none, voided_rows-others,
}

-- The reservations are exact, the outbox agrees with the requests, and no two active requests of one
-- key have ranges that meet.
pub record Inv (t : Tables) : Type 0 where
  pub reserved : IsReserved t
  pub filed : IsFiled t
  pub single : IsSingle t
  pub apart : AreApart t.requests

pub pending_only :
    (s : RequestStatus)
    → is_pending s ≡ true
    → (is_pending_sync s ≡ false) × (is_approved s ≡ false)
pending_only s h = ground arith

pub sync_only :
    (s : RequestStatus)
    → is_pending_sync s ≡ true
    → (is_pending s ≡ false) × (is_approved s ≡ false)
sync_only s h = ground arith

pub approved_only :
    (s : RequestStatus)
    → is_approved s ≡ true
    → (is_pending s ≡ false) × (is_pending_sync s ≡ false)
approved_only s h = ground arith

pub pending_alive : (s : RequestStatus) → is_pending s ≡ true → is_terminal s ≡ false
pending_alive s h = ground arith

pub committed_alive : (r : TimeOffRequest) → is_committed r ≡ true → is_terminal r.status ≡ false
committed_alive r h = ground arith

pub sync_committed : (r : TimeOffRequest) → is_pending_sync r.status ≡ true → is_committed r ≡ true
sync_committed r h = ground arith

pub approved_committed : (r : TimeOffRequest) → is_approved r.status ≡ true → is_committed r ≡ true
approved_committed r h = ground arith

-- What the rows of the outbox are for one request, all others as before.
pub record RowsFor (t : Tables) (r : TimeOffRequest) (rows : List Outbox) (n : ℕ) : Type 0 where
  pub own : total (waiting r.id) rows ≡ n
  pub others :
      (id : String) → same id r.id ≡ false → total (waiting id) rows ≡ total (waiting id) t.outbox
  pub own_files : total (file_row r.id) rows ≤ 1
  pub other_files :
      (id : String) → same id r.id ≡ false → total (file_row id) rows ≡ total (file_row id) t.outbox

limit-le : (o : Option TimeOffRequest) → limit_of o ≤ 1
limit-le none = omega arith
limit-le (some r) = ground arith

module _ (t : Tables) (r : TimeOffRequest) (inv : Inv t) where
  pub files-le : total (file_row r.id) t.outbox ≤ 1
  files-le = omega (arith, inv.single r.id, limit-le (first (request_id_is r.id) t.requests))

  pub kept_rows :
      first (request_id_is r.id) t.requests ≡ some r → RowsFor t r t.outbox (sync_of (some r))
  kept_rows found = record {
    own = inv.filed r.id ∙ ap sync_of found;
    others = λ id other. refl;
    own_files = files-le;
    other_files = λ id other. refl;
  }

  pub void_rows : RowsFor t r (voided_rows r.id t.outbox) 0
  void_rows = record {
    own = voided_rows-none r.id t.outbox;
    others = λ id other. voided_rows-others id r.id t.outbox other;
    own_files = rw (voided_rows-files r.id r.id t.outbox) files-le;
    other_files = λ id other. voided_rows-files id r.id t.outbox;
  }

  pub added_rows :
      (o : Outbox)
      → o.aggregate_id ≡ r.id
      → first (outbox_id_is o.id) t.outbox ≡ none
      → total (file_row r.id) t.outbox + file_row r.id o ≤ 1
      → RowsFor t r
          (upsert outbox_key_is o t.outbox)
          (total (waiting r.id) t.outbox + waiting r.id o)
  added_rows o own fresh one = record {
    own = total-upsert_new outbox_key_is (waiting r.id) o t.outbox fresh;
    others = λ id other.
        let w : waiting id o ≡ 0 = rw (own, other) in
        omega (arith, w, total-upsert_new outbox_key_is (waiting id) o t.outbox fresh);
    own_files = omega (arith, one, total-upsert_new outbox_key_is (file_row r.id) o t.outbox fresh);
    other_files = λ id other.
        let w : file_row id o ≡ 0 = rw (own, other) in
        omega (arith, w, total-upsert_new outbox_key_is (file_row id) o t.outbox fresh);
  }

module _ (t : Tables) (r : TimeOffRequest) (s : RequestStatus) (c h : Option ℕ) (rows : List Outbox)
    (found : first (request_id_is r.id) t.requests ≡ some r) where
  -- The reservation of a pending request ends.
  pub released :
      is_pending r.status ≡ true
      → is_pending s ≡ false
      → is_approved s ≡ false
      → is_pending_sync s ≡ false
      → RowsFor t r rows 0
      → Inv t
      → let t' =
          moved
            (drop_reserved r.days (balance_of r.employee_id r.location_id t))
            (restate s c h r)
            rows
            t in
        Inv t' × SameValue t t'
  released was now1 now2 now3 rs inv =
      let key = balance_of-key r.employee_id r.location_id t in
      let b = balance_of r.employee_id r.location_id t in
      let old : pending_days_of r ≡ r.days = rw was in
      let new : pending_days_of (restate s c h r) ≡ 0 = rw now1 in
      let cold : committed_days_of r ≡ 0 =
        rw ((pending_only r.status was).1, (pending_only r.status was).0) in
      let cnew : committed_days_of (restate s c h r) ≡ 0 = rw (now2, now3) in
      let sn : sync_of (some (restate s c h r)) ≡ 0 = rw now3 in
      (
        record {
          reserved =
              moved-IsReserved t r s c h (drop_reserved r.days b) rows found key.0 key.1
                (omega (arith, old, new, held-le r t inv.reserved found)) inv.reserved;
          filed =
              moved-IsFiled t r s c h (drop_reserved r.days b) rows (rs.own ∙ sym sn) rs.others
                inv.filed;
          single =
              moved-IsSingle t r s c h (drop_reserved r.days b) rows (rw now1 rs.own_files)
                rs.other_files inv.single;
          apart =
              restated-AreApart s c h r t.requests (λ _. pending_alive r.status was) found
                inv.apart;
        },
        moved-SameValue t r s c h (drop_reserved r.days b) rows found key.0 key.1
            (omega (int_laws, cold, cnew)),
      )

  -- The days of a committed request come back.
  pub restored :
      is_pending r.status ≡ false
      → is_committed r ≡ true
      → is_pending s ≡ false
      → is_approved s ≡ false
      → is_pending_sync s ≡ false
      → RowsFor t r rows 0
      → Inv t
      → let t' =
          moved
            (give_days r.days (balance_of r.employee_id r.location_id t))
            (restate s c h r)
            rows
            t in
        Inv t' × SameValue t t'
  restored was committed now1 now2 now3 rs inv =
      let key = balance_of-key r.employee_id r.location_id t in
      let b = balance_of r.employee_id r.location_id t in
      let old : pending_days_of r ≡ 0 = rw was in
      let new : pending_days_of (restate s c h r) ≡ 0 = rw now1 in
      let cold : committed_days_of r ≡ r.days = rw committed in
      let cnew : committed_days_of (restate s c h r) ≡ 0 = rw (now2, now3) in
      let sn : sync_of (some (restate s c h r)) ≡ 0 = rw now3 in
      (
        record {
          reserved =
              moved-IsReserved t r s c h (give_days r.days b) rows found key.0 key.1
                (omega (arith, old, new)) inv.reserved;
          filed =
              moved-IsFiled t r s c h (give_days r.days b) rows (rs.own ∙ sym sn) rs.others
                inv.filed;
          single =
              moved-IsSingle t r s c h (give_days r.days b) rows (rw now1 rs.own_files)
                rs.other_files inv.single;
          apart =
              restated-AreApart s c h r t.requests (λ _. committed_alive r committed) found
                inv.apart;
        },
        moved-SameValue t r s c h (give_days r.days b) rows found key.0 key.1
            (omega (int_laws, cold, cnew)),
      )

  -- A pending request is committed, and waits to be filed.
  pub committed_move :
      is_pending r.status ≡ true
      → is_pending s ≡ false
      → is_approved s ≡ false
      → is_pending_sync s ≡ true
      → RowsFor t r rows 1
      → Inv t
      → let t' =
          moved
            (take_days r.days (balance_of r.employee_id r.location_id t))
            (restate s c h r)
            rows
            t in
        Inv t' × SameValue t t'
  committed_move was now1 now2 now3 rs inv =
      let key = balance_of-key r.employee_id r.location_id t in
      let b = balance_of r.employee_id r.location_id t in
      let old : pending_days_of r ≡ r.days = rw was in
      let new : pending_days_of (restate s c h r) ≡ 0 = rw now1 in
      let cold : committed_days_of r ≡ 0 =
        rw ((pending_only r.status was).1, (pending_only r.status was).0) in
      let cnew : committed_days_of (restate s c h r) ≡ r.days = rw (now2, now3) in
      let sn : sync_of (some (restate s c h r)) ≡ 1 = rw now3 in
      (
        record {
          reserved =
              moved-IsReserved t r s c h (take_days r.days b) rows found key.0 key.1
                (omega (arith, old, new, held-le r t inv.reserved found)) inv.reserved;
          filed =
              moved-IsFiled t r s c h (take_days r.days b) rows (rs.own ∙ sym sn) rs.others
                inv.filed;
          single =
              moved-IsSingle t r s c h (take_days r.days b) rows (rw now1 rs.own_files)
                rs.other_files inv.single;
          apart =
              restated-AreApart s c h r t.requests (λ _. pending_alive r.status was) found
                inv.apart;
        },
        moved-SameValue t r s c h (take_days r.days b) rows found key.0 key.1
            (omega (int_laws, cold, cnew)),
      )
