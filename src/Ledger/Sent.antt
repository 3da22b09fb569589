-- ===== src/Ledger/Sent.antt =====
-- Rows of the outbox that are sent, and the request of a row in another state.
use wizdaa_takehome.Prelude.{
  ℕ, ◌≤◌, String, true, false, Option, none, some, List, ◌≡◌, refl, ap, sym, ◌∙◌, subst, inl, inr,
  first, upsert, total, total-upsert, total-upsert_new, same, Bool-cases, same_refl, arith,
}
use wizdaa_takehome.Prelude.Int.{pos, ◌+ℤ◌}
use wizdaa_takehome.Entities.{
  TimeOffRequest, Outbox, OutboxStatus, RequestStatus, request_id_is, outbox_id_is, is_file,
  is_waiting, is_pending, is_pending_sync, is_terminal,
}
use wizdaa_takehome.Database.{Tables, request_key_is, outbox_key_is}
use wizdaa_takehome.Ledger.Rows.{balance_of, restate, and_false, total-first-le}
use wizdaa_takehome.Ledger.Reserved.{held}
use wizdaa_takehome.Ledger.Value.{SameValue, committed, committed_days_of}
use wizdaa_takehome.Ledger.Filed.{
  waiting, file_row, sync_of, limit_of, moved-IsFiled, moved-IsSingle,
}
use wizdaa_takehome.Ledger.Apart.{restated-AreApart}
use wizdaa_takehome.Ledger.Moves.{Inv, RowsFor, files-le}

-- An outbox row in another state.
abbrev pub resend : OutboxStatus → ℕ → Outbox → Outbox
resend s n o = record o { status = s; attempts = n }

-- A row that waits, found by its id: the request that it files is waiting for HCM.
pub files_synced :
    (t : Tables) (o : Outbox) (r : TimeOffRequest)
    → Inv t
    → first (outbox_id_is o.id) t.outbox ≡ some o
    → first (request_id_is o.aggregate_id) t.requests ≡ some r
    → is_file o.operation ≡ true
    → is_waiting o.status ≡ true
    → is_pending_sync r.status ≡ true
files_synced t o r inv row found file wait = elim (Bool-cases (is_pending_sync r.status)) [
  | inl h ↦ h
  | inr h ↦
      let w : waiting o.aggregate_id o ≡ 1 = rw (same_refl o.aggregate_id, file, wait) in
      let s : sync_of (some r) ≡ 0 = rw h in
      absurd (
        omega (
          arith,
          w,
          s,
          inv.filed o.aggregate_id ∙ ap sync_of found,
          total-first-le (waiting o.aggregate_id) (outbox_id_is o.id) t.outbox o row,
        ))
]

module _ (t : Tables) (o : Outbox) (s : OutboxStatus) (n : ℕ)
    (row : first (outbox_id_is o.id) t.outbox ≡ some o) where
  -- A row whose state stays keeps every count.
  resend-same :
      (w : Outbox → ℕ)
      → w (resend s n o) ≡ w o
      → total w (upsert outbox_key_is (resend s n o) t.outbox) ≡ total w t.outbox
  resend-same w e = omega (arith, e, total-upsert outbox_key_is w (resend s n o) o t.outbox row)

  pub resend-Inv :
      ((id : String) → waiting id (resend s n o) ≡ waiting id o)
      → Inv t
      → Inv (record t { outbox = upsert outbox_key_is (resend s n o) t.outbox })
  resend-Inv e inv = record {
    reserved = inv.reserved;
    filed = λ id. resend-same (waiting id) (e id) ∙ inv.filed id;
    single = λ id.
        subst (λ k. k ≤ limit_of (first (request_id_is id) t.requests))
          (sym (resend-same (file_row id) refl)) (inv.single id);
    apart = inv.apart;
  }

  -- The FILE row of a request stops waiting.
  pub sent_rows :
      (r : TimeOffRequest)
      → o.aggregate_id ≡ r.id
      → is_file o.operation ≡ true
      → is_waiting o.status ≡ true
      → is_waiting s ≡ false
      → first (request_id_is r.id) t.requests ≡ some r
      → is_pending_sync r.status ≡ true
      → Inv t
      → RowsFor t r (upsert outbox_key_is (resend s n o) t.outbox) 0
  sent_rows r own file wait sent found sync inv = record {
    own =
        (let w : waiting r.id o ≡ 1 = rw (own, same_refl r.id, file, wait) in
          let w' : waiting r.id (resend s n o) ≡ 0 = rw (own, same_refl r.id, file, sent) in
          let one : sync_of (some r) ≡ 1 = rw sync in
          omega (
            arith,
            w,
            w',
            one,
            inv.filed r.id ∙ ap sync_of found,
            total-upsert outbox_key_is (waiting r.id) (resend s n o) o t.outbox row,
          ));
    others = λ id other. resend-same (waiting id) (rw (own, other) refl);
    own_files = subst (λ k. k ≤ 1) (sym (resend-same (file_row r.id) refl)) (files-le t r inv);
    other_files = λ id other. resend-same (file_row id) refl;
  }

module _ (t : Tables) (r : TimeOffRequest) (s : RequestStatus) (c h : Option ℕ) (rows : List Outbox)
    (found : first (request_id_is r.id) t.requests ≡ some r)
    (same_pending : is_pending s ≡ is_pending r.status) where
  -- A request in another state, which is pending if it was.
  pub restated-Inv :
      RowsFor t r rows (sync_of (some (restate s c h r)))
      → total (file_row r.id) rows ≤ limit_of (some (restate s c h r))
      → (is_terminal s ≡ false → is_terminal r.status ≡ false)
      → Inv t
      → Inv (record t {
        requests = upsert request_key_is (restate s c h r) t.requests;
        outbox = rows;
      })
  restated-Inv rs files alive inv = record {
    reserved = λ employee location.
        let e : held employee location (restate s c h r) ≡ held employee location r =
          rw same_pending in
        omega (
          arith,
          e,
          inv.reserved employee location,
          total-upsert request_key_is (held employee location) (restate s c h r) r t.requests found,
        );
    filed =
        moved-IsFiled t r s c h (balance_of r.employee_id r.location_id t) rows rs.own rs.others
          inv.filed;
    single =
        moved-IsSingle t r s c h (balance_of r.employee_id r.location_id t) rows files
          rs.other_files inv.single;
    apart = restated-AreApart s c h r t.requests alive found inv.apart;
  }

  -- A request that keeps its days committed.
  pub restated-SameValue :
      committed_days_of (restate s c h r) ≡ committed_days_of r
      → SameValue t (record t {
        requests = upsert request_key_is (restate s c h r) t.requests;
        outbox = rows;
      })
  restated-SameValue e employee location =
      let w : committed employee location (restate s c h r) ≡ committed employee location r =
        rw e in
      ap (λ n. (balance_of employee location t).available +ℤ pos n)
        (omega (
          arith,
          w,
          total-upsert request_key_is (committed employee location) (restate s c h r) r t.requests
              found,
        ))

-- A REVERSE row on top of rows of the outbox.
pub reverse_onto :
    (t : Tables) (r : TimeOffRequest) (rows : List Outbox) (o : Outbox)
    → first (outbox_id_is o.id) rows ≡ none
    → is_file o.operation ≡ false
    → RowsFor t r rows 0
    → RowsFor t r (upsert outbox_key_is o rows) 0
reverse_onto t r rows o fresh op rs =
    let w : (id : String) → file_row id o ≡ 0 = λ id. rw (op, and_false (same id o.aggregate_id)) in
    let v : (id : String) → waiting id o ≡ 0 = λ id. rw (op, and_false (same id o.aggregate_id)) in
    let file_eq : (id : String)
        → total (file_row id) (upsert outbox_key_is o rows) ≡ total (file_row id) rows =
      λ id. omega (arith, w id, total-upsert_new outbox_key_is (file_row id) o rows fresh) in
    let wait_eq : (id : String)
        → total (waiting id) (upsert outbox_key_is o rows) ≡ total (waiting id) rows =
      λ id. omega (arith, v id, total-upsert_new outbox_key_is (waiting id) o rows fresh) in
    record {
      own = wait_eq r.id ∙ rs.own;
      others = λ id other. wait_eq id ∙ rs.others id other;
      own_files = omega (arith, file_eq r.id, rs.own_files);
      other_files = λ id other. file_eq id ∙ rs.other_files id other;
    }
