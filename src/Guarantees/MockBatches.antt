-- ===== src/Guarantees/MockBatches.antt =====
-- The sequence of the batches that the mock of HCM makes.
use wizdaa_takehome.Prelude.{
  ℕ, ◌+◌, ◌≤◌, ◌<◌, String, true, false, Option, none, some, List, [], ◌∷◌, ◌≡◌, refl, first,
  Option-cases, arith,
}
use wizdaa_takehome.Prelude.Int.{ℤ}
use wizdaa_takehome.Entities.{FileTimeOffCommand, BatchCorpus, BatchSyncLog}
use wizdaa_takehome.Reconciliation.{is_stale}
use wizdaa_takehome.MockHcm.{
  MockResult, MockStore, HcmScenario, store_key, slot_is, result_is, get_entry, next_sequence,
  Answer, keep_result, mock_get_balance, set_found, scenario_of, deduplicated, file_fresh,
  mock_file_time_off, reverse_entry, mock_reverse_time_off, mock_set_scenario, mock_refresh,
  Overrides, Delivery, get_batch, build_corpus, emit_batch,
}
use wizdaa_takehome.Guarantees.MockBalances.{
  MockCall, file, reverse, read, set_scenario, refresh, batch, emit, mock_serve, mock_serve_all,
}

keep_sequence :
    (key : String) (r : MockResult) (s : MockStore) → (keep_result key r s).1.sequence ≡ s.sequence
keep_sequence key r s = ground arith

dedup_sequence :
    (key : String) (fresh : MockStore → Answer MockResult × MockStore) (s : MockStore)
    → (fresh s).1.sequence ≡ s.sequence
    → (deduplicated key fresh s).1.sequence ≡ s.sequence
unfolding deduplicated
dedup_sequence key fresh s h = ground (arith, Option-cases (first (result_is key) s.results))

file_sequence :
    (key : String) (cmd : FileTimeOffCommand) (now : ℕ) (s : MockStore)
    → (mock_file_time_off key cmd now s).1.sequence ≡ s.sequence
unfolding mock_file_time_off
file_sequence key cmd now s = dedup_sequence key (file_fresh key cmd now) s (
    ground (
      arith,
      Option-cases (first (slot_is (store_key cmd.employee_id cmd.location_id)) s.balances),
    ))

get_sequence :
    (now : ℕ) (employee location : String) (s : MockStore)
    → (mock_get_balance now employee location s).1.sequence ≡ s.sequence
unfolding mock_get_balance
get_sequence now employee location s = ground arith

refresh_sequence :
    (now : ℕ) (employee location : String) (z : ℤ) (s : MockStore)
    → (mock_refresh now employee location z s).1.sequence ≡ s.sequence
unfolding mock_refresh
refresh_sequence now employee location z s = ground arith

found_sequence :
    (text : String) (found : Option HcmScenario) (s : MockStore)
    → (set_found text found s).1.sequence ≡ s.sequence
found_sequence text none s = refl
found_sequence text (some scenario) s = refl

reverse_sequence :
    (key : String) (cmd : FileTimeOffCommand) (now : ℕ) (s : MockStore)
    → (mock_reverse_time_off key cmd now s).1.sequence ≡ s.sequence
unfolding mock_reverse_time_off
reverse_sequence key cmd now s =
    dedup_sequence key
      (λ u. reverse_entry key cmd now (get_entry (store_key cmd.employee_id cmd.location_id) u) u) s
      (ground (
        arith,
        Option-cases (first (slot_is (store_key cmd.employee_id cmd.location_id)) s.balances),
      ))

build_sequence :
    (now : ℕ) (o : Overrides) (s : MockStore) → s.sequence ≤ (build_corpus now o s).1.sequence
unfolding build_corpus next_sequence
build_sequence now o s = ground (arith, Option-cases o.sequence)

emit_sequence :
    (post : BatchCorpus → Delivery) (now : ℕ) (target : String) (o : Overrides) (s : MockStore)
    → s.sequence ≤ (emit_batch post now target o s).1.sequence
unfolding emit_batch
emit_sequence post now target o s = ground (arith, build_sequence now o s)

le_of_eq : (n m : ℕ) → m ≡ n → n ≤ m
le_of_eq n m e = omega arith

serve_sequence : (c : MockCall) (s : MockStore) → s.sequence ≤ (mock_serve c s).sequence
unfolding mock_set_scenario get_batch
serve_sequence (file key cmd now) s = le_of_eq s.sequence _ (file_sequence key cmd now s)
serve_sequence (reverse key cmd now) s = le_of_eq s.sequence _ (reverse_sequence key cmd now s)
serve_sequence (read employee location now) s =
    le_of_eq s.sequence _ (get_sequence now employee location s)
serve_sequence (set_scenario text) s =
    le_of_eq s.sequence _ (found_sequence text (scenario_of text) s)
serve_sequence (refresh employee location z now) s =
    le_of_eq s.sequence _ (refresh_sequence now employee location z s)
serve_sequence (batch now) s =
    build_sequence now (record { balances = none; as_of = none; sequence = none }) s
serve_sequence (emit post target o now) s = emit_sequence post now target o s

serve_all_sequence :
    (cs : List MockCall) (s : MockStore) → s.sequence ≤ (mock_serve_all cs s).sequence
serve_all_sequence [] s = omega arith
serve_all_sequence (c ∷ cs) s =
    omega (arith, serve_sequence c s, serve_all_sequence cs (mock_serve c s))

batch_sequence :
    (now : ℕ) (s : MockStore)
    → ((get_batch now s).0.sequence ≡ s.sequence + 1)
      × ((get_batch now s).1.sequence ≡ s.sequence + 1)
unfolding get_batch build_corpus next_sequence
batch_sequence now s = (refl, refl)

-- Two batches are read from the mock, with any sequence of calls of its routes between them. The later
-- has the greater sequence, so that a service whose last batch was the earlier one does not reject the
-- later as stale; and one whose last batch was the later one rejects the earlier.
pub later_batch_is_newer :
    (now now' : ℕ) (cs : List MockCall) (s : MockStore) (log : BatchSyncLog)
    → let earlier = (get_batch now s).0 in
      let later = (get_batch now' (mock_serve_all cs (get_batch now s).1)).0 in
      (earlier.sequence < later.sequence)
      × (is_stale later (some (record log { sequence = earlier.sequence })) ≡ false)
      × (is_stale earlier (some (record log { sequence = later.sequence })) ≡ true)
later_batch_is_newer now now' cs s log =
    let u : MockStore = mock_serve_all cs (get_batch now s).1 in
    let grows : (get_batch now s).0.sequence < (get_batch now' u).0.sequence = omega (
      arith,
      batch_sequence now s,
      batch_sequence now' u,
      serve_all_sequence cs (get_batch now s).1,
    ) in
    (grows, ground arith, ground arith)
