-- ===== src/Guarantees/MockBalances.antt =====
-- The balances of the mock of HCM after any calls.
use wizdaa_takehome.Prelude.{ℕ, String, none, List, [], ◌∷◌}
use wizdaa_takehome.Prelude.Int.{ℤ}
use wizdaa_takehome.Entities.{FileTimeOffCommand, BatchCorpus}
use wizdaa_takehome.MockHcm.{
  MockStore, reset_mock_store, mock_get_balance, mock_file_time_off, mock_reverse_time_off,
  mock_set_scenario, mock_refresh, Overrides, Delivery, get_batch, emit_batch, scenario_of,
}
use wizdaa_takehome.Guarantees.MockSafe.{
  IsNonnegative, file-Safe, reverse-Safe, get-Safe, set_found-Safe, refresh-Safe, emit-Safe,
  batch_balances, reset-Nonnegative,
}

-- A call of a route of the mock, with the time at which it comes.
pub data MockCall : Type 0 where
  file : String → FileTimeOffCommand → ℕ → MockCall
  reverse : String → FileTimeOffCommand → ℕ → MockCall
  read : String → String → ℕ → MockCall
  set_scenario : String → MockCall
  refresh : String → String → ℤ → ℕ → MockCall
  batch : ℕ → MockCall
  emit : (BatchCorpus → Delivery) → String → Overrides → ℕ → MockCall

abbrev pub mock_serve : MockCall → MockStore → MockStore
mock_serve (file key cmd now) s = (mock_file_time_off key cmd now s).1
mock_serve (reverse key cmd now) s = (mock_reverse_time_off key cmd now s).1
mock_serve (read employee location now) s = (mock_get_balance now employee location s).1
mock_serve (set_scenario text) s = (mock_set_scenario text s).1
mock_serve (refresh employee location balance now) s =
    (mock_refresh now employee location balance s).1
mock_serve (batch now) s = (get_batch now s).1
mock_serve (emit post target o now) s = (emit_batch post now target o s).1

abbrev pub mock_serve_all : List MockCall → MockStore → MockStore
mock_serve_all [] s = s
mock_serve_all (c ∷ cs) s = mock_serve_all cs (mock_serve c s)

mock_serve-Nonnegative :
    (c : MockCall) (s : MockStore) → IsNonnegative s → IsNonnegative (mock_serve c s)
unfolding mock_set_scenario get_batch
mock_serve-Nonnegative (file key cmd now) s h = file-Safe key cmd now s h
mock_serve-Nonnegative (reverse key cmd now) s h = reverse-Safe key cmd now s h
mock_serve-Nonnegative (read employee location now) s h = get-Safe now employee location s h
mock_serve-Nonnegative (set_scenario text) s h = set_found-Safe text (scenario_of text) s h
mock_serve-Nonnegative (refresh employee location balance now) s h =
    refresh-Safe now employee location balance s h
mock_serve-Nonnegative (batch now) s h =
    rw (batch_balances now (record { balances = none; as_of = none; sequence = none }) s) h
mock_serve-Nonnegative (emit post target o now) s h = emit-Safe post now target o s h

mock_serve_all-Nonnegative :
    (cs : List MockCall) (s : MockStore) → IsNonnegative s → IsNonnegative (mock_serve_all cs s)
mock_serve_all-Nonnegative [] s h = h
mock_serve_all-Nonnegative (c ∷ cs) s h =
    mock_serve_all-Nonnegative cs (mock_serve c s) (mock_serve-Nonnegative c s h)

-- From the store that the reset leaves, after any sequence of calls of the routes, whatever their
-- arguments and scenarios, no balance that the mock stores is below zero.
pub mock_never_negative :
    (now : ℕ) (cs : List MockCall) → IsNonnegative (mock_serve_all cs (reset_mock_store now))
mock_never_negative now cs =
    mock_serve_all-Nonnegative cs (reset_mock_store now) (reset-Nonnegative now)
