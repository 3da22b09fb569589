-- ===== src/Reaper/Defs.antt =====
-- The sweep over the requests whose reservation has run out.
use wizdaa_takehome.Prelude.{ℕ, Bool, ◌&&◌, ◌||◌, leb}
use wizdaa_takehome.Entities.{TimeOffRequest, is_pending, is_pending_sync}
use wizdaa_takehome.Database.{Engine, Action, ok, err, deadlock, gets, ◌>>=◌}
use wizdaa_takehome.Balances.{balance_key, run_exclusive}
use wizdaa_takehome.Requests.{expire}
use wizdaa_takehome.Dispatcher.{for_each}

-- `try { … } catch (e) { log }`: what was written stays written.
abbrev pub swallow : {A : Type 0} → Action A → Action (Unit {0})
swallow body held t =
    let (r, t') = body held t in
    elim r [ ok a ↦ (ok tt, t') | err e ↦ (ok tt, t') | deadlock ↦ (deadlock, t') ]

-- `expiresAt <= now AND status IN (PENDING, PENDING_SYNC)`.
abbrev pub is_overdue : ℕ → TimeOffRequest → Bool
is_overdue now r = leb r.expires_at now && (is_pending r.status || is_pending_sync r.status)

module _ (e : Engine) where
  unfoldable pub expire_one : TimeOffRequest → Action (Unit {0})
  expire_one r = run_exclusive (balance_key r.employee_id r.location_id) (swallow (expire e r.id))

  unfoldable pub sweep : ℕ → Action (Unit {0})
  sweep now = do
    overdue ← gets λ t. e.find TimeOffRequest (is_overdue now) t.requests
    for_each expire_one overdue
