-- ===== src/Config.antt =====
-- The settings of the service (src/config): `AppConfigService`. The `ConfigService` of NestJS is not
-- part of the repository: what it has for a name is an argument.
use wizdaa_takehome.Prelude.{ℕ, String, Bool, Option, none, some, not, ◌&&◌, same}

pub record AppConfig : Type 0 where
  pub database_path : String
  pub hcm_base_url : String
  pub reservation_ttl_days : ℕ
  pub hcm_retry_max_attempts : ℕ
  pub hcm_retry_backoff_ms : ℕ
  pub port : ℕ
  pub balance_lazy_load_enabled : Bool

-- `config.get(name, default)`.
abbrev pub setting_or : {A : Type 0} → A → Option A → A
setting_or default none = default
setting_or default (some value) = value

-- `balanceLazyLoadEnabled`, from the text of the variable.
unfoldable pub lazy_load_of : String → Bool
lazy_load_of raw = not (same raw "false") && not (same raw "0")

-- The getters. `text_at` and `number_at` are what `ConfigService` has under a name, a number as the
-- arithmetic of JavaScript reads it.
unfoldable pub app_config : (String → Option String) → (String → Option ℕ) → AppConfig
app_config text_at number_at = record {
  database_path = setting_or "/app/data/timeoff.sqlite" (text_at "DATABASE_PATH");
  hcm_base_url = setting_or "http://localhost:3001" (text_at "HCM_BASE_URL");
  reservation_ttl_days = setting_or 14 (number_at "RESERVATION_TTL_DAYS");
  hcm_retry_max_attempts = setting_or 5 (number_at "HCM_RETRY_MAX_ATTEMPTS");
  hcm_retry_backoff_ms = setting_or 1000 (number_at "HCM_RETRY_BACKOFF_MS");
  port = setting_or 3000 (number_at "PORT");
  balance_lazy_load_enabled =
      lazy_load_of (setting_or "true" (text_at "BALANCE_LAZY_LOAD_ENABLED"));
}
