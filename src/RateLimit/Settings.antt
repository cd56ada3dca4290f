-- ===== src/RateLimit/Settings.antt =====
-- `RateLimitSettings` of src/config/rate_limit.py. A window is a count of clock ticks, of which
-- `ticks` make a second; the source's floats are taken as exact and not negative.
use douyin_data_dashboard.Prelude.{ℕ, ◌*◌, String, Bool, Option, none, some, [], ◌∷◌}
use douyin_data_dashboard.Prelude.Int.{ℤ, pos}
use douyin_data_dashboard.Prelude.Dict.{Dict, lookup}

pub record RateLimitEndpoint : Type 0 where
  pub limit : ℤ
  pub window : ℕ

pub record RateLimitSettings : Type 0 where
  pub enabled : Bool
  pub global_limit : ℤ
  pub global_window : ℕ
  pub endpoints : Dict RateLimitEndpoint

-- `DEFAULT_RATE_LIMIT_ENDPOINTS`
abbrev pub default_endpoints : ℕ → Dict RateLimitEndpoint
default_endpoints ticks = ("/api/v1/auth/login", record { limit = pos 5; window = 60 * ticks }) ∷ []

-- `settings.get_endpoint(path)`
unfoldable pub get_endpoint : ℕ → RateLimitSettings → String → Option RateLimitEndpoint
get_endpoint ticks settings path = elim (lookup path settings.endpoints) [
  | some endpoint ↦ some endpoint
  | none ↦ lookup path (default_endpoints ticks)
]
