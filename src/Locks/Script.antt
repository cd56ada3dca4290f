-- ===== src/Locks/Script.antt =====
-- The Lua scripts that src/scrapers/shop_dashboard/lock_manager.py and src/shared/idempotency.py
-- send to Redis, as the calls of `redis.call` that they make.
use douyin_data_dashboard.Prelude.{ℕ, String, Bool, false, not, str_eq, is_empty, ltb}

pub data Command : Type 0 where
  get_key : String → Command
  del_key : String → Command
  expire_key : String → ℕ → Command

pub data Value : Type 0 where
  nil : Value
  text : String → Value
  number : ℕ → Value

-- A script answers a value, or makes a call and goes on with what that gives.
pub data Script : Type 0 where
  end_with : Value → Script
  call : Command → (Value → Script) → Script

-- A server runs a script as its calls one after another, with nothing in between.
abbrev pub run_script : {S : Type 0} → (Command → S → Value × S) → Script → S → Value × S
run_script calls (end_with v) s = (v, s)
run_script calls (call c next) s = let (v, s') = calls c s in run_script calls (next v) s'

abbrev pub is_text : String → Value → Bool
is_text token nil = false
is_text token (text t) = str_eq t token
is_text token (number n) = false

-- `bool(result)` of what a script answered
abbrev pub is_true : Value → Bool
is_true nil = false
is_true (text t) = not (is_empty t)
is_true (number n) = ltb 0 n
