-- ===== src/Auth/Tests.antt =====
-- Runs of the authorisation code, and its theorems at concrete inputs.
use douyin_data_dashboard.Prelude.{
  String, ◌≡◌, refl, ◌↔◌, true, false, none, some, Memᴰ, [], ◌∷◌, All, contains, strip, first_part,
}
use douyin_data_dashboard.Auth.Permission.{
  split_colon, match_parts, split_permission, match_permission,
}
use douyin_data_dashboard.Auth.Grants.{Grants, match_permission-iff-Grants}
use douyin_data_dashboard.Auth.Tables.{Tables, get_user_permissions}
use douyin_data_dashboard.Auth.Check.{ok, check_permissions}
use douyin_data_dashboard.Auth.Audit
use douyin_data_dashboard.Auth.Audit.{Request, AuditSession}
use douyin_data_dashboard.Auth.Guard.{User}
use douyin_data_dashboard.Auth.Holds.{
  Chain, get_user_permissions-iff-Chain, Holds, check_permissions-iff-Holds,
}

abbrev tables : Tables
tables = record {
  user_roles = record { user_id = 7; role_id = 1 } ∷ [];
  role_permissions =
      record { role_id = 1; permission_id = 10 } ∷ record { role_id = 2; permission_id = 11 } ∷ [];
  roles = record { id = 1; name = "analyst" } ∷ [];
  permissions =
      record { id = 10; permission_code = "orders" }
      ∷ record { id = 11; permission_code = "*" }
      ∷ [];
}

abbrev request : Request
request = record {
  user_agent_header = none;
  forwarded_for = some " 10.0.0.1 , 10.0.0.2";
  client_host = some "127.0.0.1";
  path = "/api/v1/orders";
  request_id = "r-1";
}

abbrev analyst : User
analyst = record { id = 7; is_superuser = false }

abbrev audit : AuditSession
audit = record { committed = []; flushed = []; in_transaction = true; accepts = λ e. true }

split_runs :
    (split_permission "a:b:c" ≡ ("a", some "b:c"))
    × (split_permission "a:" ≡ ("a", none))
    × (split_permission "a" ≡ ("a", none))
unfolding split_permission split_colon
split_runs = (refl, refl, refl)

-- A bare module grants its actions, and is itself refused as a requirement.
match_runs :
    (match_permission "orders:view" "orders" true ≡ true)
    × (match_permission "orders" "orders" true ≡ false)
    × (match_permission "orders" "orders" false ≡ true)
    × (match_permission "orders:*" "orders:view" true ≡ true)
unfolding match_permission match_parts split_permission split_colon
match_runs = (refl, refl, refl, refl)

ip_of_request : Audit.extract_client_info request ≡ (none, some "10.0.0.1")
unfolding Audit.extract_client_info first_part strip
ip_of_request = refl

match_permission-iff-Grants_example :
    (match_permission "orders:view" "orders" true ≡ true) ↔ Grants "orders" "orders:view"
match_permission-iff-Grants_example = match_permission-iff-Grants "orders:view" "orders"

get_user_permissions-iff-Chain_example :
    (contains (get_user_permissions tables 7) "orders" ≡ true) ↔ Chain tables 7 "orders"
get_user_permissions-iff-Chain_example = get_user_permissions-iff-Chain tables 7 "orders"

check_permissions-iff-Holds_example :
    ((check_permissions tables 7 ("orders:view" ∷ []) "all" true ≡ ok true)
      ↔ All (Holds tables 7) ("orders:view" ∷ []))
    × ((check_permissions tables 7 ("orders:view" ∷ []) "any" true ≡ ok true)
        ↔ ((req : String) × Memᴰ req ("orders:view" ∷ []) × Holds tables 7 req))
check_permissions-iff-Holds_example = check_permissions-iff-Holds tables 7 ("orders:view" ∷ [])
