-- ===== src/Repository/Servers.antt =====
-- internal/repository/repository.go: servers, and the gateways that they are reached through.
pub mod Gateways
pub mod Routed
pub mod Unrouted
use ai_pub.Base.{
  ℕ, Bool, true, false, not, ◌&&◌, String, some, List, [], ◌∷◌, ◌++◌, ◌==◌, ltb, nat_eq, is_one_of,
  find_row, exists_row, count_rows, update_rows, sort_rows, if◌then◌else◌,
}
use ai_pub.Domain.{pos, Server}
use ai_pub.Database.{Db}
use ai_pub.Action.{
  M, Result, ok, err, message, wrapped, pure, raise, fail_if, attempt, query, insert, exec, update,
  now_utc, ◌>>=◌, ◌>>◌,
}
use ai_pub.Repository.Release.{or_default, or_new_id}
use ai_pub.Repository.Lookup.{get_server}
use ai_pub.Repository.Inventory.{choose, is_zero, newest}

-- `SELECT COUNT(*) FROM servers WHERE gateway_id = ? AND id <> ?`
unfoldable pub count_dependents : String → Db → ℕ
count_dependents id d = count_rows (λ x. x.gateway_id == id && not (x.id == id)) d.servers

-- What a server that others use as their gateway must remain.
unfoldable pub check_used_gateway : Server → M (Unit {0})
unfolding count_dependents
check_used_gateway item = do
  dependents ← query (λ d. count_dependents item.id d)
  fail_if (ltb 0 dependents && not (item.role == "gateway"))
      (message "gateway server is used by application servers and must remain a gateway")
  fail_if (ltb 0 dependents && not item.enabled)
      (message "gateway server is used by application servers and cannot be disabled")

unfoldable pub found_gateway : Result Server → M Server
found_gateway (ok gateway) = pure gateway
found_gateway (err e) = raise (wrapped "gateway server is not available" e)

-- What the gateway of a server must be.
unfoldable pub check_own_gateway : Server → M (Unit {0})
unfolding found_gateway
check_own_gateway item = do
  fail_if (item.gateway_id == item.id) (message "server cannot use itself as gateway")
  read ← attempt (get_server item.gateway_id)
  gateway ← found_gateway read
  fail_if (not (gateway.role == "gateway")) (message "selected server is not a gateway")
  fail_if (not gateway.enabled) (message "gateway server is disabled")
  fail_if (not (item.role == "application")) (message "only application server can use a gateway")

-- validateServerGateway
unfoldable pub validate_server_gateway : Server → M (Unit {0})
unfolding check_used_gateway check_own_gateway
validate_server_gateway item = do
  fail_if (not (item.role == "gateway") && not (item.role == "application"))
      (message "server role must be gateway or application")
  fail_if (item.role == "gateway" && not (item.gateway_id == ""))
      (message "gateway server cannot use another gateway")
  if item.gateway_id == "" then check_used_gateway item else check_own_gateway item

-- The constraints of `servers`: the primary key, and the CHECKs on the two kinds.
unfoldable pub server_allowed : Server → Db → Bool
server_allowed item d =
    not (exists_row (λ x. x.id == item.id) d.servers)
    && (is_one_of item.auth_type ("password" ∷ "private_key" ∷ "none" ∷ [])
        && is_one_of item.role ("gateway" ∷ "application" ∷ []))

-- CreateServer
unfoldable pub create_server : Server → M Server
unfolding server_allowed is_zero
create_server item = do
  now ← now_utc
  id ← or_new_id item.id "srv"
  let checked = record item {
    id = id;
    port = if is_zero item.port then pos 22 else item.port;
    role = or_default item.role "application";
  }
  validate_server_gateway checked
  let stored = record checked { enabled = true; created_at = now; updated_at = now }
  insert (server_allowed stored) (λ d. record d { servers = d.servers ++ (stored ∷ []) })
  pure stored

-- ListServers
unfoldable pub list_servers : M (List Server)
unfolding newest
list_servers = query (λ d. sort_rows (λ x y. newest x.created_at x.id y.created_at y.id) d.servers)

-- The server that UpdateServer validates.
unfoldable pub merged_server : Server → Server → Server
unfolding choose is_zero
merged_server existing item = record existing {
  name = choose item.name existing.name;
  host = choose item.host existing.host;
  port = if is_zero item.port then existing.port else item.port;
  username = choose item.username existing.username;
  auth_type = choose item.auth_type existing.auth_type;
  credential_ref = item.credential_ref;
  role = choose item.role existing.role;
  gateway_id = item.gateway_id;
  enabled = item.enabled;
}

-- The columns that `UPDATE servers` sets.
unfoldable pub set_server : Server → ℕ → Server → Server
set_server stored now x = record x {
  name = stored.name;
  host = stored.host;
  port = stored.port;
  username = stored.username;
  auth_type = stored.auth_type;
  credential_ref = stored.credential_ref;
  role = stored.role;
  gateway_id = stored.gateway_id;
  enabled = stored.enabled;
  updated_at = now;
}

-- UpdateServer. The role has passed the validation; the CHECK on the other kind is left.
unfoldable pub update_server : String → Server → M Server
unfolding merged_server set_server
update_server id item = do
  existing ← get_server id
  let merged = merged_server existing item
  validate_server_gateway merged
  now ← now_utc
  update (λ d. is_one_of merged.auth_type ("password" ∷ "private_key" ∷ "none" ∷ []))
      (λ d. count_rows (λ x. x.id == id) d.servers)
      (λ d. record d { servers = update_rows (λ x. x.id == id) (set_server merged now) d.servers })
  pure (record merged { updated_at = now })

-- UpdateServerCheck
unfoldable pub update_server_check : String → String → M Server
update_server_check id status = do
  now ← now_utc
  exec (λ d. count_rows (λ x. x.id == id) d.servers)
      (λ d. record d {
        servers =
            update_rows (λ x. x.id == id)
              (λ x. record x {
                last_check_status = status;
                last_check_at = some now;
                updated_at = now;
              })
              d.servers;
      })
  get_server id
