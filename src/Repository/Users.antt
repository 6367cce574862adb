-- ===== src/Repository/Users.antt =====
-- internal/repository/repository.go: users and their sessions' version.
use ai_pub.Base.{
  ℕ, ◌+◌, Bool, true, not, ◌&&◌, String, List, [], ◌∷◌, ◌++◌, ◌==◌, length, nat_eq, is_one_of,
  find_row, exists_row, count_rows, update_rows, delete_rows, sort_rows,
}
use ai_pub.Domain.{User}
use ai_pub.Database.{Db, KeyRow}
use ai_pub.Action.{
  M, not_found, pure, fail_if, query, query_row, insert, exec, update, transaction, now_utc, ◌>>=◌,
  ◌>>◌,
}
use ai_pub.Repository.Release.{or_default, or_new_id}
use ai_pub.Repository.Lookup.{get_user, without_credentials}
use ai_pub.Repository.Inventory.{choose, newest}

-- The constraints of `users`: the primary key, the unique name, and the CHECK on the role.
unfoldable pub user_allowed : User → Db → Bool
user_allowed item d =
    not (exists_row (λ x. x.id == item.id) d.users)
    && (not (exists_row (λ x. x.username == item.username) d.users)
        && is_one_of item.role ("employee" ∷ "admin" ∷ []))

-- CreateUser. The columns that the statement leaves out have defaults: no password, version 1.
unfoldable pub create_user : User → M User
unfolding user_allowed
create_user item = do
  now ← now_utc
  id ← or_new_id item.id "user"
  let stored = record item {
    id = id;
    role = or_default item.role "employee";
    enabled = true;
    created_at = now;
    updated_at = now;
  }
  insert (user_allowed stored) (λ d. record d {
    users = d.users ++ (record stored { password_hash = ""; session_version = 1 } ∷ []);
  })
  pure stored

-- CreateUserWithPassword
unfoldable pub create_user_with_password : User → M User
unfolding user_allowed
create_user_with_password item = do
  now ← now_utc
  id ← or_new_id item.id "user"
  let stored = record item {
    id = id;
    role = or_default item.role "employee";
    enabled = true;
    session_version = 1;
    created_at = now;
    updated_at = now;
  }
  insert (user_allowed stored) (λ d. record d { users = d.users ++ (stored ∷ []) })
  pure stored

scan_users : List User → List User
unfolding without_credentials
scan_users [] = []
scan_users (x ∷ xs) = without_credentials x ∷ scan_users xs

-- ListUsers
unfoldable pub list_users : M (List User)
unfolding newest scan_users
list_users =
    query (λ d. scan_users (sort_rows (λ x y. newest x.created_at x.id y.created_at y.id) d.users))

-- The user that UpdateUser returns, and the columns that its statement sets.
unfoldable pub merged_user : User → User → ℕ → User
unfolding choose
merged_user existing item now = record existing {
  display_name = choose item.display_name existing.display_name;
  role = choose item.role existing.role;
  enabled = item.enabled;
  session_version = existing.session_version + 1;
  updated_at = now;
}

unfoldable pub set_user : User → User → User
set_user stored x = record x {
  display_name = stored.display_name;
  role = stored.role;
  enabled = stored.enabled;
  session_version = x.session_version + 1;
  updated_at = stored.updated_at;
}

-- UpdateUser
unfoldable pub update_user : String → User → M User
unfolding merged_user set_user
update_user id item = do
  existing ← get_user id
  now ← now_utc
  let stored = merged_user existing item now
  update (λ d. is_one_of stored.role ("employee" ∷ "admin" ∷ []))
      (λ d. count_rows (λ x. x.id == id) d.users)
      (λ d. record d { users = update_rows (λ x. x.id == id) (set_user stored) d.users })
  pure stored

-- GetUserByUsername
unfoldable pub get_user_by_username : String → M User
get_user_by_username username = query_row (λ d. find_row (λ x. x.username == username) d.users)

-- CountUsers
unfoldable pub count_users : M ℕ
count_users = query (λ d. length d.users)

unfoldable pub is_enabled_admin : User → Bool
is_enabled_admin x = x.role == "admin" && x.enabled

-- CountEnabledAdmins
unfoldable pub count_enabled_admins : M ℕ
unfolding is_enabled_admin
count_enabled_admins = query (λ d. count_rows is_enabled_admin d.users)

unfoldable pub set_password : String → ℕ → User → User
set_password password_hash now x = record x {
  password_hash = password_hash;
  session_version = x.session_version + 1;
  updated_at = now;
}

-- SetUserPassword
unfoldable pub set_user_password : String → String → M ℕ
unfolding set_password
set_user_password id password_hash = do
  now ← now_utc
  exec (λ d. count_rows (λ x. x.id == id) d.users)
      (λ d. record d {
        users = update_rows (λ x. x.id == id) (set_password password_hash now) d.users;
      })

unfoldable pub owned_by : String → KeyRow → Bool
owned_by id k = k.owner_type == "user" && k.key.owner_user_id == id

-- DeleteUser
unfoldable pub delete_user : String → M (Unit {0})
unfolding owned_by
delete_user id = transaction (do
  exec (λ d. count_rows (owned_by id) d.api_keys)
      (λ d. record d { api_keys = delete_rows (owned_by id) d.api_keys })
  affected ←
      exec (λ d. count_rows (λ x. x.id == id) d.users)
        (λ d. record d { users = delete_rows (λ x. x.id == id) d.users })
  fail_if (nat_eq affected 0) not_found)
