-- ===== src/Repository/Groups.antt =====
-- internal/repository/repository.go: server groups and their members.
pub mod Members
use ai_pub.Base.{
  ℕ, Bool, true, false, not, ◌&&◌, String, Option, none, some, List, [], ◌∷◌, ◌++◌, map, ◌==◌,
  text_lt, find_row, rows_where, exists_row, count_rows, update_rows, delete_rows, sort_rows,
  if◌then◌else◌,
}
use ai_pub.Domain.{ServerGroup}
use ai_pub.Database.{Db, GroupRow, GroupMember}
use ai_pub.Action.{M, pure, query, query_row, insert, exec, transaction, now_utc, ◌>>=◌, ◌>>◌}
use ai_pub.Repository.Release.{or_new_id}
use ai_pub.Repository.Inventory.{choose, newest}

-- The primary key of `server_group_members`.
unfoldable pub member_allowed : GroupMember → Db → Bool
member_allowed item d = not (
    exists_row (λ x. x.server_group_id == item.server_group_id && x.server_id == item.server_id)
      d.group_members)

-- `for _, serverID := range ids { INSERT INTO server_group_members … }`
unfoldable pub insert_members : String → List String → M (Unit {0})
unfolding member_allowed
insert_members group_id [] = pure tt
insert_members group_id (server_id ∷ rest) = do
  let member : GroupMember = record { server_group_id = group_id; server_id = server_id }
  insert (member_allowed member)
      (λ d. record d { group_members = d.group_members ++ (member ∷ []) })
  insert_members group_id rest

-- A range over a nil slice makes no round.
unfoldable pub ids_of : Option (List String) → List String
ids_of none = []
ids_of (some ids) = ids

unfoldable pub group_row : ServerGroup → GroupRow
group_row item = record {
  id = item.id;
  name = item.name;
  description = item.description;
  enabled = item.enabled;
  created_at = item.created_at;
  updated_at = item.updated_at;
}

-- CreateServerGroup
unfoldable pub create_server_group : ServerGroup → M ServerGroup
unfolding ids_of group_row
create_server_group item = do
  now ← now_utc
  id ← or_new_id item.id "sg"
  let stored = record item { id = id; enabled = true; created_at = now; updated_at = now }
  transaction (do
    insert (λ d. not (exists_row (λ x. x.id == id) d.groups))
        (λ d. record d { groups = d.groups ++ (group_row stored ∷ []) })
    insert_members id (ids_of item.server_ids))
  pure stored

-- listServerGroupMembers
unfoldable pub list_server_group_members : String → M (List String)
list_server_group_members group_id = query (λ d. sort_rows text_lt (
    map (λ (x : GroupMember). x.server_id)
      (rows_where (λ x. x.server_group_id == group_id) d.group_members)))

-- scanServerGroup, and the members that are read after it
unfoldable pub scan_server_group : GroupRow → List String → ServerGroup
scan_server_group r ids = record {
  id = r.id;
  name = r.name;
  description = r.description;
  enabled = r.enabled;
  server_ids = some ids;
  created_at = r.created_at;
  updated_at = r.updated_at;
}

unfoldable pub attach_members : List GroupRow → M (List ServerGroup)
unfolding scan_server_group list_server_group_members
attach_members [] = pure []
attach_members (r ∷ rows) = do
  ids ← list_server_group_members r.id
  rest ← attach_members rows
  pure (scan_server_group r ids ∷ rest)

-- ListServerGroups
unfoldable pub list_server_groups : M (List ServerGroup)
unfolding newest
list_server_groups = do
  rows ← query (λ d. sort_rows (λ x y. newest x.created_at x.id y.created_at y.id) d.groups)
  attach_members rows

-- GetServerGroup
unfoldable pub get_server_group : String → M ServerGroup
unfolding scan_server_group list_server_group_members
get_server_group id = do
  row ← query_row (λ d. find_row (λ x. x.id == id) d.groups)
  ids ← list_server_group_members id
  pure (scan_server_group row ids)

-- The members of a group are replaced where the caller gives some.
unfoldable pub replace_members : String → Option (List String) → M (Unit {0})
replace_members id none = pure tt
replace_members id (some ids) = do
  exec (λ d. count_rows (λ x. x.server_group_id == id) d.group_members)
      (λ d. record d { group_members = delete_rows (λ x. x.server_group_id == id) d.group_members })
  insert_members id ids

unfoldable pub or_kept : Option (List String) → Option (List String) → Option (List String)
or_kept none kept = kept
or_kept (some ids) kept = some ids

-- UpdateServerGroup
unfoldable pub update_server_group : String → ServerGroup → M ServerGroup
unfolding choose or_kept replace_members
update_server_group id item = do
  existing ← get_server_group id
  now ← now_utc
  let stored = record existing {
    name = choose item.name existing.name;
    description = item.description;
    enabled = item.enabled;
    server_ids = or_kept item.server_ids existing.server_ids;
    updated_at = now;
  }
  transaction (do
    exec (λ d. count_rows (λ x. x.id == id) d.groups)
        (λ d. record d {
          groups =
              update_rows (λ x. x.id == id)
                (λ x. record x {
                  name = stored.name;
                  description = stored.description;
                  enabled = stored.enabled;
                  updated_at = stored.updated_at;
                })
                d.groups;
        })
    replace_members id item.server_ids)
  pure stored
