-- ===== src/Repository/Groups/Members.antt =====
-- internal/repository/repository.go: what an update does to the members of the groups.
use mathlib.Core.List.{append_assoc, append-nil}
use ai_pub.Base.{
  ◌≡◌, refl, sym, ◌∙◌, String, Option, none, some, List, [], ◌∷◌, ◌++◌, map, ◌==◌, delete_rows,
}
use ai_pub.Domain.{ServerGroup}
use ai_pub.Database.{Db, GroupMember}
use ai_pub.Action.Ends.{
  faulty, Ends, Ends-bind, Ends-pure, Ends-transaction, Ends-weaken, then_query, then_query_row,
  then_exec, then_insert, then_now,
}
use ai_pub.Repository.Groups.{
  insert_members, replace_members, get_server_group, update_server_group,
}

abbrev member_of : String → String → GroupMember
member_of group_id server_id = record { server_group_id = group_id; server_id = server_id }

-- What the members should become: those of the other groups, and then the new ones.
abbrev pub replaced : String → Option (List String) → List GroupMember → List GroupMember
replaced id none members = members
replaced id (some ids) members =
    delete_rows (λ x. x.server_group_id == id) members ++ map (member_of id) ids

insert_members-appends :
    (id : String) (ids : List String) (d : Db)
    → Ends faulty d
        (insert_members id ids)
        (λ _ e. e.group_members ≡ d.group_members ++ map (member_of id) ids)
        (λ _ _. Unit {0})
unfolding insert_members
insert_members-appends id [] d = Ends-pure _ (sym (append-nil d.group_members))
insert_members-appends id (server_id ∷ rest) d =
    then_insert _ _ _ (λ _. tt) (λ _. tt)
      λ _.
        Ends-weaken (insert_members-appends id rest _)
          (λ _ e q.
            q
            ∙ append_assoc d.group_members (member_of id server_id ∷ []) (map (member_of id) rest))
          (λ _ _ _. tt)

replace_members-replaced :
    (id : String) (ids : Option (List String)) (d : Db)
    → Ends faulty d
        (replace_members id ids)
        (λ _ e. e.group_members ≡ replaced id ids d.group_members)
        (λ _ _. Unit {0})
unfolding replace_members
replace_members-replaced id none d = Ends-pure _ refl
replace_members-replaced id (some ids) d =
    then_exec _ _ _ (λ _. tt) (insert_members-appends id ids _)

-- UpdateServerGroup, when it returns, has replaced the members of the group by those that it was
-- given, or left them where it was given none, and has left those of the other groups; when it
-- fails, all members are as they were.
pub update_server_group-replaced :
    (id : String) (item : ServerGroup) (d : Db)
    → Ends faulty d
        (update_server_group id item)
        (λ _ e. e.group_members ≡ replaced id item.server_ids d.group_members)
        (λ _ e. e.group_members ≡ d.group_members)
unfolding update_server_group get_server_group
update_server_group-replaced id item d =
    Ends-bind _ _
      (then_query_row _ _ (λ _. refl) (λ _. refl)
        λ row _. then_query _ _ (λ _. refl) (Ends-pure {Q = λ _ e. e ≡ d} _ refl))
      λ existing e p. rw p (
        then_now _ λ now.
          Ends-bind _ _
            (Ends-transaction _
              (then_exec _ _ _ (λ _. refl)
                (Ends-weaken (replace_members-replaced id item.server_ids _) (λ _ _ q. q)
                  (λ _ _ _. refl)))
              (λ _. refl))
            λ _ e' q. Ends-pure _ q)
