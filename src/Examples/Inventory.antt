-- ===== src/Examples/Inventory.antt =====
-- The theorems on servers, groups, targets and versions, at a small installation.
use ai_pub.Base.{
  ◌≡◌, refl, sym, ap, ◌∙◌, ◌⊎◌, inl, true, false, some, [], ◌∷◌, ◌++◌, Memᴰ, ◌==◌, find_row,
  exists_row,
}
use mathlib.Core.List.Memᴰ
use ai_pub.Domain.{Server, ServerGroup}
use ai_pub.Database.{Db, TargetRow}
use ai_pub.Action.Ends.{calm, faulty, Ends}
use ai_pub.Repository.Servers.{merged_server, create_server, update_server}
use ai_pub.Repository.Servers.Gateways.{IsRouted}
use ai_pub.Repository.Servers.Routed.{
  stored-IsRouted, create_server-IsRouted, update_server-IsRouted,
}
use ai_pub.Repository.Servers.Unrouted.{update_server-unroutes}
use ai_pub.Repository.Groups.{update_server_group}
use ai_pub.Repository.Groups.Members.{replaced, update_server_group-replaced}
use ai_pub.Repository.Lookup.{get_deployment_target}
use ai_pub.Repository.Targets.{create_deployment_target, update_deployment_target}
use ai_pub.Repository.Targets.Configured.{IsConfigured, create_deployment_target-IsConfigured}
use ai_pub.Repository.Targets.Replaced.{update_deployment_target-IsConfigured}
use ai_pub.Repository.Targets.Loads.{OwnSsh, OwnK8s, Loaded, get_deployment_target-loads}
use ai_pub.App.Versions.{VersionRegistrationInput, request_hash, register_version}
use ai_pub.App.Versions.Registered.{register_version-stores}
use ai_pub.App.Versions.Repeats.{register_version-repeats}
use ai_pub.Examples.{inventory, host, shop_target, shop_ssh, loaded_target}

abbrev jump : Server
jump = record host { id = "gw1"; role = "gateway" }

abbrev spare_jump : Server
spare_jump = record host { id = "gw2"; role = "gateway" }

abbrev inner : Server
inner = record host { id = "srv2"; role = "application"; gateway_id = "gw1"; auth_type = "none" }

abbrev no_servers : Db
no_servers = record inventory { servers = [] }

abbrev one_jump : Db
one_jump = record inventory { servers = jump ∷ [] }

abbrev two_jumps : Db
two_jumps = record inventory { servers = jump ∷ spare_jump ∷ [] }

abbrev network : Db
network = record inventory { servers = jump ∷ spare_jump ∷ inner ∷ [] }

no_servers-IsRouted : IsRouted []
no_servers-IsRouted = record {
  routed = λ x m. elim m [ ];
  unchained = λ x m. elim m [ ];
  keyed = λ x y m. elim m [ ];
}

two_jumps-IsRouted : IsRouted (jump ∷ spare_jump ∷ [])
unfolding exists_row
two_jumps-IsRouted =
    stored-IsRouted one_jump spare_jump
      (record { alone = λ _. refl; used = λ _ _. (refl, refl); own = λ p. absurd (cc) }) refl
      (stored-IsRouted no_servers jump
        (record { alone = λ _. refl; used = λ _ _. (refl, refl); own = λ p. absurd (cc) }) refl
        no_servers-IsRouted)

network-IsRouted : IsRouted network.servers
unfolding exists_row
network-IsRouted =
    stored-IsRouted two_jumps inner
      (record {
        alone = λ p. absurd (cc);
        used = λ p. absurd (cc);
        own = λ _. (refl, (jump, Memᴰ.head refl, refl, refl, refl));
      })
      refl two_jumps-IsRouted

create_server-IsRouted_example :
    Ends faulty two_jumps
      (create_server inner)
      (λ _ e. IsRouted e.servers)
      (λ _ e. IsRouted e.servers)
create_server-IsRouted_example = create_server-IsRouted inner two_jumps two_jumps-IsRouted

update_server-IsRouted_example :
    Ends faulty network
      (update_server "gw2" (record jump { name = "renamed" }))
      (λ _ e. IsRouted e.servers)
      (λ _ e. IsRouted e.servers)
update_server-IsRouted_example =
    update_server-IsRouted "gw2" (record jump { name = "renamed" }) network network-IsRouted
      (inl refl)

abbrev demoting : Server
demoting = record jump { role = "application"; gateway_id = "gw2"; auth_type = "none" }

found_jump : find_row (λ x. x.id == "gw1") network.servers ≡ some jump
unfolding find_row
found_jump = refl

found_spare : find_row (λ x. x.id == "gw2") network.servers ≡ some spare_jump
unfolding find_row
found_spare = refl

update_server-unroutes_example :
    Ends calm network (update_server "gw1" demoting) (λ _ e. ¬ IsRouted e.servers) (λ _ _. ⊥)
unfolding merged_server
update_server-unroutes_example =
    update_server-unroutes "gw1" demoting jump spare_jump inner network found_jump found_spare refl
      refl refl refl refl refl (Memᴰ.tail (Memᴰ.tail (Memᴰ.head refl))) refl refl refl

abbrev pool : ServerGroup
pool = record {
  id = "";
  name = "";
  description = "";
  enabled = true;
  server_ids = some ("srv2" ∷ []);
  created_at = 0;
  updated_at = 0;
}

update_server_group-replaced_example :
    Ends faulty network
      (update_server_group "sg1" pool)
      (λ _ e. e.group_members ≡ replaced "sg1" (some ("srv2" ∷ [])) network.group_members)
      (λ _ e. e.group_members ≡ network.group_members)
update_server_group-replaced_example = update_server_group-replaced "sg1" pool network

inventory-IsConfigured : IsConfigured inventory
inventory-IsConfigured = record {
  with_ssh = λ x m _.
      (shop_ssh, Memᴰ.head refl, sym (ap (λ (r : TargetRow). r.id) (Memᴰ.eq_of_singleton m)));
  with_k8s = λ x m k.
      absurd
        (cc (sym (ap (λ (r : TargetRow). r.executor_type == "k8s") (Memᴰ.eq_of_singleton m)) ∙ k));
}

create_deployment_target-IsConfigured_example :
    Ends faulty inventory
      (create_deployment_target loaded_target)
      (λ _ e. IsConfigured e)
      (λ _ e. IsConfigured e)
create_deployment_target-IsConfigured_example =
    create_deployment_target-IsConfigured loaded_target inventory inventory-IsConfigured

update_deployment_target-IsConfigured_example :
    Ends faulty inventory
      (update_deployment_target "t1" loaded_target)
      (λ _ e. IsConfigured e)
      (λ _ e. IsConfigured e)
update_deployment_target-IsConfigured_example =
    update_deployment_target-IsConfigured "t1" loaded_target inventory inventory-IsConfigured

found_target : find_row (λ x. x.id == "t1") inventory.targets ≡ some shop_target
unfolding find_row
found_target = refl

get_deployment_target-loads_example :
    Ends calm inventory
      (get_deployment_target "t1")
      (λ t e.
        (e ≡ inventory)
        × (t.id ≡ "t1")
        × (t.executor_type ≡ "ssh")
        × (true ≡ true → Loaded (OwnSsh inventory "t1") t.ssh)
        × (false ≡ true → Loaded (OwnK8s inventory "t1") t.k8s))
      (λ _ _. ⊥)
get_deployment_target-loads_example =
    get_deployment_target-loads "t1" shop_target inventory inventory-IsConfigured found_target

abbrev announced : VersionRegistrationInput
announced = record {
  project_key = "web";
  service_key = "shop";
  version = "2.1.0";
  commit_sha = "abc";
  artifact_url = "";
  metadata = "{}";
  idempotency_key = "run-7";
  api_key_id = "key1";
}

register_version-stores_example :
    Ends faulty inventory
      (register_version (λ s. s) announced)
      (λ r e.
        (r.version.registration_request_hash ≡ request_hash (λ s. s) announced)
        × (((r.created ≡ false)
              × (e.versions ≡ inventory.versions)
              × Memᴰ r.version inventory.versions)
            ⊎ ((r.created ≡ true) × (e.versions ≡ inventory.versions ++ (r.version ∷ [])))))
      (λ _ e. e.versions ≡ inventory.versions)
register_version-stores_example = register_version-stores (λ s. s) announced inventory

register_version-repeats_example :
    Ends faulty inventory
      (register_version (λ s. s) announced)
      (λ first e.
        Ends calm e
          (register_version (λ s. s) announced)
          (λ second e'.
            (second.version ≡ first.version)
            × (second.created ≡ false)
            × (e'.versions ≡ e.versions))
          (λ _ _. ⊥))
      (λ _ e. e.versions ≡ inventory.versions)
register_version-repeats_example = register_version-repeats (λ s. s) announced inventory
