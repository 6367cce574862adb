-- ===== src/Repository/Servers/Unrouted.antt =====
-- internal/repository/repository.go: validateServerGateway counts the dependents of a server only
-- when it is given no gateway itself.
use ai_pub.Base.{
  ◌≡◌, refl, sym, ap, ◌∙◌, ◌≢◌, true, false, String, List, some, [], ◌∷◌, Memᴰ, ◌==◌, arith, eq_iff,
  find_row, is_one_of, mem-find_row, mem-update_rows_hit, mem-update_rows_kept, if◌then◌else◌,
  subst,
}
use ai_pub.Domain.{Server}
use ai_pub.Database.{Db}
use ai_pub.Action.{ok}
use ai_pub.Action.Ends.{
  calm, Ends, Ends-bind, Ends-pure, Ends-if, Ends-fail_if, Ends-query_row, Ends-attempt,
  then_query_row, then_fail_if, then_now, then_update,
}
use ai_pub.Repository.Lookup.{get_server}
use ai_pub.Repository.Inventory.{choose}
use ai_pub.Repository.Servers.{
  check_own_gateway, found_gateway, validate_server_gateway, merged_server, set_server,
  update_server,
}
use ai_pub.Repository.Servers.Gateways.{IsRouted}

module _ (d : Db) (y gateway : Server)
    (found : find_row (λ x. x.id == y.gateway_id) d.servers ≡ some gateway)
    (role : (gateway.role == "gateway") ≡ true) (enabled : gateway.enabled ≡ true)
    (apart : (y.gateway_id == y.id) ≡ false) (named : (y.gateway_id == "") ≡ false)
    (application : y.role ≡ "application") where
  -- The validation passes whatever uses the server.
  validate_server_gateway-passes : Ends calm d (validate_server_gateway y) (λ _ e. e ≡ d) (λ _ _. ⊥)
  unfolding validate_server_gateway check_own_gateway get_server found_gateway
  validate_server_gateway-passes =
      then_fail_if _ _ _ (λ t. absurd (ground (arith, t, eq_iff y.role "application")))
        λ _.
          then_fail_if _ _ _
            (λ t.
              absurd
                (ground (arith, t, eq_iff y.role "application", eq_iff y.role "gateway", differ)))
            λ _.
              Ends-if (y.gateway_id == "") _ _ (λ t. absurd (ground (arith, t, named)))
                λ _.
                  then_fail_if _ _ _ (λ t. absurd (ground (arith, t, apart)))
                    λ _.
                      Ends-bind _ _
                        (Ends-attempt {Q = λ r e. (r ≡ ok gateway) × (e ≡ d)} _ (
                          Ends-query_row _ (λ a p. (cc (p, found), refl))
                            (λ p. absurd (cc (p, found))) (λ f. absurd f)))
                        λ r e q.
                          rw (q.0, q.1)
                            (Ends-bind _ _
                              (Ends-pure {Q = λ g e'. (g ≡ gateway) × (e' ≡ d)} gateway
                                (refl, refl))
                              λ g e' p.
                                rw (p.0, p.1)
                                  (then_fail_if _ _ _ (λ t. absurd (ground (arith, t, role)))
                                    λ _.
                                      then_fail_if _ _ _ (λ t. absurd (ground (arith, t, enabled)))
                                        λ _.
                                          Ends-fail_if _ _
                                            (λ t.
                                              absurd
                                                (ground (arith, t, eq_iff y.role "application")))
                                            (λ _. refl)))
    where
      differ : y.role ≢ "gateway"
      differ e = ground (arith, application, eq_iff "application" "gateway")

-- A server that is used as a gateway and is an application leaves the table not routed.
demoted-not-IsRouted :
    (ls : List Server) (user demoted : Server)
    → Memᴰ user ls
    → Memᴰ demoted ls
    → user.gateway_id ≡ demoted.id
    → (demoted.id == "") ≡ false
    → demoted.role ≡ "application"
    → ¬ IsRouted ls
demoted-not-IsRouted ls user demoted m n through real application h =
    let g = h.routed user m (ap (λ (s : String). s == "") through ∙ real) in
    let same = h.keyed g.0 demoted g.1 n (g.2 ∙ through) in
    let role : (demoted.role == "gateway") ≡ true = rw same at g.3 in
    let clash : ("application" == "gateway") ≡ true = rw application at role in cc

module _ (item old : Server) (application : item.role ≡ "application") where
  merged_role : (merged_server old item).role ≡ "application"
  unfolding merged_server choose
  merged_role =
      subst (λ (r : String). (if r == "" then old.role else r) ≡ "application") (sym application)
        refl

-- UpdateServer of a server that another uses as its gateway, which makes it an application behind
-- another enabled gateway, succeeds where the driver fails no statement; after it the servers are
-- not routed.
pub update_server-unroutes :
    (id : String) (item old gateway user : Server) (d : Db)
    → find_row (λ x. x.id == id) d.servers ≡ some old
    → find_row (λ x. x.id == item.gateway_id) d.servers ≡ some gateway
    → (gateway.role == "gateway") ≡ true
    → gateway.enabled ≡ true
    → (item.gateway_id == id) ≡ false
    → (item.gateway_id == "") ≡ false
    → item.role ≡ "application"
    → is_one_of (merged_server old item).auth_type ("password" ∷ "private_key" ∷ "none" ∷ []) ≡ true
    → Memᴰ user d.servers
    → (user.id == id) ≡ false
    → user.gateway_id ≡ id
    → (id == "") ≡ false
    → Ends calm d (update_server id item) (λ _ e. ¬ IsRouted e.servers) (λ _ _. ⊥)
unfolding update_server get_server merged_server set_server
update_server-unroutes id item old gateway user d there found role enabled apart named application
      auth uses other through real =
    then_query_row _ _ (λ f. f) (λ p. absurd (cc (p, there)))
      λ old' p.
        let (m, t) = mem-find_row _ d.servers there in
        let key = (eq_iff old.id id).0 t in
        let same : old' ≡ old = cc (p, there) in
        rw same (
          Ends-bind _ _
            (validate_server_gateway-passes d (merged_server old item) gateway found role enabled
              (rw key apart) named (merged_role item old application))
            λ u e q. rw q (
              then_now _ λ now.
                then_update _ _ _ _ (λ f. f) (λ t. absurd (ground (arith, t, auth)))
                  λ _. Ends-pure _ (
                    demoted-not-IsRouted _ user (set_server (merged_server old item) now old)
                      (mem-update_rows_kept (λ x. x.id == id)
                        (set_server (merged_server old item) now) uses other)
                      (mem-update_rows_hit (λ x. x.id == id)
                        (set_server (merged_server old item) now) m t)
                      (through ∙ sym key) (rw key real) (merged_role item old application))))
