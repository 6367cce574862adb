-- ===== src/Repository/Servers/Gateways.antt =====
-- internal/repository/repository.go: what validateServerGateway keeps true of the table of servers.
use ai_pub.Base.{
  ◌≡◌, refl, ◌<◌, true, false, String, List, Memᴰ, ◌==◌, arith, eq_iff, find_row, mem-find_row,
  some, Keyed,
}
use ai_pub.Domain.{Server}
use ai_pub.Database.{Db}
use ai_pub.Action.{Result, ok, err}
use ai_pub.Action.Ends.{
  faulty, Ends, Ends-bind, Ends-pure, Ends-raise, Ends-if, Ends-fail_if, Ends-query_row,
  Ends-attempt, then_query, then_fail_if,
}
use ai_pub.Repository.Lookup.{get_server}
use ai_pub.Repository.Servers.{
  count_dependents, check_used_gateway, check_own_gateway, found_gateway, validate_server_gateway,
}

-- An enabled gateway of the table has that id.
abbrev pub HasGateway : List Server → String → Type 0
HasGateway ls id =
    (g : Server) × Memᴰ g ls × (g.id ≡ id) × ((g.role == "gateway") ≡ true) × (g.enabled ≡ true)

-- Every server that uses a gateway can be reached through it: the gateway is stored, is an enabled
-- gateway, and uses none itself. An id is the key of one server.
pub record IsRouted (ls : List Server) : Type 0 where
  pub routed : (x : Server) → Memᴰ x ls → (x.gateway_id == "") ≡ false → HasGateway ls x.gateway_id
  pub unchained :
      (x : Server) → Memᴰ x ls → (x.role == "gateway") ≡ true → (x.gateway_id == "") ≡ true
  pub keyed : Keyed (λ x. x.id) ls

-- What a server that passed the validation is like.
pub record IsValidated (d : Db) (x : Server) : Type 0 where
  pub alone : (x.role == "gateway") ≡ true → (x.gateway_id == "") ≡ true
  pub used :
      (x.gateway_id == "") ≡ true
      → 0 < count_dependents x.id d
      → ((x.role == "gateway") ≡ true) × (x.enabled ≡ true)
  pub own :
      (x.gateway_id == "") ≡ false
      → ((x.gateway_id == x.id) ≡ false) × HasGateway d.servers x.gateway_id

module _ (x : Server) (d : Db)
    (alone : (x.role == "gateway") ≡ true → (x.gateway_id == "") ≡ true) where
  check_used_gateway-IsValidated :
      (x.gateway_id == "") ≡ true
      → Ends faulty d (check_used_gateway x) (λ _ e. (e ≡ d) × IsValidated d x) (λ _ e. e ≡ d)
  unfolding check_used_gateway
  check_used_gateway-IsValidated blank =
      then_query _ _ (λ _. refl)
        (then_fail_if _ _ _ (λ _. refl)
          λ kept.
            Ends-fail_if _ _ (λ _. refl)
              λ enabled. (
                refl,
                record {
                  alone = alone;
                  used = λ _ n. (ground (arith, kept, n), ground (arith, enabled, n));
                  own = λ named. absurd (ground (arith, blank, named));
                },
              ))

  -- What the look-up of the gateway answers.
  abbrev Read : Result Server → Db → Type 0
  Read r e =
      (e ≡ d) × ((g : Server) → r ≡ ok g → find_row (λ y. y.id == x.gateway_id) d.servers ≡ some g)

  found_gateway-Read :
      (r : Result Server)
      → Read r d
      → Ends faulty d
          (found_gateway r)
          (λ g e. (e ≡ d) × Memᴰ g d.servers × (g.id ≡ x.gateway_id))
          (λ _ e. e ≡ d)
  unfolding found_gateway
  found_gateway-Read (ok g) q =
      let (m, t) = mem-find_row _ d.servers (q.1 g refl) in
      Ends-pure g (refl, m, (eq_iff g.id x.gateway_id).0 t)
  found_gateway-Read (err e) q = Ends-raise _ refl

  check_own_gateway-IsValidated :
      (x.gateway_id == "") ≡ false
      → Ends faulty d (check_own_gateway x) (λ _ e. (e ≡ d) × IsValidated d x) (λ _ e. e ≡ d)
  unfolding check_own_gateway get_server
  check_own_gateway-IsValidated named =
      then_fail_if _ _ _ (λ _. refl)
        λ other.
          Ends-bind _ _
            (Ends-attempt {Q = Read} _ (
              Ends-query_row _ (λ a p. (refl, λ g q. cc (p, q))) (λ p. (refl, λ g q. cc))
                (λ _. (refl, λ g q. cc))))
            λ r e q. rw q.0 (
              Ends-bind _ _ (found_gateway-Read r (refl, q.1)) λ g e' p. rw p.0 (
                then_fail_if _ _ _ (λ _. refl)
                  λ role.
                    then_fail_if _ _ _ (λ _. refl)
                      λ enabled.
                        Ends-fail_if _ _ (λ _. refl)
                          λ _. (
                            refl,
                            record {
                              alone = alone;
                              used = λ blank. absurd (ground (arith, blank, named));
                              own = λ _. (
                                other,
                                (g, p.1, p.2, ground (arith, role), ground (arith, enabled)),
                              );
                            },
                          )))

pub validate_server_gateway-IsValidated :
    (x : Server) (d : Db)
    → Ends faulty d (validate_server_gateway x) (λ _ e. (e ≡ d) × IsValidated d x) (λ _ e. e ≡ d)
unfolding validate_server_gateway
validate_server_gateway-IsValidated x d =
    then_fail_if _ _ _ (λ _. refl)
      λ _.
        then_fail_if _ _ _ (λ _. refl)
          λ alone.
            Ends-if (x.gateway_id == "") _ _
              (check_used_gateway-IsValidated x d (λ h. ground (arith, alone, h)))
              (check_own_gateway-IsValidated x d (λ h. ground (arith, alone, h)))
