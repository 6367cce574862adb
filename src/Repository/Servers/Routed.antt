-- ===== src/Repository/Servers/Routed.antt =====
-- internal/repository/repository.go: CreateServer and UpdateServer, and the gateways of servers.
use ai_pub.Base.{
  ◌≡◌, refl, sym, ap, ◌∙◌, ℕ, true, false, not, ◌&&◌, String, List, [], ◌∷◌, ◌++◌, Memᴰ, ◌==◌, ◌⊎◌,
  inl, inr, arith, eq_iff, eq_refl, exists_row, update_rows, mem-find_row, subst,
  count_rows-pos_of_mem, mem-update_rows, mem-update_rows_hit, mem-update_rows_kept, mem-snoc,
  Bool-cases, Keyed-snoc, Keyed-update_rows,
}
use mathlib.Core.List.Memᴰ
use ai_pub.Domain.{Server}
use ai_pub.Database.{Db}
use ai_pub.Action.Ends.{
  faulty, Ends, Ends-bind, Ends-pure, then_query_row, then_now, then_insert, then_update,
  Ends-weaken,
}
use ai_pub.Repository.Reads.{then_or_new_id}
use ai_pub.Repository.Lookup.{get_server}
use ai_pub.Repository.Servers.{
  count_dependents, merged_server, set_server, create_server, update_server, server_allowed,
}
use ai_pub.Repository.Servers.Gateways.{
  HasGateway, IsRouted, IsValidated, validate_server_gateway-IsValidated,
}

-- A gateway stays one when a server is added.
HasGateway-snoc :
    (ls : List Server) (y : Server) (id : String)
    → HasGateway ls id
    → HasGateway (ls ++ (y ∷ [])) id
HasGateway-snoc ls y id h = (h.0, Memᴰ.append_left (y ∷ []) h.1, h.2, h.3, h.4)

pub stored-IsRouted :
    (d : Db) (y : Server)
    → IsValidated d y
    → exists_row (λ x. x.id == y.id) d.servers ≡ false
    → IsRouted d.servers
    → IsRouted (d.servers ++ (y ∷ []))
stored-IsRouted d y v fresh h = record {
  routed = λ x m named. elim (mem-snoc d.servers m) [
    | inl n ↦ HasGateway-snoc d.servers y x.gateway_id (h.routed x n named)
    | inr e ↦ rw e (HasGateway-snoc d.servers y y.gateway_id (v.own (rw e at named)).1)
  ];
  unchained = λ x m role. elim (mem-snoc d.servers m) [
    | inl n ↦ h.unchained x n role
    | inr e ↦ rw e (v.alone (rw e at role))
  ];
  keyed = Keyed-snoc (λ x. x.id) d.servers y fresh h.keyed;
}

-- The validation saw the flag that CreateServer then sets.
enabled-IsValidated :
    (d : Db) (x : Server) (now : ℕ)
    → IsValidated d x
    → IsValidated d (record x { enabled = true; created_at = now; updated_at = now })
enabled-IsValidated d x now v = record {
  alone = v.alone;
  used = λ blank n. ((v.used blank n).0, refl);
  own = v.own;
}

-- CreateServer keeps the servers routed, whether it returns or fails: a server's gateway is stored, is
-- an enabled gateway and uses none itself, and an id is the key of one server.
pub create_server-IsRouted :
    (item : Server) (d : Db)
    → IsRouted d.servers
    → Ends faulty d (create_server item) (λ _ e. IsRouted e.servers) (λ _ e. IsRouted e.servers)
unfolding create_server server_allowed
create_server-IsRouted item d h = then_now _ λ now. then_or_new_id item.id "srv" _ λ id.
    Ends-bind _ _
      (Ends-weaken (validate_server_gateway-IsValidated _ d) (λ _ _ p. p) (λ _ _ p. rw p h))
      λ u e' p. rw p.0 (
        then_insert _ _ _ (λ _. h) (λ _. h)
          λ allowed.
            Ends-pure _
              (stored-IsRouted d _ (enabled-IsValidated d _ now p.1) (ground (arith, allowed)) h))

module _ (d : Db) (h : IsRouted d.servers) (old : Server) (m : Memᴰ old d.servers) (y : Server)
    (same : y.id ≡ old.id) (v : IsValidated d y)
    (spare : ((y.gateway_id == "") ≡ true) ⊎ (count_dependents old.id d ≡ 0)) (now : ℕ) where
  abbrev renewed : List Server
  renewed = update_rows (λ x. x.id == old.id) (set_server y now) d.servers

  -- The row of another id is as it was.
  kept_row : (x : Server) → Memᴰ x d.servers → (x.id == old.id) ≡ false → Memᴰ x renewed
  kept_row x n other = mem-update_rows_kept (λ x. x.id == old.id) (set_server y now) n other

  new_row : Memᴰ (set_server y now old) renewed
  new_row = mem-update_rows_hit (λ x. x.id == old.id) (set_server y now) m (eq_refl old.id)

  -- The gateway of the changed server.
  own_gateway : (y.gateway_id == "") ≡ false → HasGateway renewed y.gateway_id
  own_gateway named =
      let (apart, g) = v.own named in
      (
        g.0,
        kept_row g.0 g.1
            (ground (arith, apart, eq_iff g.0.id old.id, eq_iff y.gateway_id y.id, g.2, same)),
        g.2,
        g.3,
        g.4,
      )

  -- While another server uses it as its gateway, the changed server still is one.
  still_gateway :
      (x : Server)
      → Memᴰ x d.servers
      → (x.id == old.id) ≡ false
      → x.gateway_id ≡ old.id
      → ((y.role == "gateway") ≡ true) × (y.enabled ≡ true)
  unfolding count_dependents
  still_gateway x n other e =
      let depends =
        count_rows-pos_of_mem (λ x. x.gateway_id == old.id && not (x.id == old.id)) d.servers n
          (ground (arith, other, (eq_iff x.gateway_id old.id).1 e)) in
      elim spare [
        | inl blank ↦ v.used blank (rw same depends)
        | inr none ↦ absurd (omega (arith, depends, none))
      ]

  -- The gateway of another server, which may be the changed one.
  gateway_of_other :
      (x : Server)
      → Memᴰ x d.servers
      → (x.id == old.id) ≡ false
      → (x.gateway_id == "") ≡ false
      → HasGateway renewed x.gateway_id
  unfolding set_server
  gateway_of_other x n other named =
      let g = h.routed x n named in
      elim (Bool-cases (g.0.id == old.id)) [
        | inr e ↦ (g.0, kept_row g.0 g.1 e, g.2, g.3, g.4)
        | inl e ↦
            let key = (eq_iff g.0.id old.id).0 e in
            let (role, enabled) = still_gateway x n other (sym g.2 ∙ key) in
            (set_server y now old, new_row, sym key ∙ g.2, role, enabled)
      ]

  renewed-IsRouted : IsRouted renewed
  unfolding set_server
  renewed-IsRouted = record {
    routed = λ z n named.
        let (x, n', q) = mem-update_rows (λ x. x.id == old.id) (set_server y now) d.servers n in
        elim (Bool-cases (x.id == old.id)) [
          | inl e ↦
              let p : set_server y now x ≡ z = rw e at q in
              subst (HasGateway renewed) (ap (λ (s : Server). s.gateway_id) p)
                (own_gateway (ap (λ (s : Server). s.gateway_id == "") p ∙ named))
          | inr e ↦
              let p : x ≡ z = rw e at q in
              subst (HasGateway renewed) (ap (λ (s : Server). s.gateway_id) p)
                (gateway_of_other x n' e (ap (λ (s : Server). s.gateway_id == "") p ∙ named))
        ];
    unchained = λ z n role.
        let (x, n', q) = mem-update_rows (λ x. x.id == old.id) (set_server y now) d.servers n in
        elim (Bool-cases (x.id == old.id)) [
          | inl e ↦
              let p : set_server y now x ≡ z = rw e at q in
              sym (ap (λ (s : Server). s.gateway_id == "") p)
              ∙ v.alone (ap (λ (s : Server). s.role == "gateway") p ∙ role)
          | inr e ↦
              let p : x ≡ z = rw e at q in
              sym (ap (λ (s : Server). s.gateway_id == "") p)
              ∙ h.unchained x n' (ap (λ (s : Server). s.role == "gateway") p ∙ role)
        ];
    keyed =
        Keyed-update_rows (λ x. x.id) (λ x. x.id == old.id) (set_server y now) d.servers (λ x. refl)
          h.keyed;
  }

-- UpdateServer keeps the servers routed, whether it returns or fails, where the input names no gateway
-- or no other server uses the updated one as its gateway.
pub update_server-IsRouted :
    (id : String) (item : Server) (d : Db)
    → IsRouted d.servers
    → ((item.gateway_id == "") ≡ true) ⊎ (count_dependents id d ≡ 0)
    → Ends faulty d (update_server id item) (λ _ e. IsRouted e.servers) (λ _ e. IsRouted e.servers)
unfolding update_server get_server merged_server
update_server-IsRouted id item d h spare =
    then_query_row _ _ (λ _. h) (λ _. h)
      λ old p.
        let (m, t) = mem-find_row _ d.servers p in
        let key = (eq_iff old.id id).0 t in
        Ends-bind _ _
          (Ends-weaken (validate_server_gateway-IsValidated _ d) (λ _ _ q. q) (λ _ _ q. rw q h))
          λ u e q. rw q.0 (
            then_now _ λ now.
              then_update _ _ _ _ (λ _. h) (λ _. h)
                λ _. Ends-pure _ (
                  subst
                    (λ k. IsRouted (
                      update_rows (λ x. x.id == k) (set_server (merged_server old item) now)
                        d.servers))
                    key
                    (renewed-IsRouted d h old m (merged_server old item) refl q.1 (rw key spare)
                      now)))
