-- ===== src/Executor/Variables.antt =====
-- internal/executor/executor.go: the variables that a script runs with.
use ai_pub.Base.{
  ◌≡◌, refl, sym, ◌∙◌, true, false, String, Option, none, some, List, [], ◌∷◌, ◌==◌, Bool-cases,
  inl, inr, eq_of_==, eq_refl, subst, if◌then◌else◌,
}
use ai_pub.Worker.{Request}
use ai_pub.Executor.{Variable, JsonField, put, lookup, target_env, ssh_target, execution_env}

-- What the platform tells a script, whatever its target says.
abbrev pub platform : Request → List Variable
platform req =
    record { name = "AI_PUB_ARTIFACT_URL"; value = req.version.artifact_url }
    ∷ record { name = "AI_PUB_COMMIT_SHA"; value = req.version.commit_sha }
    ∷ record { name = "AI_PUB_VERSION"; value = req.version.version }
    ∷ record { name = "AI_PUB_SERVICE_VERSION_ID"; value = req.release.service_version_id }
    ∷ record { name = "AI_PUB_ENVIRONMENT_ID"; value = req.release.environment_id }
    ∷ record { name = "AI_PUB_SERVICE_ID"; value = req.release.service_id }
    ∷ record { name = "AI_PUB_SERVER_ID"; value = req.server.id }
    ∷ record { name = "AI_PUB_DEPLOY_ID"; value = req.claimed.id }
    ∷ record { name = "AI_PUB_RELEASE_ID"; value = req.release.id }
    ∷ []

-- The first, and the second where there is no first.
abbrev pub or_else : Option String → Option String → Option String
or_else none kept = kept
or_else (some value) kept = some value

put_all : List Variable → List Variable → List Variable
put_all [] env = env
put_all (x ∷ rest) env = put x.name x.value (put_all rest env)

apart : (a b c : String) → (a == b) ≡ false → (a == c) ≡ true → (b == c) ≡ false
apart a b c f h = elim (Bool-cases (b == c)) [
  | inr other ↦ other
  | inl t ↦ absurd (cc (sym f ∙ eq_of_refl (eq_of_== a c h ∙ sym (eq_of_== b c t))))
]
  where
    eq_of_refl : a ≡ b → (a == b) ≡ true
    eq_of_refl p = subst (λ x. (a == x) ≡ true) p (eq_refl a)

lookup-put :
    (name key value : String) (env : List Variable)
    → lookup name (put key value env) ≡ (if key == name then some value else lookup name env)
unfolding lookup put
lookup-put name key value [] = refl
lookup-put name key value (x ∷ rest) = elim (Bool-cases (x.name == key)) [
  | inl t ↦
      rw (t, eq_of_== x.name key t)
        (elim (Bool-cases (key == name)) [ inl same ↦ rw same refl | inr other ↦ rw other refl ])
  | inr f ↦
      rw (f, lookup-put name key value rest)
        (elim (Bool-cases (x.name == name)) [
          | inl here ↦ rw (here, apart x.name key name f here) refl
          | inr other ↦ rw other refl
        ])
]

lookup-put_all :
    (name : String) (given env : List Variable)
    → lookup name (put_all given env) ≡ or_else (lookup name given) (lookup name env)
unfolding lookup put_all
lookup-put_all name [] env = refl
lookup-put_all name (x ∷ rest) env =
    lookup-put name x.name x.value (put_all rest env) ∙ elim (Bool-cases (x.name == name)) [
      | inl t ↦ rw t refl
      | inr f ↦ rw f (lookup-put_all name rest env)
    ]

-- A variable of a script is the platform's, and where the platform has none of that name, it is the
-- target's.
pub lookup-execution_env :
    (decode : String → Option (List JsonField)) (req : Request) (name : String)
    → lookup name (execution_env decode req)
      ≡ or_else
          (lookup name (platform req))
          (lookup name (target_env decode (ssh_target req.target).env_vars))
unfolding execution_env put_all
lookup-execution_env decode req name =
    lookup-put_all name (platform req) (target_env decode (ssh_target req.target).env_vars)
