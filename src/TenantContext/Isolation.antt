-- ===== src/TenantContext/Isolation.antt =====
-- Which tenant a request is served for.
use eu_saas.Text.{format}
use eu_saas.Prelude.{
  Bool, ap, false≢true, ◌≡◌, refl, ◌∙◌, sym, String, [], ◌∷◌, true, false, Bool-cases, inl, inr,
  Option, Option-cases, none, some, lookup, ◌==◌, string_eq, arith,
}
use eu_saas.Domain.Values.{Uuid, Attributes, Value}
use eu_saas.TenantContext.{
  ask, TenantContext, TenantRecord, Request, Outcome, passed_on, problem, value_error, Environment,
  is_public, extract_tenant_id, resolve_tenant, dispatch, get_or, attached,
}

module _ (env : Environment) where
  -- What stands behind a context: the tenant that the request names is in the repository and ACTIVE, and the
  -- context carries its id and its schema.
  pub record IsServed (repository : String → Option TenantRecord) (r : Request) (c : TenantContext)
      : Type 0 where
    pub tenant_id : String
    pub named : extract_tenant_id env r ≡ some tenant_id
    pub tenant : TenantRecord
    pub known : repository tenant_id ≡ some tenant
    pub state : tenant.status ≡ some "ACTIVE"
    pub id : env.parse_uuid tenant_id ≡ some c.tenant_id
    pub schema : c.schema_name ≡ get_or tenant.schema_name ""

  -- The context of a tenant that nobody has looked up.
  abbrev pub unchecked : Uuid → TenantContext
  unchecked id = record {
    tenant_id = id;
    tenant_slug = "default";
    schema_name = format ("tenant_" ∷ env.hex_prefix id ∷ []);
    tier = "FREE";
    status = "ACTIVE";
  }

  resolved-by :
      (repository : Option (String → Option TenantRecord)) (tenant_id : String)
      → env.repository ≡ repository
      → resolve_tenant env tenant_id ≡ ask env repository tenant_id
  unfolding resolve_tenant
  resolved-by repository tenant_id e = ap (λ r. ask env r tenant_id) e

  abbrev is_passed : Outcome → Bool
  is_passed (passed_on context) = true
  is_passed (problem code title detail path) = false
  is_passed value_error = false

  refused :
      {C : Type 0} (o : Outcome) (context : Option TenantContext)
      → is_passed o ≡ false
      → o ≡ passed_on context
      → C
  refused o context e h = absurd (false≢true (sym e ∙ ap is_passed h))

  passed_inj : (a b : Option TenantContext) → passed_on a ≡ passed_on b → a ≡ b
  passed_inj a b e = cc

  active_status : (o : Option String) → (get_or o "" == "ACTIVE") ≡ true → o ≡ some "ACTIVE"
  active_status none e = ground (arith, e)
  active_status (some t) e = ground (arith, string_eq.equal_iff t "ACTIVE", e)

  -- With a repository, a request to a path that is not public and is passed on is served for a tenant
  -- that it names, that the repository holds as ACTIVE, and with a context of its id and schema.
  pub dispatch-IsServed :
      (repository : String → Option TenantRecord) (r : Request) (context : Option TenantContext)
      → env.repository ≡ some repository
      → is_public r.path ≡ false
      → dispatch env r ≡ passed_on context
      → (c : TenantContext) × (context ≡ some c) × IsServed repository r c
  unfolding dispatch
  dispatch-IsServed repository r context wired private h =
      elim (Option-cases (extract_tenant_id env r)) [
        | inl e ↦ refused (dispatch env r) context (rw (private, e) refl) h
        | inr (t, e) ↦ elim (Option-cases (resolve_tenant env t)) [
          | inl u ↦ refused (dispatch env r) context (rw (private, e, u) refl) h
          | inr (tenant, u) ↦ elim (Bool-cases (get_or tenant.status "" == "ACTIVE")) [
            | inr v ↦ refused (dispatch env r) context (rw (private, e, u, v) refl) h
            | inl v ↦ elim (Option-cases (env.parse_uuid t)) [
              | inl x ↦ refused (dispatch env r) context (rw (private, e, u, v, x) refl) h
              | inr (uid, x) ↦
                  let out : dispatch env r ≡ attached env tenant (some uid) =
                    rw (private, e, u, v, x) refl in
                  (
                    _,
                    sym (passed_inj _ context (sym out ∙ h)),
                    record {
                      tenant_id = t;
                      named = e;
                      tenant = tenant;
                      known = sym (resolved-by (some repository) t wired) ∙ u;
                      state = active_status tenant.status v;
                      id = x;
                      schema = refl;
                    },
                  )
            ]
          ]
        ]
      ]

  -- A token that names a tenant decides for which tenant the request is served, whatever the header
  -- says.
  pub dispatch-claims :
      (path : String) (claims : Attributes) (v : Value) (header other : Option String)
      → lookup "tenant_id" claims ≡ some v
      → dispatch env (record { path = path; jwt_claims = some claims; x_tenant_id = header })
        ≡ dispatch env (record { path = path; jwt_claims = some claims; x_tenant_id = other })
  unfolding dispatch extract_tenant_id
  dispatch-claims path claims v header other e = rw e refl
