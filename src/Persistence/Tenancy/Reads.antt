-- ===== src/Persistence/Tenancy/Reads.antt =====
-- src/persistence/tenancy.py, reads: what a select gives on a session with a tenant bound.
use eu_ai_act_compliance.Prelude.{
  String, Bool, true, false, ◌&&◌, List, Option, none, some, ◌≡◌, ◌↔◌, refl, Mem, arith, contains,
  str_eq_iff,
}
use eu_ai_act_compliance.Result.{Exception, ok, err}
use eu_ai_act_compliance.Persistence.Engine.{
  Engine, mem_of_mem-rows, test_of_mem-rows, mem-rows_of_mem,
}
use eu_ai_act_compliance.Persistence.Tenancy.{
  SessionInfo, Mapper, apply_tenant_filter, is_cross_tenant, bound_tenant_id, owned_by,
  tenant_scoped_tablenames, touches_tenant_table, meets_criteria, select_where,
}

owned_by_iff : (t : String) (o : Option String) → (owned_by t o ≡ true) ↔ (o ≡ some t)
unfolding owned_by
owned_by_iff t none = ground arith
owned_by_iff t (some o) = ground (arith, str_eq_iff o t)

module _ (engine : Engine) {A : Type 0} (mapper : Mapper A) (info : SessionInfo) (test : A → Bool)
    (table : List A) where
  -- A select on a tenant owned class, on a session with no tenant bound and without the exemption,
  -- raises `TenantContextError`, whatever its WHERE clause and whatever the table holds.
  pub select_where-unbound :
      mapper.is_tenant_scoped ≡ true
      → contains mapper.tablename tenant_scoped_tablenames ≡ true
      → is_cross_tenant info ≡ false
      → bound_tenant_id info ≡ none
      → select_where engine mapper info test table ≡ err Exception.tenant_context_error
  unfolding select_where apply_tenant_filter touches_tenant_table
  select_where-unbound scoped named guarded unbound = rw (scoped, named, guarded, unbound) refl

  -- A select on a tenant owned class, on a session bound to a tenant and without the exemption,
  -- gives rows, and they are the rows of the table that its WHERE clause asks for and that the
  -- tenant owns: none of another tenant's, and all of its own.
  pub select_where-isolated :
      {tenant_id : String}
      → mapper.is_tenant_scoped ≡ true
      → contains mapper.tablename tenant_scoped_tablenames ≡ true
      → is_cross_tenant info ≡ false
      → bound_tenant_id info ≡ some tenant_id
      → (found : List A) × (select_where engine mapper info test table ≡ ok found)
        × ((row : A)
            → Mem row found
              ↔ (Mem row table × (test row ≡ true) × (mapper.owner row ≡ some tenant_id)))
  unfolding select_where apply_tenant_filter touches_tenant_table meets_criteria
  select_where-isolated {tenant_id} scoped named guarded bound =
      (engine.rows A both table, rw (scoped, named, guarded, bound) refl, answers)
    where
      both : A → Bool
      both row = test row && (owned_by tenant_id (mapper.owner row) && true)

      answers :
          (row : A)
          → Mem row (engine.rows A both table)
            ↔ (Mem row table × (test row ≡ true) × (mapper.owner row ≡ some tenant_id))
      answers row = (
        (λ m.
            let kept : both row ≡ true = test_of_mem-rows engine both table m in
            (
              mem_of_mem-rows engine both table m,
              ground arith,
              (owned_by_iff tenant_id (mapper.owner row)).0 (ground arith),
            )),
        (λ (m, h, own).
            let mine = (owned_by_iff tenant_id (mapper.owner row)).1 own in
            mem-rows_of_mem engine both table m (ground arith)),
      )
