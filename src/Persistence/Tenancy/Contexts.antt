-- ===== src/Persistence/Tenancy/Contexts.antt =====
-- src/persistence/tenancy.py, the context managers: what they leave bound when their body is done.
use eu_ai_act_compliance.Prelude.{String, ◌≡◌, refl}
use eu_ai_act_compliance.Exec.{Exec}
use eu_ai_act_compliance.Persistence.Tenancy.{
  SessionInfo, bound_tenant_id, is_cross_tenant, tenant_context, cross_tenant_context,
}

module _ {S A : Type 0} (body : Exec (SessionInfo × S) A) (info : SessionInfo) (s : S) where
  -- After `with tenant_context(...)` and after `with cross_tenant_context(...)`, whether the body
  -- returns or raises and whatever it does to the session, the session is bound to the tenant it
  -- was bound to before the one, and is as exempt as it was before the other.
  pub contexts-restore :
      (tenant_id : String)
      → (bound_tenant_id (tenant_context tenant_id body (info, s)).1.0 ≡ bound_tenant_id info)
        × (is_cross_tenant (cross_tenant_context body (info, s)).1.0 ≡ is_cross_tenant info)
  unfolding tenant_context cross_tenant_context bound_tenant_id is_cross_tenant
  contexts-restore tenant_id = (refl, refl)
