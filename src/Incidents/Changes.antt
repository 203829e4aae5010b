-- ===== src/Incidents/Changes.antt =====
-- src/incidents/registry.py: what the two operations that write do to the table.
use eu_ai_act_compliance.Prelude.{
  String, false, List, [], ◌∷◌, ◌++◌, Option, none, some, ◌≡◌, ◌≢◌, ◌⊎◌, inl, inr, refl, Mem,
  str_eq, str_eq_iff, str_eq_refl, contains, Bool-cases, Option-cases, first, map, if◌then◌else◌,
}
use eu_ai_act_compliance.Result.{ok}
use eu_ai_act_compliance.Calendar.{Date, DateTime}
use eu_ai_act_compliance.Schemas.Enums.Severity.{IncidentSeverity}
use eu_ai_act_compliance.Persistence.Engine.{Engine, mem_of_first, first_of_mem}
use eu_ai_act_compliance.Persistence.Models.{Incident}
use eu_ai_act_compliance.Persistence.Tenancy.{
  SessionInfo, is_cross_tenant, bound_tenant_id, tenant_scoped_tablenames, stamp_and_verify_writes,
  stamp_new, stamp, verify_all, verify, is_tenant_scoped, tenant_id_of, set_tenant_id, owned_by,
  incident,
}
use eu_ai_act_compliance.Persistence.Tenancy.Reads.{select_where-isolated}
use eu_ai_act_compliance.Legal.Store.{LegalStore}
use eu_ai_act_compliance.Incidents.{
  incidents, create_incident, get_incident, replace_incident, update_flushed, mark_reported,
}

module _ (engine : Engine) (store : LegalStore) (info : SessionInfo) {t : String}
    (guarded : is_cross_tenant info ≡ false) (bound : bound_tenant_id info ≡ some t) where
  -- On a session bound to a tenant, logging an incident never raises; it adds one row behind the
  -- others, which the bound tenant owns, with the given fields and not reported.
  pub create_incident-adds :
      (id : String) (now : DateTime) (ai_system_id : String) (severity : IncidentSeverity)
      (description : String) (detected_at : Date) (user : Option String) (table : List Incident)
      → let i : Incident = record {
        id = id;
        tenant_id = some t;
        ai_system_id = ai_system_id;
        severity = severity;
        description = description;
        detected_at = detected_at;
        reported_at = none;
        created_at = now;
        created_by_user_id = user;
        resolved_by_user_id = none;
      } in
        create_incident engine store info id now ai_system_id severity description detected_at user
          table
        ≡ (ok i, table ++ (i ∷ []))
  unfolding create_incident stamp_and_verify_writes stamp_new stamp is_tenant_scoped tenant_id_of
      set_tenant_id verify_all
  create_incident-adds id now ai_system_id severity description detected_at user table =
      rw (guarded, bound) refl

  get_incident-cases :
      (incident_id : String) (table : List Incident)
      → ((get_incident engine store info incident_id table ≡ ok none)
          × ((j : Incident) → Mem j table → j.id ≡ incident_id → j.tenant_id ≢ some t))
        ⊎ ((i : Incident) × (get_incident engine store info incident_id table ≡ ok (some i))
            × Mem i table
            × (i.id ≡ incident_id)
            × (i.tenant_id ≡ some t))
  unfolding get_incident incidents tenant_scoped_tablenames contains
  get_incident-cases incident_id table =
      let (found, q, answers) =
        select_where-isolated engine incidents info (λ i. str_eq i.id incident_id) table refl refl
          guarded bound in
      elim (Option-cases (first found)) [
        | inl e ↦ inl (
          rw (q, e) refl,
          λ j m same own.
              let at = (answers j).1 (m, (str_eq_iff j.id incident_id).1 same, own) in
              let (b, some_b) = first_of_mem found at in cc,
        )
        | inr (i, e) ↦
            let (m, same, own) = (answers i).0 (mem_of_first found e) in
            inr (i, rw (q, e) refl, m, (str_eq_iff i.id incident_id).0 same, own)
      ]

  pub reported : (now : DateTime) (user : Option String) → Incident → Incident
  reported now user i = record i { reported_at = some now; resolved_by_user_id = user }

  replace_incident-eq-map :
      (i : Incident) (table : List Incident)
      → replace_incident engine store info i table
        ≡ map (λ j. if str_eq j.id i.id then i else j) table
  unfolding replace_incident
  replace_incident-eq-map i [] = refl
  replace_incident-eq-map i (j ∷ rest) = elim (Bool-cases (str_eq j.id i.id)) [
    | inl q ↦ rw (q, replace_incident-eq-map i rest) refl
    | inr q ↦ rw (q, replace_incident-eq-map i rest) refl
  ]

  commit-reported :
      (now : DateTime) (user : Option String) (i : Incident)
      → i.tenant_id ≡ some t
      → (stamp_and_verify_writes info [] (incident (reported now user i) ∷ []) []).0 ≡ ok tt
  unfolding stamp_and_verify_writes stamp_new verify_all verify is_tenant_scoped tenant_id_of
      owned_by reported
  commit-reported now user i own = rw (guarded, bound, own, str_eq_refl t) refl

  -- On a session bound to a tenant, marking an incident reported never raises. If the tenant owns
  -- none with that id, it answers None and leaves the table. Otherwise it answers one of the
  -- tenant's with that id, now reported at the time of the call by the given user, and puts it in
  -- the place of the rows with that id; every other row stays.
  pub mark_reported-cases :
      (now : DateTime) (incident_id : String) (user : Option String) (table : List Incident)
      → ((mark_reported engine store info now incident_id user table ≡ (ok none, table))
          × ((j : Incident) → Mem j table → j.id ≡ incident_id → j.tenant_id ≢ some t))
        ⊎ ((i : Incident) × Mem i table
            × (i.id ≡ incident_id)
            × (i.tenant_id ≡ some t)
            × (mark_reported engine store info now incident_id user table ≡ (
              ok (some (reported now user i)),
              map (λ j. if str_eq j.id incident_id then reported now user i else j) table,
            )))
  unfolding mark_reported reported update_flushed
  mark_reported-cases now incident_id user table = elim (get_incident-cases incident_id table) [
    | inl (e, absent) ↦ inl (rw e refl, absent)
    | inr (i, e, m, same, own) ↦ inr (
      i,
      m,
      same,
      own,
      rw
          (
            e,
            commit-reported now user i own,
            replace_incident-eq-map (reported now user i) table,
            same,
          )
          refl,
    )
  ]
