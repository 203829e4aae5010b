-- ===== src/Systems/Registered.antt =====
-- src/systems/registry.py: registering a name twice registers it once.
use mathlib.Core.Logic.Or
use native.Mathlib.Nat.{ℕ_set}
use mathlib.Core.List.{mem-cons, mem-cons_self, not-mem-nil, mem-append, mem-append_right}
use eu_ai_act_compliance.Prelude.{
  String, true, false, List, [], ◌∷◌, ◌++◌, none, some, ◌≡◌, ◌↔◌, ◌⊎◌, inl, inr, refl, ap, ◌∙◌, Mem,
  str_eq, str_eq_iff, String_set, strip, contains,
}
use eu_ai_act_compliance.Result.{ok}
use eu_ai_act_compliance.Calendar.{DateTime}
use eu_ai_act_compliance.Persistence.Engine.{Engine}
use eu_ai_act_compliance.Persistence.Models.{AiSystem}
use eu_ai_act_compliance.Persistence.Tenancy.{
  SessionInfo, is_cross_tenant, bound_tenant_id, tenant_scoped_tablenames, stamp_and_verify_writes,
  stamp_new, stamp, verify_all, is_tenant_scoped, tenant_id_of, set_tenant_id,
}
use eu_ai_act_compliance.Persistence.Tenancy.Reads.{select_where-isolated}
use eu_ai_act_compliance.Legal.Deadlines.{ai_systems}
use eu_ai_act_compliance.Systems.{
  named, get_or_create_ai_system, get_or_create_found, create, insert_flushed, flushed,
}

AiSystem-set : IsSet AiSystem
AiSystem-set = hlevel (String_set, ℕ_set)

module _ (engine : Engine) (info : SessionInfo) {t : String}
    (guarded : is_cross_tenant info ≡ false) (bound : bound_tenant_id info ≡ some t) where
  fresh : (id : String) (now : DateTime) (name : String) → AiSystem
  fresh id now name = record {
    id = id;
    tenant_id = some t;
    name = strip name;
    description = none;
    owner_note = none;
    created_at = now;
  }

  Named : String → AiSystem → Type 0
  Named name s = (s.name ≡ name) × (s.tenant_id ≡ some t)

  named-cases :
      (name : String) (table : List AiSystem)
      → ((named engine info name table ≡ ok []) × ((s : AiSystem) → Mem s table → Named name s → ⊥))
        ⊎ ((s : AiSystem) × (rest : List AiSystem) × (named engine info name table ≡ ok (s ∷ rest))
            × Mem s table
            × Named name s)
  unfolding named ai_systems tenant_scoped_tablenames contains Named
  named-cases name table =
      let (found, q, answers) =
        select_where-isolated engine ai_systems info (λ s. str_eq s.name name) table refl refl
          guarded bound in
      go found q answers
    where
      go :
          (found : List AiSystem)
          → named engine info name table ≡ ok found
          → ((s : AiSystem)
              → Mem s found ↔ (Mem s table × (str_eq s.name name ≡ true) × (s.tenant_id ≡ some t)))
          → ((named engine info name table ≡ ok [])
              × ((s : AiSystem) → Mem s table → Named name s → ⊥))
            ⊎ ((s : AiSystem) × (rest : List AiSystem) × (named engine info name table
                  ≡ ok (s ∷ rest))
                × Mem s table
                × Named name s)
      go [] q answers =
          inl
            (q, λ s m (n, own). not-mem-nil ((answers s).1 (m, (str_eq_iff s.name name).1 n, own)))
      go (s ∷ rest) q answers =
          let (m, test, own) = (answers s).0 mem-cons_self in
          inr (s, rest, q, m, ((str_eq_iff s.name name).0 test, own))

  -- The call where the name is new, and where it is not.
  call-new :
      (id : String) (now : DateTime) (name : String) (table : List AiSystem)
      → named engine info (strip name) table ≡ ok []
      → get_or_create_ai_system engine info id now name table
        ≡ (ok (fresh id now name), table ++ (fresh id now name ∷ []))
  unfolding get_or_create_ai_system get_or_create_found create insert_flushed flushed fresh
      stamp_and_verify_writes stamp_new stamp verify_all is_tenant_scoped tenant_id_of set_tenant_id
  call-new id now name table q = rw (q, guarded, bound) refl

  call-existing :
      (id : String) (now : DateTime) (name : String) (table : List AiSystem) {s : AiSystem}
      {rest : List AiSystem}
      → named engine info (strip name) table ≡ ok (s ∷ rest)
      → get_or_create_ai_system engine info id now name table ≡ (ok s, table)
  unfolding get_or_create_ai_system get_or_create_found
  call-existing id now name table q = rw q refl

  -- On a session bound to a tenant, `get_or_create_ai_system` never raises; it gives a system of the
  -- tenant with the stripped name, which the table then holds, and a second call with that name
  -- gives the same system and adds nothing.
  pub get_or_create_ai_system-idempotent :
      (id id' : String) (now now' : DateTime) (name : String) (table : List AiSystem)
      → (s : AiSystem) × (after : List AiSystem) × (get_or_create_ai_system engine info id now name
            table
          ≡ (ok s, after))
        × Mem s after
        × (s.name ≡ strip name)
        × (s.tenant_id ≡ some t)
        × (get_or_create_ai_system engine info id' now' name after ≡ (ok s, after))
  unfolding Named fresh
  get_or_create_ai_system-idempotent id id' now now' name table =
      elim (named-cases (strip name) table) [
        | inr (s, rest, q, m, (n, own)) ↦ (
          s,
          table,
          call-existing id now name table q,
          m,
          n,
          own,
          call-existing id' now' name table q,
        )
        | inl (q, absent) ↦
            let new = fresh id now name in
            let after = table ++ (new ∷ []) in
            (
              new,
              after,
              call-new id now name table q,
              mem-append_right _ mem-cons_self,
              refl,
              refl,
              elim (named-cases (strip name) after) [
                | inl (q', absent') ↦
                    absurd (absent' new (mem-append_right _ mem-cons_self) (refl, refl))
                | inr (s, rest, q', m, owned) ↦
                    let only : s ≡ new =
                      Or.elim (AiSystem-set s new) (mem-append.0 m)
                        (λ old. absurd (absent s old owned))
                        (λ last.
                          Or.elim (AiSystem-set s new) (mem-cons.0 last) (λ e. e)
                            (λ z. absurd (not-mem-nil z))) in
                    call-existing id' now' name after q' ∙ ap (λ z. (ok z, after)) only
              ],
            )
      ]
