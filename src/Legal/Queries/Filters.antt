-- ===== src/Legal/Queries/Filters.antt =====
-- src/legal/queries.py: what the filters of a query ask of a condition, apart from how they are written.
use eu_ai_act_compliance.Prelude.{
  String, true, Option, none, some, ◌≡◌, ◌↔◌, ◌⊎◌, inl, inr, refl, ap, Bool-cases, str_eq_iff,
}
use eu_ai_act_compliance.Calendar.{Date, le}
use eu_ai_act_compliance.Persistence.Models.{ApplicabilityCondition}
use eu_ai_act_compliance.Schemas.Enums.ActorRole
use eu_ai_act_compliance.Schemas.Enums.ActorRole.{ActorRole, any}
use eu_ai_act_compliance.Legal.Queries.{
  text_is, role_is, category_filter, role_filter, ends_on_or_after, date_filter,
}

-- A filter that is not given asks nothing.
abbrev pub ForCategory : Option String → ApplicabilityCondition → Type 0
ForCategory none c = Unit
ForCategory (some category) c = c.annex_iii_category ≡ some category

-- A condition without a role meets no filter by role.
abbrev pub ForRole : Option ActorRole → ApplicabilityCondition → Type 0
ForRole none c = Unit
ForRole (some role) c = (c.actor_role ≡ some role) ⊎ (c.actor_role ≡ some any)

-- The period is open at its end, or the day is not behind the end.
abbrev pub ReachesTo : Option Date → Date → Type 0
ReachesTo none day = Unit
ReachesTo (some end) day = le day end ≡ true

abbrev pub InForceOn : Option Date → ApplicabilityCondition → Type 0
InForceOn none c = Unit
InForceOn (some day) c = (le c.temporal_start day ≡ true) × ReachesTo c.temporal_end day

text_is_iff : (t : Option String) (text : String) → (text_is t text ≡ true) ↔ (t ≡ some text)
text_is_iff none text = (λ h. cc, λ e. cc)
text_is_iff (some s) text =
    (λ h. ap some ((str_eq_iff s text).0 h), λ e. (str_eq_iff s text).1 (cc))

role_is_iff : (r : Option ActorRole) (role : ActorRole) → (role_is r role ≡ true) ↔ (r ≡ some role)
role_is_iff none role = (λ h. cc, λ e. cc)
role_is_iff (some r) role =
    (λ h. ap some ((ActorRole.eq_iff r role).0 h), λ e. (ActorRole.eq_iff r role).1 (cc))

pub category_filter_iff :
    (category : Option String) (c : ApplicabilityCondition)
    → (category_filter category c ≡ true) ↔ ForCategory category c
category_filter_iff none c = (λ h. tt, λ h. refl)
category_filter_iff (some category) c = text_is_iff c.annex_iii_category category

pub role_filter_iff :
    (role : Option ActorRole) (c : ApplicabilityCondition)
    → (role_filter role c ≡ true) ↔ ForRole role c
role_filter_iff none c = (λ h. tt, λ h. refl)
role_filter_iff (some role) c = (
  λ h. elim (Bool-cases (role_is c.actor_role role)) [
    | inl q ↦ inl ((role_is_iff c.actor_role role).0 q)
    | inr q ↦ inr ((role_is_iff c.actor_role any).0 (rw q at h))
  ],
  λ h. elim h [
    | inl e ↦ let q = (role_is_iff c.actor_role role).1 e in rw q refl
    | inr e ↦
        let q = (role_is_iff c.actor_role any).1 e in
        elim (Bool-cases (role_is c.actor_role role)) [ inl p ↦ rw p refl | inr p ↦ rw p q ]
  ],
)

ends_on_or_after_iff :
    (end : Option Date) (day : Date) → (ends_on_or_after end day ≡ true) ↔ ReachesTo end day
ends_on_or_after_iff none day = (λ h. tt, λ h. refl)
ends_on_or_after_iff (some end) day = (λ h. h, λ h. h)

pub date_filter_iff :
    (day : Option Date) (c : ApplicabilityCondition) → (date_filter day c ≡ true) ↔ InForceOn day c
date_filter_iff none c = (λ h. tt, λ h. refl)
date_filter_iff (some day) c =
    let ends = ends_on_or_after_iff c.temporal_end day in
    elim (Bool-cases (le c.temporal_start day)) [
      | inl q ↦ rw q ((λ h. (refl, ends.0 h)), λ h. ends.1 h.1)
      | inr q ↦ rw q ((λ h. cc), λ h. absurd (let z = h.0 in cc))
    ]
