-- ===== src/Incidents/Article73.antt =====
-- src/incidents/registry.py: what a summary says of an incident, and the order of a list, apart from how
-- they are computed.
use eu_ai_act_compliance.Prelude.{
  ℕ, String, Bool, true, false, not, ◌&&◌, List, [], ◌∷◌, Option, none, some, ◌≡◌, ◌≢◌, ◌↔◌, ◌⊎◌,
  inl, inr, refl, sym, arith, All, is_some, Option-cases,
}
use eu_ai_act_compliance.Prelude.Sort.{IsSorted}
use eu_ai_act_compliance.Result.{ok, ok_injective, >>=-eq-ok}
use eu_ai_act_compliance.Calendar.{Date, DateTime, add_days, lt}
use eu_ai_act_compliance.Schemas.Enums.Severity.{
  IncidentSeverity, death_or_serious_health_harm, critical_infrastructure_disruption,
  fundamental_rights_infringement, property_or_environment_harm, widespread_infringement,
}
use eu_ai_act_compliance.Persistence.Engine.{Engine}
use eu_ai_act_compliance.Persistence.Models.{Incident}
use eu_ai_act_compliance.Persistence.Tenancy.{SessionInfo}
use eu_ai_act_compliance.Legal.Store.{LegalStore}
use eu_ai_act_compliance.Legal.Queries.{find_provision_text_by_citation}
use eu_ai_act_compliance.Incidents.{
  IncidentSummary, severity_deadline_days, severity_citations, severity_labels, text_or, to_summary,
  more_urgent,
}

-- The days that Article 73 gives for a severity, the paragraph that does, and the name of the severity.
pub data Article73 : IncidentSeverity → (days : ℕ) → (citation label : String) → Type 0 where
  default_rights :
      Article73 fundamental_rights_infringement 15 "Article 73(2)"
        "Infringement of fundamental-rights obligations"
  default_property :
      Article73 property_or_environment_harm 15 "Article 73(2)"
        "Serious harm to property or the environment"
  at_once_widespread :
      Article73 widespread_infringement 2 "Article 73(3)"
        "Widespread infringement (cross-border, multiple people affected)"
  at_once_infrastructure :
      Article73 critical_infrastructure_disruption 2 "Article 73(3)"
        "Serious, irreversible disruption to critical infrastructure"
  in_ten_days :
      Article73 death_or_serious_health_harm 10 "Article 73(4)"
        "Death or serious harm to a person's health"

Article73-tables :
    (v : IncidentSeverity)
    → Article73 v (severity_deadline_days v) (severity_citations v) (severity_labels v)
unfolding severity_deadline_days severity_citations severity_labels
Article73-tables death_or_serious_health_harm = in_ten_days
Article73-tables critical_infrastructure_disruption = at_once_infrastructure
Article73-tables fundamental_rights_infringement = default_rights
Article73-tables property_or_environment_harm = default_property
Article73-tables widespread_infringement = at_once_widespread

Article73-unique :
    {v : IncidentSeverity} {days : ℕ} {citation label : String}
    → Article73 v days citation label
    → (severity_deadline_days v ≡ days)
      × (severity_citations v ≡ citation)
      × (severity_labels v ≡ label)
unfolding severity_deadline_days severity_citations severity_labels
Article73-unique default_rights = (refl, refl, refl)
Article73-unique default_property = (refl, refl, refl)
Article73-unique at_once_widespread = (refl, refl, refl)
Article73-unique at_once_infrastructure = (refl, refl, refl)
Article73-unique in_ten_days = (refl, refl, refl)

-- The text of a provision, or that there is none, where the provision is missing or empty.
abbrev pub Quoted : Option String → (quote : String) → Type 0
Quoted none quote = quote ≡ "Full text unavailable."
Quoted (some text) quote =
    ((text ≡ "") × (quote ≡ "Full text unavailable.")) ⊎ ((text ≢ "") × (quote ≡ text))

Quoted-text_or : (text : Option String) → Quoted text (text_or text "Full text unavailable.")
unfolding text_or
Quoted-text_or none = refl
Quoted-text_or (some String.[]) = inl (refl, refl)
Quoted-text_or (some (String.◌∷◌ c s)) = inr ((λ e. cc), refl)

Quoted-unique :
    (text : Option String) (quote : String)
    → Quoted text quote
    → text_or text "Full text unavailable." ≡ quote
unfolding text_or
Quoted-unique none quote h = sym h
Quoted-unique (some String.[]) quote h = elim h [
  | inl (e, q) ↦ sym q
  | inr (apart, q) ↦ absurd (apart refl)
]
Quoted-unique (some (String.◌∷◌ c s)) quote h = elim h [
  | inl (e, q) ↦ absurd (cc)
  | inr (apart, q) ↦ sym q
]

overdue_iff :
    (reported : Option DateTime) (late : Bool)
    → ((not (is_some reported) && late) ≡ true) ↔ ((reported ≡ none) × (late ≡ true))
overdue_iff none late = (λ h. (refl, h), λ h. h.1)
overdue_iff (some t) late = (λ h. cc, λ h. absurd (let z = h.0 in cc))

same_test : (a b : Bool) → ((a ≡ true) ↔ (b ≡ true)) → a ≡ b
same_test true b h = sym (h.0 refl)
same_test false true h = h.1 refl
same_test false false h = refl

module _ (engine : Engine) (store : LegalStore) (info : SessionInfo) where
  -- What a summary says of an incident on a day.
  pub record IsSummary (today : Date) (i : Incident) (s : IncidentSummary) : Type 0 where
    pub id : s.id ≡ i.id
    pub of_system : s.ai_system_id ≡ i.ai_system_id
    pub severity : s.severity ≡ i.severity
    pub description : s.description ≡ i.description
    pub detected : s.detected_at ≡ i.detected_at
    pub reported : s.reported_at ≡ i.reported_at
    pub creator : s.created_by_user_id ≡ i.created_by_user_id
    pub resolver : s.resolved_by_user_id ≡ i.resolved_by_user_id
    pub days : ℕ
    pub tier : Article73 i.severity days s.citation s.severity_label
    pub due : add_days days i.detected_at ≡ ok s.deadline
    pub overdue : (s.is_overdue ≡ true) ↔ ((i.reported_at ≡ none) × (lt s.deadline today ≡ true))
    pub quote : Quoted (find_provision_text_by_citation engine store "Article 73") s.citation_text

  pub IsSummary-to_summary :
      (today : Date) (i : Incident) (s : IncidentSummary)
      → to_summary engine store info today i ≡ ok s
      → IsSummary today i s
  unfolding to_summary
  IsSummary-to_summary today i s h =
      let (deadline, due, last) =
        >>=-eq-ok (add_days (severity_deadline_days i.severity) i.detected_at) _ h in
      rw (← ok_injective last) (record {
        id = refl;
        of_system = refl;
        severity = refl;
        description = refl;
        detected = refl;
        reported = refl;
        creator = refl;
        resolver = refl;
        days = severity_deadline_days i.severity;
        tier = Article73-tables i.severity;
        due = due;
        overdue = overdue_iff i.reported_at (lt deadline today);
        quote = Quoted-text_or _;
      })

  pub to_summary-IsSummary :
      (today : Date) (i : Incident) (s : IncidentSummary)
      → IsSummary today i s
      → to_summary engine store info today i ≡ ok s
  unfolding to_summary
  to_summary-IsSummary today i s p =
      let (days, citation, label) = Article73-unique p.tier in
      let overdue : (not (is_some i.reported_at) && lt s.deadline today) ≡ s.is_overdue =
        same_test _ _ (
          (λ h. p.overdue.1 ((overdue_iff i.reported_at (lt s.deadline today)).0 h)),
          λ h. (overdue_iff i.reported_at (lt s.deadline today)).1 (p.overdue.0 h),
        ) in
      rw
        (
          days,
          p.due,
          citation,
          label,
          overdue,
          Quoted-unique _ _ p.quote,
          ← p.id,
          ← p.of_system,
          ← p.severity,
          ← p.description,
          ← p.detected,
          ← p.reported,
          ← p.creator,
          ← p.resolver,
        )
        refl

  -- An entry may stand before another: it is not reported where the other is not, and of two that are both
  -- reported or both unreported its deadline is not the later one.
  pub record MayPrecede (a b : IncidentSummary) : Type 0 where
    pub open_first : b.reported_at ≡ none → a.reported_at ≡ none
    pub sooner_first :
        is_some a.reported_at ≡ is_some b.reported_at → lt b.deadline a.deadline ≡ false

  abbrev pub MostUrgentFirst : List IncidentSummary → Type 0
  MostUrgentFirst [] = Unit
  MostUrgentFirst (s ∷ rest) = All (MayPrecede s) rest × MostUrgentFirst rest

  MayPrecede-more_urgent :
      (a b : IncidentSummary) → more_urgent engine store info b a ≡ false → MayPrecede a b
  unfolding more_urgent
  MayPrecede-more_urgent a b h = record {
    open_first = λ unreported. elim (Option-cases a.reported_at) [
      | inl q ↦ q
      | inr (t, q) ↦ absurd (let z = rw (unreported, q) at h in cc)
    ];
    sooner_first = λ same. ground arith;
  }

  All-MayPrecede :
      (a : IncidentSummary) (rest : List IncidentSummary)
      → All (λ b. more_urgent engine store info b a ≡ false) rest
      → All (MayPrecede a) rest
  All-MayPrecede a [] h = tt
  All-MayPrecede a (b ∷ rest) h = (MayPrecede-more_urgent a b h.0, All-MayPrecede a rest h.1)

  pub MostUrgentFirst-IsSorted :
      (summaries : List IncidentSummary)
      → IsSorted (more_urgent engine store info) summaries
      → MostUrgentFirst summaries
  MostUrgentFirst-IsSorted [] h = tt
  MostUrgentFirst-IsSorted (s ∷ rest) h =
      (All-MayPrecede s rest h.0, MostUrgentFirst-IsSorted rest h.1)
