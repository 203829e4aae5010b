-- ===== src/Persistence/Models.antt =====
-- src/persistence/models.py: a record for each table. A row's id and its time of creation are
-- given to the insert (the source draws a UUID and reads the clock).
use eu_ai_act_compliance.Prelude.{ℕ, String, Option}
use eu_ai_act_compliance.Calendar.{Date, DateTime}
use eu_ai_act_compliance.Schemas.Enums.ActorRole.{ActorRole}
use eu_ai_act_compliance.Schemas.Enums.Severity.{IncidentSeverity}
use eu_ai_act_compliance.Schemas.Enums.UserRole.{UserRole}

pub record SourceDocument : Type 0 where
  pub id : String
  pub source_key : String
  pub celex_id : String
  pub official_title : String
  pub oj_reference : String
  pub date_of_act : Date
  pub date_published : Date
  pub date_entry_into_force : Date
  pub source_url : String
  pub raw_fetch_sha256 : String
  pub retrieved_at : DateTime
  pub created_at : DateTime

pub record LegalProvision : Type 0 where
  pub id : String
  pub source_document_id : String
  pub citation : String
  pub heading : Option String
  pub text : String
  pub effective_date : Date
  pub version : ℕ
  pub superseded_by_id : Option String
  pub created_at : DateTime

pub record Requirement : Type 0 where
  pub id : String
  pub requirement_key : String
  pub version : ℕ
  pub summary : String
  pub primary_provision_id : String
  pub superseded_by_id : Option String
  pub created_at : DateTime

pub record ApplicabilityCondition : Type 0 where
  pub id : String
  pub requirement_id : String
  pub actor_role : Option ActorRole
  pub sector : Option String
  pub annex_iii_category : Option String
  pub temporal_start : Date
  pub temporal_end : Option Date

pub record LegalException : Type 0 where
  pub id : String
  pub requirement_id : String
  pub description : String
  pub source_provision_id : String

pub record FrameworkCrosswalk : Type 0 where
  pub id : String
  pub requirement_id : String
  pub framework_name : String
  pub citation : String
  pub citation_text : String
  pub source_url : String
  pub created_at : DateTime

pub data RetrievalMethod : Type 0 where
  manual automated : RetrievalMethod

pub data EntityType : Type 0 where
  source_document provision requirement : EntityType

pub record ProvenanceRecord : Type 0 where
  pub id : String
  pub entity_type : EntityType
  pub entity_id : String
  pub source_document_id : String
  pub retrieved_at : DateTime
  pub retrieval_method : RetrievalMethod
  pub url : String
  pub created_at : DateTime

pub record Tenant : Type 0 where
  pub id : String
  pub name : String
  pub created_at : DateTime

pub record User : Type 0 where
  pub id : String
  pub tenant_id : String
  pub email : String
  pub password_hash : String
  pub role : UserRole
  pub created_at : DateTime

pub record AiSystem : Type 0 where
  pub id : String
  pub tenant_id : Option String
  pub name : String
  pub description : Option String
  pub owner_note : Option String
  pub created_at : DateTime

pub record Incident : Type 0 where
  pub id : String
  pub tenant_id : Option String
  pub ai_system_id : String
  pub severity : IncidentSeverity
  pub description : String
  pub detected_at : Date
  pub reported_at : Option DateTime
  pub created_at : DateTime
  pub created_by_user_id : Option String
  pub resolved_by_user_id : Option String

-- The token totals and the latency are numbers; a latency counts nanoseconds.
pub record AssessmentRecord : Type 0 where
  pub id : String
  pub tenant_id : Option String
  pub ai_system_id : Option String
  pub created_by_user_id : Option String
  pub created_at : DateTime
  pub as_of : Date
  pub legal_knowledge_source_key : String
  pub facts_json : String
  pub classification_json : String
  pub obligations_json : String
  pub evidence_assessments_json : String
  pub gaps_json : String
  pub review_flags_json : String
  pub llm_calls_json : String
  pub total_input_tokens : ℕ
  pub total_output_tokens : ℕ
  pub total_latency_ms : ℕ
  pub error : Option String
