-- ===== src/Lib.antt =====
-- The EU AI Act compliance platform, a FastAPI service that classifies an AI system under the Act
-- with a language model, derives what its provider owes, assesses the evidence and reports the gaps.
--
-- The parts, and the files that model them. A function keeps its name in the model; paths are those
-- of the repository.
--   Schemas         schemas/*.py: the enumerations and the Pydantic models. Building a value runs the
--                   field constraints and the validators and gives a `Result`.
--   Calendar        Python's `date` as year, month and day; an instant counts microseconds.
--   Persistence     src/persistence/: Models has a record for each table of models.py, Engine is the
--                   database behind SQLAlchemy as a parameter, Tenancy is tenancy.py.
--   Legal           src/legal/: Queries (queries.py), Versioning (versioning.py), Deadlines
--                   (deadlines.py), UpdateAlerts (update_alerts.py), over the tables of Store; Ingest is
--                   ingest.py: the seeds of the corpus (Seeds), the rows that are added (Rows), the load
--                   of one source and one framework (Load) and the whole ingestion (Run).
--   Llm             src/llm/interface.py: one structured call with one retry, over any backend; Fake
--                   is fake_client.py.
--   Retrieval       src/retrieval/retrieval.py. Classification: src/classification/ and
--                   prompts/classifier/v1.py. Obligations: src/obligations/mapping.py. Evidence:
--                   src/evidence/ and prompts/evidence_assessor/v1.py. Gaps: src/gaps/compute.py.
--                   Review: src/review/triggers.py. These are the stages of the pipeline: the queries
--                   give the candidates that the model may cite, the classification gives the
--                   obligations, the evidence is assessed for each, and gaps and flags are computed.
--   Reporting       src/reporting/report.py, which packs the results of the stages.
--   Observability   src/observability/: Instrumentation is instrumented_client.py, a client around a
--                   client; Retention is retention.py; Serialization and AssessmentLog are
--                   serialization.py and assessment_log.py, the stored form of an assessment.
--   Systems, Incidents   src/systems/registry.py and src/incidents/registry.py.
--   Auth            src/auth/: Passwords (passwords.py), Sessions (sessions.py), Users (users.py).
--   Api             RateLimit is src/api/rate_limit.py; Access is src/api/auth.py, the look-up of the
--                   user that binds the tenant, over the reading of a session cookie; Routes has
--                   logging in and out (src/api/routers/auth_routes.py), the handlers that turn an
--                   exception into a page (src/api/main.py), and of src/api/routers/assessment.py the
--                   request for a report (Forms, Report) and the page of a past one (Pages).
--   Examples        small inputs at which the theorems are applied.
--   Builtins        what the source uses of Python's own types: the decimal form of an int, split and
--                   rsplit, the hexadecimal form of bytes, compare_digest.
--   Prelude, Result, Exec   lists, texts, exceptions as values, and code with a state that may raise.
--
-- State. A table is a list of rows and is passed through the operations that write it; a commit that
-- raises writes nothing. `session.info` is a record. Rows that a session reads pass the tenant
-- filter of Tenancy wherever the class is tenant owned, as the listener does it.
--
-- Parameters, which stand for code outside the repository: the database engine (a select gives a
-- permutation of the rows that pass its test, ORDER BY sorts), the language model's backend, the JSON
-- decoder of Pydantic and the texts that `repr` and `json.dumps` give (Rendering), LIKE, the UTF-8
-- codec, pypdf, python-docx, `str.lower`, PBKDF2, HMAC-SHA256, base64, the printers and parsers of a
-- stored assessment, and the files of the corpus. Ids, salts and clock readings are arguments.
--
-- Bounds. Every loop of the source is over a list, or counts down a number. Only the digits of a number
-- n are printed on fuel, which is n + 1: each digit divides by ten.
-- Numbers are unbounded as in Python; a year lies between 1 and 9999 and arithmetic that leaves this
-- range raises. Floats that are compared count units of 2^-1074, so comparison is exact. A score of
-- Retrieval is a quotient of two numbers and is compared by cross multiplication. The texts of
-- exceptions are shortened where nothing reads them.
--
-- Not modelled: the vendor's SDK, the connection to the database, migrations, templates, scripts and
-- the evaluation harness, which are I/O or data; the routes of
-- src/api/routers/assessment.py that classify a system, list and show systems, and file incidents, and
-- the public risk check.
-- `session.get` is a select by the primary key: SQLAlchemy's identity map, from which a session answers
-- for an object that it already holds, is left out.
pub mod Prelude
pub mod Result
pub mod Exec
pub mod Builtins
pub mod Schemas
pub mod Calendar
pub mod Persistence
pub mod Legal
pub mod Rendering
pub mod Llm
pub mod Retrieval
pub mod Classification
pub mod Obligations
pub mod Evidence
pub mod Gaps
pub mod Review
pub mod Reporting
pub mod Observability
pub mod Systems
pub mod Incidents
pub mod Auth
pub mod Api
pub mod Examples
