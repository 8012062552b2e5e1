-- ===== src/Lib.antt =====
-- Astra Licensing Graph: the workflow that renews the licences of a company. A compliance case
-- moves through stages under control points; incoming mail moves through a processing pipeline; a
-- table of durable jobs drives the calls of Microsoft Graph; a calendar, recurrences and an
-- escalation ladder make the deadlines that open cases; and rules, written as conditions on the facts
-- of a company, say in which jurisdictions it needs a licence.
--
-- The parts, and where they are:
--   Licensing models app/licensing/stages.py with the enumerations of app/licensing/enums.py
--   (Stages, Transition) and `open_case` and `transition` of
--   app/services/compliance_case_service.py (CaseRows, CaseService). The service reads the forms, packets
--   and stage events of a case, asks `validate_transition`, and writes the case, an event and an
--   audit row; a `Store` holds those rows for one obligation. Every and Permitted read the stage
--   table; History, Reached, Control and Routes are about sequences of calls.
--   Email models app/domain/transitions.py (States) and app/services/email_state.py (Service): one
--   transaction over the email row, the event log, the audit log and the outbox. Legal, Pipeline,
--   Moved and Log are about single moves and sequences of calls.
--   Jobs models app/models/job.py with its unique indexes (Table), app/jobs/repository.py,
--   `record_failure` of app/jobs/service.py and `backoff_delay` of app/graph/retry.py (Requests for
--   `enqueue`, Queue for the rest). The table is a list of rows; a transaction that commits between the selects and the insert of
--   `enqueue` gives the insert another table; `claim_next` is told which rows others have locked.
--   Order, Claim, Enqueue, Spread and Attempts are about these operations.
--   Deadlines models app/deadlines/business_days.py (Holidays, Calendar), app/deadlines/recurrence.py
--   (Recurrence), app/deadlines/escalation.py with the default ladder of app/deadlines/rules.py
--   (Escalation), and `run_escalations`, `override_deadline` and `refresh_statuses` of
--   app/services/deadline_service.py for one deadline, with `record_notification` of
--   app/licensing/audit.py (Sweeps). Dates are ordinals (Dates). Search and Adjust are about the
--   calendar, Occurrences, Expansion and Expanded about recurrences, Keys, Windows and Climb about
--   escalations.
--   Requirements models app/requirements/conditions.py (Conditions for the language and its
--   validation, Comparisons for `_compare`, Evaluation for `evaluate` and its trace), the enumerations
--   of app/requirements/taxonomy.py and `summarize` of app/requirements/freshness.py (Taxonomy),
--   app/requirements/rules.py (Rules), and `evaluate_jurisdiction` of app/requirements/evaluator.py:
--   the rules that match (Reconcile), what they cite (Sources), and the checks on the sources with the
--   result (Evaluator). Validity, Validated, Information and Raising are about single conditions;
--   Ranked, Ordered, Backed and Conflicts are about rules and results.
--   Portals models app/portals/policies.py with the enumerations of app/portals/enums.py (Policies,
--   Vocabulary), the tables of app/models/portal.py (Rows), what the services share and
--   app/repositories/portal_jobs.py (Results, Governance), the calls on a run of
--   app/services/portal_run_service.py (RunService) and its snapshots (Snapshots, with
--   app/portals/discrepancies.py), app/services/portal_session_service.py (Sessions, Handoffs),
--   app/services/portal_entry_service.py (Entry) and app/services/submission_evidence_service.py
--   (HumanActions, Submission, Evidence). A `Store` holds the rows of one run with its compliance case, and a
--   recorded submission calls `transition` of Licensing. Steps puts the calls one after the other,
--   with what the browser worker writes between them; Outcomes, Sound, Writes, Withdrawn and the
--   modules that end in Kept are about what holds of the rows after each call, Bound, Governed,
--   Settled, Cleared, Reported, Advanced, Captured, Approved and Reopened about what an accepted
--   call found.
--
-- Choices: text is the library's String and is cut as the source cuts it. Times are whole seconds
-- and days are ordinals, as natural numbers; the clock, new ids and random draws are arguments. A
-- float is a natural number, so a delay is a whole number of seconds. A row that a method does not
-- read or write is left out of its state, and so are correlation ids and log lines. A database
-- transaction is a function from the rows to the rows after its commit, or to an error and the rows
-- as they were. A rule's conditions are a tree by the shape of the JSON; what they take from Python
-- (casefold, date.fromisoformat, re.search, str, and which patterns compile) are parameters, and a
-- TypeError that leaves the evaluation is `none`.
--
-- Bounds: `next_business_day` searches 30 days and the loop of a custom interval runs 400 rounds, as
-- in the source. The loop of `add_business_days` has no bound in the source and takes fuel; 30
-- rounds for each business day are enough on a calendar that has a business day in every 30 days.
--
-- Not modelled: the network, the language models, documents, HTTP, configuration and telemetry; and,
-- so far, the planning of deadlines from rules, the explanation texts of requirements, the creation of
-- portal runs and the browser worker, packets, communications and tasks. The hash of a snapshot, the
-- fingerprint of a value, the patterns that redact a message and str.upper are parameters.

pub mod Prelude
pub mod Licensing
pub mod Email
pub mod Jobs
pub mod Deadlines
pub mod Requirements
pub mod Portals
