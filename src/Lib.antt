-- ===== src/Lib.antt =====
-- The durable runtime of the parts bin and its inventory rules.
--
-- The program stores parts, reviewed evidence and agent conversations in one PostgreSQL database. A
-- message is accepted together with its delivery (db/postgres/dispatch.py), workers claim
-- deliveries and advance an execution stage by stage under a lease (db/postgres/execution.py),
-- provider webhooks and explicit resumes wake deliveries, and events are published once into
-- ordered conversations (db/postgres/conversations.py). A change of the inventory that an agent
-- proposes waits for an approval, and takes effect together with its receipt
-- (agent_runtime/approval.py).
--
-- Storage holds the rows of db/postgres/schema.sql as records (Storage/Rows, Storage/Parts), tables
-- as association lists under their primary keys with the SQL statements that the adapters use
-- (Storage/Table), and the body of a unit of work as a function of the database that returns a
-- result with the new database, or an exception, which rolls back (Storage/Tx). Units is one
-- attempt at a unit beside other sessions, with its commit and rollback, and the loops that retry
-- it (db/postgres/connection.py, domain/service.py, agent_runtime/approval.py).
--
-- Conversations, Outbox, Webhooks, Executions and Intake hold one function for each method of the
-- adapters, under the method's name. Runtime is the state machine whose steps are calls of those
-- methods, in any order and by anyone. Dispatch is what hosts and workers do with them
-- (agent_runtime/dispatch.py); the stage runtime behind the gateway is its interface `Gateway`.
-- Approvals is db/postgres/records.py and the approval engine; what it asks of the inventory and
-- its tools is the record `Tools`. Inventory is rows of parts (db/postgres/inventory.py) with their
-- reviews, provenance and electrical facts (Inventory/Reviews, Inventory/Facts), and the stock
-- operations of domain/service.py (Inventory/Stock). Normalization is domain/normalization.py:
-- which fields are accepted, how they are put in order and which identity they have. Service is the
-- rest of domain/service.py, one module for each kind of operation: Search, Identity, Adding,
-- Updating, Reviewing, Expressions, Checking, Nominal and Listing. Electrical is what the program
-- knows of ratings: Decimals (Python's `Decimal`) and Quantities (domain/quantities.py), Conditions
-- (domain/specification_conditions.py), and the fields, facts and requirements of
-- domain/specifications.py in Catalogue, Qualifiers, Specifications, Facts, Requirements and
-- Evaluation, over Entries (`dict`), Json and Results. Texts are Python's string functions and, in
-- Texts/Regex, the regular expressions that the code matches. Additions is the unit that adds parts
-- or stock under an operation's identity (tools/registry.py); the tool itself is its interface
-- `Adder`. Cache is the cache of enrichment results with its leases (db/postgres/cache.py). Pages
-- cuts search results into pages (domain/pagination.py), and Budgets cuts the history that the
-- model is given (agent_runtime/budgets.py).
--
-- Texts that the code only compares (identifiers, tokens, digests) are numbers, and 0 is the empty
-- text. Texts that the code formats as identities of events and approvals are the constructors of
-- `EventId` and `RequestId`. Texts that the code reads are lists of code points. Times are
-- microseconds, and each reading of a clock in a method is an argument of its function. JSON
-- columns hold the value that they encode. `parse_nominal` of domain/nominal.py and the reading of
-- a URL are the record `Readers`, of which nothing is assumed. Digits and letters without case are
-- those of ASCII. Rows that a search returns come in the order of the table. `uuid4` is an
-- argument. What other sessions commit between two units of one operation is an argument too.
--
-- No model takes fuel but the width of a numeral, which recurs on the numeral itself: every other
-- loop runs over a table, a list, a text or the attempts that the code allows.
--
-- A decimal is kept by its digits and the places behind its point, so that a positive exponent is
-- folded into the digits. Sums and differences within one interval are exact, since a text of at
-- most two hundred characters has fewer digits than the 220 of the context; other results are
-- rounded to them. A quotient has all of its places, where Python drops zeros at its end: its value
-- is the same. What a word is, where a range is split at `to`, is known for ASCII, Latin-1 and
-- Greek. `urlsplit` and `datetime.fromisoformat` are the record `Readers` of
-- Electrical/Facts/Checks.
--
-- Not modelled: `parse_nominal` and the display of domain/nominal.py, the operations of
-- domain/service.py that evaluate electrical requirements or call a fetcher, suggestions and
-- candidates by text, the stages of agent_runtime/runtime.py behind its gateway, and the ingestion,
-- photo, evaluation and HTTP layers.
pub mod Prelude
pub mod Storage
pub mod Samples
pub mod Conversations
pub mod Outbox
pub mod Webhooks
pub mod Executions
pub mod Intake
pub mod Runtime
pub mod Units
pub mod Approvals
pub mod Budgets
pub mod Pages
pub mod Inventory
pub mod Additions
pub mod Texts
pub mod Normalization
pub mod Service
pub mod Electrical
pub mod Dispatch
pub mod Cache
