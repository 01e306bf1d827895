-- ===== src/Lib.antt =====
-- A verification library for uni, an assistant that keeps an owner's memory as claims and beliefs. The
-- repository's core is a set of TypeScript packages over one PostgreSQL database. A source yields
-- candidates, which packages/belief admits and commits as assessments of propositions; packages/memory
-- gives the propositions and the slots that they fill an identity, keeps the assessments over valid
-- time and recorded time, and tells how fresh a fact is; packages/capabilities calculates from
-- canonical values, money above all; packages/review decides when the owner is asked and learns rules
-- from the answers; packages/mentor keeps the owner's goals; packages/context puts the day's items
-- before them; packages/registry governs the contracts of frames and predicates; packages/connectors
-- keeps what the owner allowed each source; and packages/jobs runs the work that these enqueue.
--
-- Belief.Admission, Belief.Policy and Belief.Support model packages/belief/src/admission.ts, policy.ts
-- and support.ts: `selectAdmissionMode`, the three ports `evaluateMemoryWrite`, `evaluateMemoryRead`
-- and `evaluateMemoryAction`, and `findSupportCycle` with `independentSourceCount`. Belief.Assessments
-- models assessments.ts: verdicts that are appended, and the pass that finds derivations without live
-- inputs. Belief.Transactions models transactions.ts: Rows the tables and the operations, the module
-- itself the proposal, Contracts the registry contracts of a proposition, Validation
-- `buildValidationReport`, Operations `applyOperation`, and Commit the two database transactions of a
-- commit. They use the admission, the write port, the support graph and the assessments as the code
-- does. Belief.Conflicts models delta-conflicts.ts, which a commit ends with, over the overlay of
-- Memory.Overlay. Capabilities.Decimal and Capabilities.Money model packages/capabilities/src/money.ts
-- on the texts of amounts, Capabilities.Json and Capabilities.Values the readings of values.ts,
-- Capabilities.Canonical the display rule of canonical.ts, and Capabilities.Obligations
-- obligations.ts. Jobs models packages/jobs/src/index.ts: the table is a list of rows and each
-- operation is a function of it; Jobs.Rows has the lemmas on rows, Jobs.Constraints the constraints of
-- migrations/0007_jobs.sql, Jobs.Steps the relation of all operations, Jobs.Listing the view.
-- Memory.Bitemporal, Memory.Slots, Memory.Overlay and Memory.Aging model
-- packages/memory/src/bitemporal.ts, slots.ts, overlay.ts and aging.ts. Slots and propositions are two
-- instances, in Memory.Slots.Objects, of one set of operations. Review.Budgets, Review.Interruption
-- and Review.Rules model packages/review/src/budgets.ts, interruption.ts and rules.ts; Mentor.Goals
-- models packages/mentor/src/goals.ts; Registry.Migration models `classifyRegistryChange` of
-- packages/registry/src/migration.ts; and Context.Briefing models what the daily briefing shows and
-- recommends, in packages/context/src/ranking.ts. Connectors.Grants models
-- packages/connectors/src/grants.ts, and of sync.ts what a sync does to the connector: Creation
-- `createConnector`, Lifecycle the relation of the operations, Constraints the constraints of
-- migrations/0018_connector_capabilities_and_lifecycle.sql, Authority what a consent changes. Prelude
-- has what they share: tests and lists over the native numbers, integers, and the stable sort. The
-- modules named Tests, and Capabilities.Money.Examples, hold concrete inputs.
--
-- How the code is read. A function of the source has its name in snake case, and a record or an enum
-- its own name. A table of one owner scope is the list of its rows, an SQL statement is written out
-- over that list, and a transaction is one function: what it throws is a value of a result type, and
-- the state is lost with it, as the rollback loses it. A statement that reads the clock takes the
-- instant as an argument, and what mints an identifier takes the identifier. Identifiers, reasons and
-- other values that the code only compares are numbers. Instants are whole milliseconds, or seconds in
-- Jobs, and an exact decimal stands for a binary fraction in Review.Interruption. Hashes and the
-- parsing of dates are parameters. Amounts of money are texts with eighteen digits and six decimals at
-- most, so that all values lie below 10 ^ 24 millionths.
--
-- Fuel. Only the walk of `find_support_cycle` takes fuel, one more than the number of edges: a walk is
-- on a path without repetition, so it is never deeper than that, and its theorem says that it never
-- runs out. All else is structural recursion.
--
-- Not modelled: the database's access rules and encryption, the model gateway, extraction, the
-- providers of the connectors and the pages they send, storage, the HTTP API and the web application,
-- which are input and output around these packages; and, for now, merges and splits, the projections,
-- the corrections of the owner, the clarification inbox, the scores of the briefing and the selection
-- of context.
pub mod Prelude
pub mod Belief
pub mod Capabilities
pub mod Jobs
pub mod Memory
pub mod Review
pub mod Mentor
pub mod Registry
pub mod Context
pub mod Connectors
