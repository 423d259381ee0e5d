-- ===== src/Lib.antt =====
-- The Underwriter (backend/underwriter): a service that writes put credit spreads. An Actuary prices
-- candidate spreads, a language model picks one, the Kernel adjudicates it, and what is approved is
-- sent to a broker; open policies are watched and closed; all of it is written to a ledger.
--
-- What is modelled, by file:
--
-- - Base: shared names, Boolean tests, lists, the result type of fallible code, and Base/Int, the
--   integers over the native natural numbers.
-- - Domain/Decimal (the `decimal` module as the program uses it), Domain/Money (domain/money.py),
--   Domain/Hashing (domain/hashing.py), Domain/Market (domain/market.py) and Domain/Proposal
--   (domain/proposal.py).
-- - Kernel/Limits (kernel/limits.py), Kernel/Context (kernel/context.py), Kernel/Rules and its
--   children (kernel/rules.py, one function per rule and the table RULES), Kernel/Sizing and
--   Kernel/Evaluate (kernel/kernel.py: compute_sizing, _guarded, _evaluate, evaluate) and
--   Kernel/Verdict (kernel/verdict.py: mint, sign, NonceRegistry, authorize).
-- - Audit/Ledger (audit/ledger.py): the rows, append and verify_chain; Audit/Chain and Audit/Seal hold
--   the proofs.
-- - Claims/Desk (claims/desk.py), with its specification in Claims/Precedence, and Claims/Pricing
--   (claims/pricing.py).
-- - Execution/Order (execution/order.py): the prices, the legs and the payload of an order, with the
--   proofs in Execution/Mirror and Execution/Price. `math.gcd` is Euclid's algorithm on fuel: the second
--   number falls at each step, so its successor is enough.
-- - Execution/Ports (execution/ports.py), Execution/Engine and Execution/Execute (execution/engine.py),
--   with the proofs in Execution/Attempts and Execution/Execute. The broker is a parameter that
--   answers or fails and moves a world on; every call of it is kept. The polling of an order runs on a
--   fuel, a field of the configuration; what is proved of the calls holds for every fuel, and
--   Execution/Polling says which fuel is enough.
-- - Cycle/Bootstrap (cycle/bootstrap.py: build_kernel_context), with its consequences in Cycle/Blind,
--   and Cycle/Rebuild (rebuild_proposal), with the proofs in Cycle/Roundtrip.
-- - Actuary/Thresholds, Actuary/Validation, Actuary/Formulas, Actuary/Pricing and Actuary/Engine (the
--   files of actuary, where Pricing is `_price_one` and Engine the enumeration), with the proofs in
--   Actuary/Split (the money of a spread), Actuary/Kept, Actuary/Made, Actuary/Walk, Actuary/Quality and
--   Actuary/Insurable. A sort is by insertion, which gives the list that Python's gives.
-- - Agent/Decision (agent/decision.py) and Agent/Underwriter (agent/underwriter.py), with the proofs in
--   Agent/Choice. The client, the prompt, the parser of the schema and the patterns are the fields of
--   the record `Model`; the two attempts are a recursion on what is left of them.
-- - Book/Rows (db/models.py), Book/Session, Book/Policies, Book/Inputs and Book/Verdicts
--   (cycle/recorder.py) and Book/Reserves (db/invariants.py): the session is its tables, as lists in the
--   order of insertion, and every record ends with an entry in the ledger of Audit. The proofs are in
--   Book/Effects, Book/Matched and Book/History.
-- - Cycle/Underwrite (cycle/underwrite.py): the phases of the cycle in their order, over the Actuary, the
--   underwriter, the Kernel, the execution engine and the book. A phase that raises leaves the state that
--   was committed before it. The proofs are in Cycle/Trades and Cycle/Recorded.
-- - Cycle/Manage (cycle/manage.py), with the proofs in Cycle/Closes.
-- - The proofs of the Kernel stand in the children of its modules and in Kernel/Solvency. Kernel/Scenario and
--   the Tests modules hold the concrete runs.
--
-- How the code is read. A function that may raise returns a `Result`. A decimal is a multiple of
-- 10^-28, an infinity, or not a number: a sum is exact, a product and a quotient are rounded half to
-- even at that place, where Python keeps 28 significant digits; Domain/Decimal says where the two
-- agree. A time is a number of microseconds, a date an ordinal. The random tokens are arguments, and what the interpreter's
-- libraries compute (JSON text, SHA-256, HMAC, the texts of decimals and times) are the fields of
-- the record `Platform`. The theorems on the ledger assume that a digest is not the empty text; nothing
-- else is assumed of them, and where a collision would break a property, the theorem says so in its
-- conclusion. Texts made for people only are left out.
--
-- Not modelled: the reconciliation, the scheduler and the replay of cycle, the
-- queries of db, which are next; the HTTP service, the adapters of the broker, of the data source and of
-- the model, and logging, which are input and output.
pub mod Actuary
pub mod Agent
pub mod Audit
pub mod Base
pub mod Book
pub mod Claims
pub mod Cycle
pub mod Domain
pub mod Execution
pub mod Kernel
