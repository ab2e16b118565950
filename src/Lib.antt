-- ===== src/Lib.antt =====
-- Verification of core services of the Mimir backend: the document workflow, the comparison of
-- versions, the access filters of scope profiles, idempotent writes, the evaluation of alerts, pages, cron
-- expressions, folders, the proposals of agents, and the throttling of view events.
--
-- The program is a web service over a relational database. Its routers call services, services call
-- repositories, repositories run SQL. The services modelled here keep their state in tables and in
-- dictionaries of the process; a table is the list of its rows, the oldest first, and a dictionary
-- the list of its entries. A call of a service is a function from the state to its result, or its
-- exception, and the new state. Since a transaction is undone by an exception, an exception leaves
-- the tables as they were.
--
-- The module Prelude: the shared names. Tests has Boolean tests on numbers, Lists the lists over native
-- numbers, Strings texts as code points, Dict Python's dictionary, Order the sorting of two texts,
-- Raises code that returns or raises, Rows membership in a table, Splitting Python's `strip` and `split`.
-- The module Workflow: app/domain/workflow and app/services/workflow_service.py. Enums and Policies are the
-- enumerations and the tables of transitions and permissions; Store has the tables and what the
-- action calls of app/repositories (workflow, documents, versions); Request the arguments, the
-- exceptions and the reading of roles and statuses; Service is `perform_action`, a chain of checks
-- (`check_action`) and then a chain of writes (`write_action`). Roles, Checks, Effects, Publish,
-- Trail and Approval hold the proofs.
-- The module Diff: app/services/diff_service.py with app/schemas/diff.py and app/models/node.py. Inline is the
-- text diff (`_tokenize`, `_lcs_diff`, `TextDiffer`), Node the comparison of nodes (`NodeDiffer`),
-- Summary the summaries (`DiffSummaryGenerator`), Cache the service with its two caches
-- (`DiffService`, `invalidate_cache_for_document`). Faithful, Complete, Classify, Sections,
-- Caching, Keys, Named, Invalidated, Coverage, Fresh, Table and Longest hold the proofs; Operations has the
-- sequences of calls.
-- The module Filter: Expression is app/models/scope_profile.py and the reading and filling in of
-- app/services/filter_expression.py; Sql its translation and `apply_scope_filter` of
-- app/mcp/scope_filter.py. Substituted, Slots, Placeholders and Scope hold the proofs.
-- The module Idempotency: Service is app/services/idempotency_service.py on the table of
-- app/repositories/idempotency_repository.py. Records, Retries and Isolation hold
-- the proofs.
-- The module Alerts: Evaluator is the loop of app/services/alert_evaluator.py on the history of
-- app/repositories/alert_repository.py. Firing holds the proofs.
-- The module Pages: Parse is app/api/query/pagination.py; Limits holds the proof.
-- The module Cron: app/services/cron_util.py. Field reads one field (`_parse_field`), Schedule is `validate` and
-- `next_run`. Values and Next hold the proofs.
-- The module Folders: app/services/folders_service.py on the tables of app/repositories/folders_repository.py. FolderPath
-- has the texts and SQL's LIKE, Store the rows, the constraints and the statements, Service the
-- operations. Prefix, Tree, Carried, Relocated, Renamed, Moved, Created, Filed, Sound, Steps and
-- Wildcards hold the proofs.
-- The module Proposals: app/services/agent_proposal_service.py. Store has the tables and the statements, Service the
-- reviews, the withdrawal and the rollback, Propose the two kinds of proposals, for an agent that
-- acts for itself. A column of times is kept where a review sets or clears it. Synced, Queue, Inserted,
-- Steps, Gaps and Replayed hold the proofs.
-- The module Throttle: Window is app/audit/viewed_throttle.py, its cache a list with the least recently set key
-- first. Refined holds the proof.
-- The modules named Tests apply the theorems to concrete data.
--
-- Bounds. All loops are structural. The rounds of `update` in Cron.Field are one for each number from
-- the start of a range to its end, which is enough for any step; the search of `next_run` has the
-- source's own number of rounds, the minutes of 4 * 365 days, one day short of four calendar years. `_find_top_section` recurses on the number of calls that its
-- depth limit of 50 still allows; that is the source's own limit, so no fuel is added. The limits of
-- the source (5000 characters, 1000000 cells, 10000 nodes, 10 sections, 255 characters of a key) are
-- constants of the model. Numbers are natural numbers, and integers where a page request gives them:
-- they do not wrap around.
--
-- Arguments of the definitions, for what is not the repository's: the order in which a Python set is
-- visited (`set_order`; a theorem that needs it supposes that the members and nothing else are
-- visited), the hash of a request (`digest`), what a JSON
-- column gives back for the data of a response (`as_stored`), the readings of the clock (`now`, `acted_at`), what the calendar says of a minute
-- (`calendar`), the ids that a call generates, the answer of the external store (`store`), the
-- floating-point comparisons, the metrics and the notifier (`Calls`), and whether the database
-- answers (`available`).
--
-- Left out: the routers, the SQL statements as texts except the access filters, the log messages, the
-- Korean sentences of a diff summary, search, retrieval and language-model calls, vectorization,
-- drafts, the administration of rules and profiles, and the concurrency of two
-- transactions: each call runs to its end before the next begins.
pub mod Prelude
pub mod Workflow
pub mod Diff
pub mod Filter
pub mod Idempotency
pub mod Alerts
pub mod Pages
pub mod Cron
pub mod Folders
pub mod Proposals
pub mod Throttle
