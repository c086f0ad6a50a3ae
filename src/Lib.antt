-- ===== src/Lib.antt =====
-- Verification of atlas-rag, a service that ingests documents for retrieval.
--
-- The program and its model. A client registers a document version, uploads its file and asks for
-- lifecycle operations through an HTTP API; workers claim jobs from PostgreSQL, parse, recognise,
-- chunk, embed and publish the document, and move its version from state to state. Everything that
-- must be right about this stands in the database: the row of a version with its state, its revision
-- and its progress, the trail of its transitions, the jobs with their leases, and the attempts. The
-- model is that core.
--
-- - Catalog.Enums, Catalog.StateMachine: app/services/catalog/enums.py and state_machine.py. Every
--   table and every check is a definition; an error is a value of `TransitionError`. Edges describes
--   the diagram of states as a relation, Accepted the acceptance of a change, Lifecycle the histories
--   of accepted changes, Publishable that the pipeline has no dead end.
-- - Database, Database.Session: the rows (migrations/versions), one `Store` of tables as lists, and
--   the statements as functions `Store -> Result ServiceError (A x Store)`. A raise discards the
--   store, as the rollback of app/core/database.py does. The unique constraints and the trigger on
--   document versions are conditions of the inserting and updating functions.
-- - Catalog.Versions, Catalog.Transitions: get_version of app/services/catalog/repository.py,
--   transition_catalog_version and create_ingestion_job of operation_transitions.py. Audit says what a
--   complete trail is; Recorded and Operations.Jobs hold the theorems.
-- - Catalog.Operations: complete_upload of operations_repository.py, with the helper functions in the
--   order of its branches. Uploads and Completed follow its parts.
-- - Catalog.Reprocessing, Catalog.Lifecycle: create_reprocessed_version of reprocessing_repository.py
--   and lifecycle_request of operations_repository.py, with what a cancellation does in Cancelled.
-- - Ingestion.NativeJobs: claim, succeed, fail_permanently and schedule_retry of
--   app/services/ingestion/repository.py with the helpers of repository_support.py. Claimed,
--   Fence, Lease and Audited hold the theorems; Lease has the automaton that the claims and the ends
--   implement. Ingestion.Retry: _retry_delay and _retry_or_fail of service.py.
-- - Catalog.Registration: create_collection, get_collection and register_document of
--   app/services/catalog/repository.py with document_registration.py, and in Recovery
--   the two transactions of register_document in service.py. Registered, Quotas, Repeated and Trails
--   hold the theorems.
-- - Catalog.Service: complete_upload of app/services/catalog/service.py, with the object store's
--   answer and the dispatcher as arguments; Checked says which uploads it accepts.
-- - Ingestion.NativeJobs.Successor: pending_successor and defer_job_dispatch. Ingestion.Ocr: claim and
--   succeed_ocr of ocr_repository.py, on top of the native jobs.
-- - Ingestion.Publication: the claim of publication_claim.py and publication_retry.py (Delay); Inputs
--   says what a granted claim can rely on. Its lineage follows at most a hundred reprocessings, as the
--   query does.
-- - Ingestion.Publication.Artifacts: succeed_chunk and succeed_embedding of
--   publication_artifact_repository.py. Evidence: publication_evidence.py. Index:
--   begin_index_attempt and prepare_index of publication_repository.py. Activation:
--   lock_index_for_activation and finalize_index of publication_repository.py, publication_promotion.py
--   and the transaction of publication_activation.py; its Steps, Revoked, Promoted and Activated follow
--   what an activation leaves in each table. Joined and System.Joined speak of the keys of the chunks
--   and the publications.
-- - Ingestion.Search: the statements of search_recovery.py on the entries that ask for a deletion in
--   the search index; Leased and Fence speak of their leases, Enqueued of what is enqueued. Its
--   Activations holds the query of search_recovery_sql.py, and Waiting its theorem.
-- - Ingestion.Chunking: _chunk_page and _block_bounds of app/services/ingestion/chunking.py, Manifest
--   its write_chunk_manifest and iter_chunk_manifest. The tokenizer, the hash, the UUID of a name and
--   str.isspace are arguments; of the tokenizer its documented promise on offsets is a hypothesis.
-- - Database.Leads, Database.Quiet: what a block of statements leads to, step by step.
--   Catalog.Transitions.Kept, Catalog.Lifecycle.Audited, Ingestion.NativeJobs.Audited,
--   Ingestion.Ocr.Audited and Ingestion.Publication.Audited apply it to the blocks, for the trails.
-- - System: the transactions of the API and of the workers as commands, and any sequence of them; the
--   workers of deletion and reconciliation are not among them.
-- - Tests: concrete runs, and the theorems at concrete inputs.
--
-- How the code is read. A UUID is its number, and the ids that uuid4 makes are arguments, so a block
-- is a function of what it reads. The time of a transaction is an argument. FOR UPDATE makes the
-- blocks that touch one row run one after another, so a block is one step on the store, and an
-- interleaving is a sequence of such steps. Numbers are unbounded, as in Python; the columns are
-- BIGINT or INTEGER and nothing modelled comes near their limits. Progress is an integer, for the code
-- refuses negative values itself. The recursions are on lists; the loop over the windows of a page has
-- the number of its tokens as fuel, and every round but the last drops one token at least, so that the
-- windows that it gives are all of them.
--
-- What is not modelled. Columns that no modelled statement reads, SQL itself, the network, files, the
-- PDF library, the OCR and the embedding providers, the search engine, the HTTP routes, telemetry and
-- configuration; the deletion of documents and reconciliation. A line of a manifest stands for the
-- JSON that it encodes. The trigger enforce_ready_publication is left out: an activation has checked
-- evidence of the same kind, and the trigger can only refuse. The patterns on the names of search
-- targets are left out too, so a SearchTarget stands for one that has passed them.
pub mod Common
pub mod Catalog
pub mod Database
pub mod Ingestion
pub mod System
pub mod Tests
