-- ===== src/Ingestion/Search.antt =====
-- app/services/ingestion/search_recovery.py: the entries that ask for the deletion of records in
-- the search index, and the activation of published ones. `now` is the time of the transaction.
-- `FOR UPDATE SKIP LOCKED` skips no row here, since transactions follow one another.
pub mod Enqueued
pub mod Leased
pub mod Quiet
pub mod Fence
pub mod Activations
use text.Mathlib.Text.{◌==◌ as str_eq}
use atlas_rag.Common.{
  ℕ, Option, String, Bool, none, List, some, ◌+◌, if◌then◌else◌, ◌&&◌, ◌==◌, any, true, false, ltb,
  update_where, leb, ◌∷◌, same_option, suc, ◌||◌, [],
}
use atlas_rag.Database.{SearchTarget, PublicationAttempt, Uuid, SearchCleanup, CleanupState, Store}
use atlas_rag.Database.Session.{Session, pure, modify, ◌>>◌, ◌>>=◌, gets}
use atlas_rag.Ingestion.NativeJobs.Finish.{is_owner}

unfoldable pub same_target : SearchTarget → SearchTarget → Bool
same_target a b = str_eq a.name b.name && str_eq a.version b.version

unfoldable pub same_attempt : PublicationAttempt → PublicationAttempt → Bool
same_attempt a b = (a.job_id == b.job_id) && (a.attempt_number == b.attempt_number)

unfoldable pub same_id : Uuid → Uuid → Bool
same_id a b = a == b

-- `uq_search_cleanup_target`, where nulls are not distinct.
unfoldable pub is_cleanup_of : SearchCleanup → SearchCleanup → Bool
unfolding same_target same_attempt same_id
is_cleanup_of new e =
    (e.tenant_id == new.tenant_id)
    && (e.collection_id == new.collection_id)
    && (e.document_version_id == new.document_version_id)
    && same_option same_id e.activation_version_id new.activation_version_id
    && same_option same_attempt e.publication new.publication
    && same_target e.target new.target

pub record SearchTargetPublication : Type 0 where
  pub target : SearchTarget
  pub record_count : ℕ
  pub publication : Option PublicationAttempt

-- The row of `enqueue_cleanup`: the columns that are not named have their defaults.
unfoldable pub new_cleanup :
    (cleanup_id tenant_id collection_id document_version_id : Uuid)
    → SearchTargetPublication
    → (activation_version_id : Option Uuid) → (now : ℕ) → SearchCleanup
new_cleanup k tenant_id collection_id document_version_id p activation_version_id now = record {
  id = k;
  tenant_id = tenant_id;
  collection_id = collection_id;
  document_version_id = document_version_id;
  activation_version_id = activation_version_id;
  publication = p.publication;
  target = p.target;
  state = CleanupState.pending;
  attempt_count = 0;
  lease_owner = none;
  lease_expires_at = none;
  last_reason_code = none;
  deleted_at = none;
  updated_at = now;
}

-- `INSERT INTO search_cleanup_entries ... ON CONFLICT DO NOTHING`
unfoldable pub insert_cleanup : SearchCleanup → Store → Store
insert_cleanup new s =
    if any (is_cleanup_of new) s.cleanups then s else record s { cleanups = new ∷ s.cleanups }

-- `enqueue_cleanup` for each publication, with the id that is made for it.
unfoldable pub enqueue_cleanups :
    (cleanup_id : ℕ → Uuid)
    → (tenant_id collection_id document_version_id : Uuid) → List SearchTargetPublication
    → (activation_version_id : Option Uuid) → (now : ℕ) → Store
    → Store
unfolding new_cleanup insert_cleanup
enqueue_cleanups cleanup_id t c v [] activation now s = s
enqueue_cleanups cleanup_id t c v (p ∷ ps) activation now s =
    enqueue_cleanups (λ n. cleanup_id (suc n)) t c v ps activation now
      (insert_cleanup (new_cleanup (cleanup_id 0) t c v p activation now) s)

-- `CAST(:k AS uuid) IS NULL OR column = :k`
abbrev pub is_in_scope : (wanted : Option Uuid) → (column : Option Uuid) → Bool
is_in_scope none column = true
is_in_scope (some k) none = false
is_in_scope (some k) (some c) = c == k

abbrev pub is_over : (now : ℕ) → Option ℕ → Bool
is_over now none = false
is_over now (some expires) = leb expires now

-- `state = 'pending' OR (state = 'running' AND lease_expires_at <= now())`
abbrev pub is_open_cleanup : (now : ℕ) → CleanupState → Option ℕ → Bool
is_open_cleanup now CleanupState.pending expires = true
is_open_cleanup now CleanupState.running expires = is_over now expires
is_open_cleanup now _ expires = false

-- The rows that `claim_cleanup` looks for.
unfoldable pub is_candidate :
    (now : ℕ) → (activation_version_id document_version_id : Option Uuid) → SearchCleanup → Bool
is_candidate now activation version e =
    is_open_cleanup now e.state e.lease_expires_at
    && is_in_scope activation e.activation_version_id
    && is_in_scope version (some e.document_version_id)

-- `ORDER BY updated_at, id LIMIT 1`
unfoldable pub older : SearchCleanup → SearchCleanup → Bool
older a b = ltb a.updated_at b.updated_at || ((a.updated_at == b.updated_at) && leb a.id b.id)

abbrev pub older_of : SearchCleanup → Option SearchCleanup → SearchCleanup
older_of e none = e
older_of e (some other) = if older e other then e else other

unfoldable pub oldest : (SearchCleanup → Bool) → List SearchCleanup → Option SearchCleanup
oldest p [] = none
oldest p (e ∷ entries) = let rest = oldest p entries in if p e then some (older_of e rest) else rest

unfoldable pub update_cleanup : Uuid → (SearchCleanup → SearchCleanup) → Store → Store
update_cleanup k f s = record s { cleanups = update_where (λ e. e.id == k) f s.cleanups }

abbrev pub reason_or : (default : String) → Option String → Option String
reason_or default none = some default
reason_or default (some reason) = some reason

unfoldable pub exhausted_cleanup : (now : ℕ) → SearchCleanup → SearchCleanup
exhausted_cleanup now e = record e {
  state = CleanupState.failed;
  lease_owner = none;
  lease_expires_at = none;
  last_reason_code = reason_or "SEARCH_CLEANUP_RETRY_EXHAUSTED" e.last_reason_code;
  updated_at = now;
}

abbrev pub exhaust_entry : (now : ℕ) → Option SearchCleanup → Store → Store
exhaust_entry now none s = s
exhaust_entry now (some e) s = update_cleanup e.id (exhausted_cleanup now) s

-- The first statement of `claim_cleanup`.
unfoldable pub exhaust_cleanup :
    (now max_attempts : ℕ)
    → (activation_version_id document_version_id : Option Uuid) → Store
    → Store
exhaust_cleanup now max_attempts activation version s =
    exhaust_entry now
      (oldest (λ e. leb max_attempts e.attempt_count && is_candidate now activation version e)
        s.cleanups)
      s

unfoldable pub leased_cleanup : (worker_id : String) → (now d : ℕ) → SearchCleanup → SearchCleanup
leased_cleanup worker_id now lease_duration e = record e {
  state = CleanupState.running;
  attempt_count = e.attempt_count + 1;
  lease_owner = some worker_id;
  lease_expires_at = some (now + lease_duration);
  updated_at = now;
}

pub record SearchCleanupClaim : Type 0 where
  pub id : Uuid
  pub tenant_id : Uuid
  pub collection_id : Uuid
  pub document_version_id : Uuid
  pub activation_version_id : Option Uuid
  pub target : SearchTarget
  pub attempt_number : ℕ
  pub publication : Option PublicationAttempt

unfoldable pub cleanup_claim : SearchCleanup → SearchCleanupClaim
cleanup_claim e = record {
  id = e.id;
  tenant_id = e.tenant_id;
  collection_id = e.collection_id;
  document_version_id = e.document_version_id;
  activation_version_id = e.activation_version_id;
  target = e.target;
  attempt_number = e.attempt_count;
  publication = e.publication;
}

-- The second statement of `claim_cleanup`, by the row that it finds.
abbrev pub lease_entry :
    (worker_id : String)
    → (now lease_duration : ℕ) → Option SearchCleanup
    → Session (Option SearchCleanupClaim)
lease_entry worker_id now lease_duration none = pure none
lease_entry worker_id now lease_duration (some e) =
    modify (update_cleanup e.id (leased_cleanup worker_id now lease_duration))
    >> pure (some (cleanup_claim (leased_cleanup worker_id now lease_duration e)))

unfoldable pub claim_cleanup :
    (worker_id : String)
    → (now lease_duration max_attempts : ℕ)
    → (activation_version_id document_version_id : Option Uuid)
    → Session (Option SearchCleanupClaim)
claim_cleanup worker_id now lease_duration max_attempts activation version = do
  modify (exhaust_cleanup now max_attempts activation version)
  candidate ← gets (λ s.
      oldest (λ e. ltb e.attempt_count max_attempts && is_candidate now activation version e)
        s.cleanups)
  lease_entry worker_id now lease_duration candidate

abbrev pub is_deleted_cleanup : CleanupState → Bool
is_deleted_cleanup CleanupState.deleted = true
is_deleted_cleanup _ = false

abbrev pub is_running_cleanup : CleanupState → Bool
is_running_cleanup CleanupState.running = true
is_running_cleanup _ = false

-- `WHERE id AND state = 'running' AND lease_owner AND attempt_count`
unfoldable pub owns_cleanup : SearchCleanupClaim → (worker_id : String) → SearchCleanup → Bool
owns_cleanup claim worker_id e =
    (e.id == claim.id)
    && is_running_cleanup e.state
    && is_owner worker_id e.lease_owner
    && (e.attempt_count == claim.attempt_number)

unfoldable pub deleted_cleanup : (now : ℕ) → SearchCleanup → SearchCleanup
deleted_cleanup now e = record e {
  state = CleanupState.deleted;
  deleted_at = some now;
  lease_owner = none;
  lease_expires_at = none;
  last_reason_code = none;
  updated_at = now;
}

unfoldable pub complete_cleanup :
    SearchCleanupClaim → (worker_id : String) → (now : ℕ) → Store → Store
complete_cleanup claim worker_id now s = record s {
  cleanups = update_where (owns_cleanup claim worker_id) (deleted_cleanup now) s.cleanups;
}

unfoldable pub retried_cleanup :
    SearchCleanupClaim
    → (max_attempts : ℕ) → (reason_code : String) → (now : ℕ) → SearchCleanup
    → SearchCleanup
retried_cleanup claim max_attempts reason_code now e = record e {
  state =
      if leb max_attempts claim.attempt_number then CleanupState.failed else CleanupState.pending;
  lease_owner = none;
  lease_expires_at = none;
  last_reason_code = some reason_code;
  updated_at = now;
}

unfoldable pub retry_cleanup :
    SearchCleanupClaim
    → (worker_id : String) → (max_attempts : ℕ) → (reason_code : String) → (now : ℕ) → Store
    → Store
retry_cleanup claim worker_id max_attempts reason_code now s = record s {
  cleanups =
      update_where (owns_cleanup claim worker_id)
        (retried_cleanup claim max_attempts reason_code now) s.cleanups;
}
