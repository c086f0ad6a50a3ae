-- ===== src/Tests/Cleanups.antt =====
-- The leases on the entry that an activation makes for the records that it replaces.
use atlas_rag.Common.{ℕ, refl, some, ◌≡◌, ◌≤◌, none, arith, ◌≢◌, Option, ◌∷◌}
use atlas_rag.Tests.Activation.{after_activation}
use atlas_rag.Tests.Pipeline.{pipeline, target}
use atlas_rag.Tests.Catalog.{store_of}
use atlas_rag.Ingestion.Search.Leased.{IsKeyed}
use atlas_rag.Ingestion.Search.Fence.{claim_cleanup_fences, claim_cleanup_excludes}
use atlas_rag.Ingestion.Search.{complete_cleanup, retry_cleanup, claim_cleanup, SearchCleanupClaim}
use atlas_rag.Common.Result.{Result, ok}
use atlas_rag.Database.{Store, CleanupState}
use atlas_rag.Database.Session.{ServiceError}

-- A worker takes the entry for the records that were replaced.
abbrev cleaning : Result ServiceError (Option SearchCleanupClaim × Store)
cleaning = claim_cleanup "worker-1" 200 60 3 (some 50) none after_activation

abbrev leased : Store
leased = store_of cleaning

abbrev cleanup : (attempt_number : ℕ) → SearchCleanupClaim
cleanup attempt_number = record {
  id = 500;
  tenant_id = 1;
  collection_id = 2;
  document_version_id = 7;
  activation_version_id = some 50;
  target = target "1";
  attempt_number = attempt_number;
  publication = some (record { job_id = 43; attempt_number = 1 });
}

is_leased : cleaning ≡ ok (some (cleanup 1), leased)
unfolding pipeline
is_leased = refl

after_activation-IsKeyed : IsKeyed after_activation.cleanups
unfolding pipeline
after_activation-IsKeyed = (tt, tt)

claim_cleanup_fences_example :
    (1 ≤ 3)
    × (complete_cleanup (cleanup 0) "worker-0" 210 leased ≡ leased)
    × (retry_cleanup (cleanup 0) "worker-0" 3 "SEARCH_CLEANUP_UNAVAILABLE" 210 leased ≡ leased)
claim_cleanup_fences_example =
    claim_cleanup_fences "worker-1" 200 60 3 (some 50) none after_activation leased (cleanup 1)
      (cleanup 0) "worker-0" 210 3 "SEARCH_CLEANUP_UNAVAILABLE" after_activation-IsKeyed is_leased
      refl (omega arith)

-- Two entries, which two workers claim.
abbrev two_entries : Store
two_entries = record after_activation {
  cleanups =
      (record {
        id = 501;
        tenant_id = 1;
        collection_id = 2;
        document_version_id = 7;
        activation_version_id = none;
        publication = none;
        target = target "0";
        state = CleanupState.pending;
        attempt_count = 0;
        lease_owner = none;
        lease_expires_at = none;
        last_reason_code = none;
        deleted_at = none;
        updated_at = 100;
      })
      ∷ after_activation.cleanups;
}

abbrev first_cleanup : SearchCleanupClaim
first_cleanup = record {
  id = 501;
  tenant_id = 1;
  collection_id = 2;
  document_version_id = 7;
  activation_version_id = none;
  target = target "0";
  attempt_number = 1;
  publication = none;
}

abbrev first_leased : Store
first_leased = store_of (claim_cleanup "worker-1" 200 60 3 none none two_entries)

abbrev both_leased : Store
both_leased = store_of (claim_cleanup "worker-2" 210 60 3 none none first_leased)

two_entries-IsKeyed : IsKeyed two_entries.cleanups
unfolding pipeline
two_entries-IsKeyed = (((λ e. absurd (omega (arith, e))), tt), (tt, tt))

claim_cleanup_excludes_example : (cleanup 1).id ≢ first_cleanup.id
unfolding pipeline
claim_cleanup_excludes_example =
    claim_cleanup_excludes "worker-1" 200 60 3 none none two_entries first_leased both_leased
      first_cleanup (cleanup 1) "worker-2" 210 60 3 none none two_entries-IsKeyed refl (omega arith)
      refl
