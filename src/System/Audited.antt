-- ===== src/System/Audited.antt =====
-- app/services: the trails of the versions along any sequence of transactions.
use atlas_rag.System.{execute, done, block, Command, execute_all, new_database}
use atlas_rag.Database.Leads.{Keeps-transaction, Keeps, Leads-bind, Leads-pure, Leads-modify}
use atlas_rag.Catalog.Transitions.Kept.{IsQuiet-IsAudited, other_tables-IsAudited}
use atlas_rag.Database.Session.{Session, gets, ◌>>=◌, bind-eq-ok}
use atlas_rag.Catalog.Registration.{
  register_document, Registration, get_idempotent_version, repeat_or_register, register_new,
  get_collection, create_collection, CollectionRequest,
}
use atlas_rag.Database.{Principal, Uuid, Store, Collection, DocumentVersion}
use atlas_rag.Catalog.Versions.{find_version}
use atlas_rag.Common.{
  List, find, String, Bool, ◌∷◌, refl, Option, [], ℕ, inl, inr, true, Option-cases, Bool-cases, any,
  ◌==◌, arith,
}
use atlas_rag.Catalog.Transitions.Audit.{IsAudited, trail_of}
use atlas_rag.Ingestion.NativeJobs.Successor.{defer_job_dispatch}
use atlas_rag.Catalog.Operations.{Ids, complete_upload}
use atlas_rag.Catalog.Lifecycle.Audited.{lifecycle_request-IsAudited}
use atlas_rag.Ingestion.NativeJobs.Audited.Claiming.{claim-IsAudited}
use atlas_rag.Ingestion.NativeJobs.Audited.Ending.{end_attempt-IsAudited}
use atlas_rag.Ingestion.Ocr.Audited.{claim_ocr-IsAudited, succeed_ocr-IsAudited}
use atlas_rag.Catalog.Operations.Completed.{complete_upload-IsCompleted}
use atlas_rag.Catalog.Registration.Repeated.{get_collection-ok, repeat_registration-ok}
use atlas_rag.Catalog.Registration.Trails.{register_new-IsAudited}
use atlas_rag.Database.Quiet.{IsQuiet}
use atlas_rag.Ingestion.Publication.Audited.{claim_publication-IsAudited}
use atlas_rag.Ingestion.Search.{complete_cleanup, retry_cleanup}
use atlas_rag.Ingestion.Search.Activations.{complete_activation}
use atlas_rag.Ingestion.Publication.Artifacts.Audited.{
  succeed_chunk-IsAudited, succeed_embedding-IsAudited,
}
use atlas_rag.Ingestion.Publication.Activation.Audited.{
  begin_index_attempt-IsAudited, prepare_index-IsAudited, activate-IsAudited,
}
use atlas_rag.Ingestion.Search.Quiet.{claim_cleanup-IsQuiet}

done-IsAudited : {A : Type 0} {m : Session A} → Keeps IsAudited m → Keeps IsAudited (done m)
done-IsAudited kept = Leads-bind kept (λ _. Leads-pure tt (λ s p. p))

create_collection-IsQuiet :
    (p : Principal) (values : CollectionRequest) (most : ℕ) (k : Uuid)
    → IsQuiet (create_collection p values most k)
unfolding create_collection
create_collection-IsQuiet p values most k = record {
  quiet = λ s s' c h. elim (Bool-cases (any (λ t. t == p.tenant_id) s.tenants)) [
    | inl known ↦ (ground arith, ground arith)
    | inr unknown ↦ absurd (ground arith)
  ];
}

register_document-IsAudited :
    (p : Principal) (c k fresh : Uuid) (key : String) (values : Registration)
    → Keeps IsAudited (register_document p c k fresh key values)
unfolding register_document
register_document-IsAudited p c k fresh key values = record {
  leads = λ s s' v audited h.
      let next : Collection → Session DocumentVersion = λ collection.
        gets (get_idempotent_version p c key) >>= λ existing.
        repeat_or_register values existing (register_new p c k fresh key values collection) in
      let (collection, s1, read, rest) = bind-eq-ok (get_collection p c true) next s h in
      let (same, again) = get_collection-ok p c s s1 collection read in
      let run = rw same at rest in
      elim (Option-cases (get_idempotent_version p c key s)) [
        | inl unknown ↦
            register_new-IsAudited p c k fresh key values collection s s' v audited
              (rw unknown at run)
        | inr (existing, found) ↦
            let (is_it, unchanged, matching) =
              repeat_registration-ok existing values s s' v (rw found at run) in
            rw unchanged audited
      ];
}

complete_upload-IsAudited :
    (p : Principal) (k : Uuid) (ids : Ids) (valid : Bool) (reason : Option String)
    (content_type : String) (n : ℕ)
    → Keeps IsAudited (complete_upload p k ids valid reason content_type n)
complete_upload-IsAudited p k ids valid reason content_type n = record {
  leads = λ s s' (w, j) audited h.
      let (v, c) =
        complete_upload-IsCompleted p k ids valid reason content_type n s s' w j audited h in
      c.stored.audited;
}

block-IsAudited : (c : Command) → Keeps IsAudited (block c)
unfolding block defer_job_dispatch complete_cleanup retry_cleanup complete_activation
block-IsAudited (Command.creation p values most k) =
    done-IsAudited (IsQuiet-IsAudited (create_collection-IsQuiet p values most k))
block-IsAudited (Command.registration p c k fresh key values) =
    done-IsAudited (register_document-IsAudited p c k fresh key values)
block-IsAudited (Command.completion p k ids valid reason content_type n) =
    done-IsAudited (complete_upload-IsAudited p k ids valid reason content_type n)
block-IsAudited (Command.request p k operation key now n profile ids) =
    done-IsAudited (lifecycle_request-IsAudited p k operation key now n profile ids)
block-IsAudited (Command.claiming t v k worker_id now d) =
    done-IsAudited (claim-IsAudited t v k worker_id now d)
block-IsAudited (Command.ending e job worker_id now) = end_attempt-IsAudited e job worker_id now
block-IsAudited (Command.ocr_claiming t v k worker_id now d) =
    done-IsAudited (claim_ocr-IsAudited t v k worker_id now d)
block-IsAudited (Command.ocr_success job worker_id artifacts n next now) =
    done-IsAudited (succeed_ocr-IsAudited job worker_id artifacts n next now)
block-IsAudited (Command.publication_claiming t v k worker_id now d) =
    done-IsAudited (claim_publication-IsAudited t v k worker_id now d)
block-IsAudited (Command.deferral t v k delay now) =
    Leads-modify _ (λ s p. other_tables-IsAudited s _ refl refl p)
block-IsAudited (Command.chunk_success job worker_id artifact chunks n k next now) =
    done-IsAudited (succeed_chunk-IsAudited job worker_id artifact chunks n k next now)
block-IsAudited (Command.embedding_success job worker_id artifact model records n k next now) =
    done-IsAudited (succeed_embedding-IsAudited job worker_id artifact model records n k next now)
block-IsAudited (Command.index_fencing job worker_id target ids now) =
    begin_index_attempt-IsAudited job worker_id target ids now
block-IsAudited (Command.index_publishing job worker_id artifact target records k now) =
    done-IsAudited (prepare_index-IsAudited job worker_id artifact target records k now)
block-IsAudited (Command.activating job worker_id target expected ids now) =
    done-IsAudited (activate-IsAudited job worker_id target expected ids now)
block-IsAudited (Command.cleanup_claiming worker_id now d n activation version) =
    done-IsAudited (IsQuiet-IsAudited (claim_cleanup-IsQuiet worker_id now d n activation version))
block-IsAudited (Command.cleanup_completion claim worker_id now) =
    Leads-modify _ (λ s p. other_tables-IsAudited s _ refl refl p)
block-IsAudited (Command.cleanup_retry claim worker_id n reason_code now) =
    Leads-modify _ (λ s p. other_tables-IsAudited s _ refl refl p)
block-IsAudited (Command.activation_completion activation now) =
    Leads-modify _ (λ s p. other_tables-IsAudited s _ refl refl p)

pub execute-IsAudited : (c : Command) (s : Store) → IsAudited s → IsAudited (execute c s)
unfolding execute
execute-IsAudited c s audited = Keeps-transaction (block c) s (block-IsAudited c) audited

execute_all_keeps :
    (commands : List Command) (s : Store) → IsAudited s → IsAudited (execute_all commands s)
unfolding execute_all
execute_all_keeps [] s audited = audited
execute_all_keeps (c ∷ commands) s audited =
    execute_all_keeps commands (execute c s) (execute-IsAudited c s audited)

new_database-IsAudited : (tenants : List Uuid) → IsAudited (new_database tenants)
unfolding find_version find trail_of
new_database-IsAudited tenants = record { trail = λ k v h. absurd (cc); no_orphan = λ k h. refl }

-- Whatever the modelled requests and workers (all but deletion and reconciliation) do to a new
-- database, in whatever order, and whichever of their transactions are rolled back: the events of
-- every version lead from its registration, or from its reprocessing, by legal steps and without a
-- gap in the revisions, to the state and the revision that its row shows, and no event is about a
-- version that does not exist.
pub execute_all-IsAudited :
    (tenants : List Uuid) (commands : List Command)
    → IsAudited (execute_all commands (new_database tenants))
execute_all-IsAudited tenants commands =
    execute_all_keeps commands (new_database tenants) (new_database-IsAudited tenants)
