-- ===== src/Ingestion/Search/Quiet.antt =====
-- app/services/ingestion/search_recovery.py: its statements leave the versions and events alone.
use atlas_rag.Common.{
  ℕ, Option, String, ◌≡◌, ◌∙◌, Option-cases, some, leb, ◌&&◌, none, refl, inl, inr,
}
use atlas_rag.Ingestion.Search.{
  exhaust_cleanup, update_cleanup, claim_cleanup, lease_entry, oldest, leased_cleanup, is_candidate,
}
use atlas_rag.Database.{Uuid, SearchCleanup, Store}
use atlas_rag.Database.Quiet.{IsQuiet, IsQuiet-pure}

exhaust_cleanup-same :
    (now n : ℕ) (activation version : Option Uuid) (s : Store)
    → ((exhaust_cleanup now n activation version s).versions ≡ s.versions)
      × ((exhaust_cleanup now n activation version s).events ≡ s.events)
unfolding exhaust_cleanup update_cleanup
exhaust_cleanup-same now n activation version s =
    elim (Option-cases
      (oldest (λ e. leb n e.attempt_count && is_candidate now activation version e) s.cleanups)) [
        | inl nothing ↦ rw nothing (refl, refl)
        | inr (e, found) ↦ rw found (refl, refl)
      ]

lease_entry-IsQuiet :
    (worker_id : String) (now d : ℕ) (e : Option SearchCleanup)
    → IsQuiet (lease_entry worker_id now d e)
unfolding update_cleanup
lease_entry-IsQuiet worker_id now d none = IsQuiet-pure none
lease_entry-IsQuiet worker_id now d (some e) = record {
  quiet = λ s s' c h.
      let after : update_cleanup e.id (leased_cleanup worker_id now d) s ≡ s' = cc in
      rw (← after) (refl, refl);
}

pub claim_cleanup-IsQuiet :
    (worker_id : String) (now d n : ℕ) (activation version : Option Uuid)
    → IsQuiet (claim_cleanup worker_id now d n activation version)
unfolding claim_cleanup
claim_cleanup-IsQuiet worker_id now d n activation version = record {
  quiet = λ s s' c h.
      let (versions, events) = exhaust_cleanup-same now n activation version s in
      let (versions', events') =
        (lease_entry-IsQuiet worker_id now d _).quiet (exhaust_cleanup now n activation version s)
          s' c h in
      (versions' ∙ versions, events' ∙ events);
}
