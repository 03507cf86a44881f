-- ===== src/Control/Service/Tests.antt =====
-- engine/control/service.ts: a job that is let in, a request that is sent twice, a project that is
-- deleted, and a list that is read in pages.
use forge_ai.Prelude.{
  ℕ, ◌≡◌, refl, ap, arith, none, List, [], ◌∷◌, ◌++◌, ok, err, codes, keep, idempotency_conflict,
}
use forge_ai.Jobs.{
  job_schema, transition_schema, conflicts, allowed, edge_allowed, deadline_passed,
  apply_transition, transition_job,
}
use forge_ai.Control.Tables.{World, ProjectRow, Response, deleting_body, post_cancel}
use forge_ai.Control.Tx.{Tx, ◌>>◌, return, write, ok_pair}
use forge_ai.Control.State.{
  change_state, change_at, parse_review, request_of, next_job, expiry_differs, reserve_review,
  update_job, write_row, insert_review, change_events, append_event, enqueue, new_step,
  logical_fields, audit, flush_event_sequence,
}
use forge_ai.Control.Cleanup.{put_cleanup, stop_previews, revoke_tickets, cancel_steps}
use forge_ai.Control.Samples.{env, project, tables, world_of, row_of}
use forge_ai.Control.Service
use forge_ai.Control.Service.{cancel_locked, close_job}
use forge_ai.Control.Service.Admission.{
  JobInput, admit_job, lock_admission, check_source, reserve, new_job, enter, insert_job, book,
  open_reservation,
}
use forge_ai.Control.Service.Admission.Admitted.{Admitted, admit_job-Admitted}
use forge_ai.Control.Service.Idempotency.{idempotent, answer, run_recorded, record_is}
use forge_ai.Control.Service.Idempotency.Replay.{idempotent-again}
use forge_ai.Control.Service.Projects.{delete, cancel_each, close_project}
use forge_ai.Control.Service.Projects.Deleted.{Closed, delete-Closed}
use forge_ai.Control.Service.Pages.{page, project_id_of, in_order, is_after}
use forge_ai.Control.Service.Pages.Complete.{asked, page-asked}

abbrev request : JobInput
request = record {
  base_snapshot_id = none;
  base_revision = 1;
  max_cost_micros = 100;
  instruction = codes "Make a page that lists tasks";
}

abbrev idle : World
idle = record tables { jobs = []; steps = []; reservations = [] }

admit_job-Admitted_example :
    Admitted env 1 2 5 request none idle
      (row_of (admit_job env 1 2 5 request none idle))
      (world_of (admit_job env 1 2 5 request none idle))
unfolding admit_job lock_admission Service.project check_source reserve new_job enter insert_job
    book open_reservation append_event flush_event_sequence enqueue new_step audit
admit_job-Admitted_example =
    admit_job-Admitted env 1 2 5 request none idle
      (world_of (admit_job env 1 2 5 request none idle))
      (row_of (admit_job env 1 2 5 request none idle)) refl

abbrev gone : Response
gone = record { status = 202; body = deleting_body 2 }

abbrev drop_projects : Tx Response
drop_projects = write (λ w. record w { projects = [] }) >> return gone

drop_projects-records :
    (x y : World) (a : Response) → drop_projects x ≡ ok (a, y) → y.records ≡ x.records
drop_projects-records x y a e = ap (λ (w : World). w.records) (ok_pair e).1

abbrev key : List ℕ
key = codes "0123456789abcdef"

abbrev answered : World
answered = elim (idempotent env 1 5 (post_cancel 3) key 8 drop_projects tables) [
  | ok (r, w) ↦ w
  | err x ↦ tables
]

idempotent-again_example :
    idempotent env 1 5 (post_cancel 3) key 9 drop_projects answered ≡ err idempotency_conflict
unfolding idempotent answer run_recorded record_is
idempotent-again_example =
    idempotent-again env 1 5 (post_cancel 3) key 8 9 drop_projects drop_projects tables answered
      answered gone drop_projects-records refl refl refl

delete-Closed_example :
    Closed env 2 (elim (delete env 2 5 1 tables) [ ok (u, w) ↦ w | err x ↦ tables ])
unfolding delete Service.project cancel_each close_project cancel_locked close_job put_cleanup
    stop_previews revoke_tickets cancel_steps audit change_state change_at parse_review request_of
    next_job expiry_differs reserve_review update_job write_row insert_review change_events
    append_event enqueue new_step logical_fields transition_job job_schema transition_schema
    conflicts allowed edge_allowed deadline_passed apply_transition
delete-Closed_example =
    delete-Closed env 2 5 1 tables
      (elim (delete env 2 5 1 tables) [ ok (u, w) ↦ w | err x ↦ tables ]) refl

-- Three projects, out of order.
abbrev shelf : List ProjectRow
shelf = record project { id = 7 } ∷ record project { id = 2 } ∷ record project { id = 5 } ∷ []

page-asked_example :
    (page project_id_of none 2 shelf).items
      ++ asked project_id_of
          (page project_id_of none 2 shelf).next_cursor
          (in_order project_id_of shelf)
    ≡ keep (is_after project_id_of none) (in_order project_id_of shelf)
page-asked_example = page-asked project_id_of none 2 shelf (omega arith) refl
