-- ===== src/Controller/Requests.antt =====
-- The handlers of internal/controller/server.go as one step function, and what every
-- request keeps.
use slurmlite.Controller.Server.{
  Server, handle_register, handle_heartbeat, handle_submit, handle_cancel, handle_watch,
}
use slurmlite.Controller.Reports.{handle_report}
use slurmlite.Protocol.{WellKnown, NodeSpec, JobSpec, ReportJobStatusRequest}
use slurmlite.Prelude.{Time, String, Option}
use slurmlite.Controller.Service.{
  Inv, handle_cancel-Inv, handle_heartbeat-Inv, handle_register-Inv, handle_report-Inv,
  handle_submit-Inv, handle_watch-Inv,
}

-- A request that changes the controller's state.
pub data Request (D : Type 0) : Type 0 where
  registers : Option NodeSpec → Request D
  beats : (node_id : String) → Request D
  submits_job : Option (JobSpec D) → Request D
  cancels_job : (job_id : String) → Request D
  reports : ReportJobStatusRequest → Request D
  watches : (node_id : String) → Request D

module _ (w : WellKnown) where
  unfoldable pub serve : Server w → Time → Request w.DurationMessage → Server w
  serve s now (registers p) = (handle_register w s p now).0
  serve s now (beats id) = (handle_heartbeat w s id).0
  serve s now (submits_job p) = (handle_submit w s p now).0
  serve s now (cancels_job id) = (handle_cancel w s id now).0
  serve s now (reports r) = (handle_report w s r now).0
  serve s now (watches id) = (handle_watch w s id).0

  pub serve-Inv :
      (s : Server w) (now : Time) (r : Request w.DurationMessage) → Inv s → Inv (serve s now r)
  unfolding serve
  serve-Inv s now (registers p) v = handle_register-Inv s p now v
  serve-Inv s now (beats id) v = handle_heartbeat-Inv s id v
  serve-Inv s now (submits_job p) v = handle_submit-Inv s p now v
  serve-Inv s now (cancels_job id) v = handle_cancel-Inv s id now v
  serve-Inv s now (reports r) v = handle_report-Inv s r now v
  serve-Inv s now (watches id) v = handle_watch-Inv s id v
