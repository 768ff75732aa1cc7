-- ===== src/Controller/Tests.antt =====
-- Runs of the hub, of the conversions and of the handlers, and the theorems at them.
use slurmlite.Cluster.Registry as Nodes
use slurmlite.Controller.Convert.{spec_to_proto, spec_from_proto}
use slurmlite.Controller.Delivery.{send_all, subscribe-delivers, pending-notify_cancel}
use slurmlite.Controller.Hub.{
  new_hub, channel_at, update_at, queued, fill, end_old, open_channel, subscribe, unsubscribe,
  newest, enqueue, send, receive_from, receive, notify_each, notify_cancel, pending_cancel,
  dispatch,
}
use slurmlite.Controller.Channels as Channels
use slurmlite.Controller.History as History
use slurmlite.Controller.History.{
  HubCall, subscribes, dispatches, notifies, receives, mailboxes-Inv, run,
}
use slurmlite.Controller.Roundtrip.{spec_from_proto-spec_to_proto}
use slurmlite.Controller.Server.{Server}
use slurmlite.Controller.Sorted.{ByTime, job_count, sort_jobs-ByTime}
use slurmlite.Controller.Convert.{sort_jobs}
use slurmlite.Jobs.Model.{Job}
use slurmlite.Controller.Service as Service
use slurmlite.Jobs.Invariant as Managed
use slurmlite.Jobs.Manager as Manager
use slurmlite.Jobs.Manager.{copy_into}
use slurmlite.Jobs.Model.{Spec, running, validate_spec}
use slurmlite.Protocol.{WellKnown, WatchWorkResponse, cancel}
use slurmlite.Scheduling.Dispatch.{Assignment}
use text.Mathlib.TextEquality.{eq_iff}
use slurmlite.Prelude.{
  pos, Time, Duration, lookup, insert, delete, is_blank, ok, dec_string, ite, false, dec_In, String,
  List, [], ◌∷◌, ◌++◌, length, none, some, ◌≡◌, ◌≢◌, refl, ◌+◌, arith, last_of,
}

-- Durations and times that are sent as they are.
abbrev pub plain : WellKnown
plain = record {
  DurationMessage = Duration;
  Timestamp = Time;
  new_duration = λ d. d;
  as_duration = λ d. d;
  new_timestamp = λ t. t;
}

abbrev work : Assignment
work = record {
  job_id = "job-1";
  command = "/bin/echo";
  args = [];
  env = [];
  max_duration = pos 0;
  node_rank = pos 0;
  n_nodes = pos 1;
  cpus_per_node = pos 1;
}

abbrev hub_history : List HubCall
hub_history =
    dispatches "n1" work ∷ subscribes "n1" ∷ notifies ("n1" ∷ "n2" ∷ []) "job-1" ∷ receives 0 ∷ []

mailboxes-Inv_example : Channels.Inv (run plain new_hub hub_history)
mailboxes-Inv_example = mailboxes-Inv plain hub_history

abbrev stop : String → WatchWorkResponse Duration
stop id = cancel (record { job_id = id })

unsubscribed : lookup "n2" (run plain new_hub hub_history).sub ≡ none
unfolding run History.step subscribe end_old open_channel fill queued receive receive_from
    channel_at update_at notify_cancel notify_each send enqueue newest dispatch new_hub lookup
    insert delete dec_string
unsubscribed = refl

subscribe-delivers_example :
    let h = run plain new_hub hub_history in
    let sent = last_of 32 (queued h "n2" ++ stop "job-2" ∷ stop "job-3" ∷ []) in
    let (h', ch) = subscribe (send_all h "n2" (stop "job-2" ∷ stop "job-3" ∷ [])) "n2" in
    (channel_at ch h'.channels
      ≡ some (record { capacity = 16 + length sent; buffer = sent; closed = false }))
    × (lookup "n2" h'.sub ≡ some ch)
    × (queued h' "n2" ≡ [])
subscribe-delivers_example =
    subscribe-delivers (run plain new_hub hub_history) "n2" (stop "job-2" ∷ stop "job-3" ∷ [])
      (mailboxes-Inv plain hub_history) unsubscribed

job_named : ◌≢◌ {A = String} "job-1" ""
job_named e = ground (arith, eq_iff "job-1" "")

node_named : ◌≢◌ {A = String} "n2" ""
node_named e = ground (arith, eq_iff "n2" "")

pending-notify_cancel_example :
    pending_cancel (notify_cancel (new_hub {D = Duration}) ("n1" ∷ "n2" ∷ []) "job-1") "n2"
    ≡ ite (dec_In "n2" ("n1" ∷ "n2" ∷ [])) "job-1" (pending_cancel (new_hub {D = Duration}) "n2")
pending-notify_cancel_example =
    pending-notify_cancel (new_hub {D = Duration}) ("n1" ∷ "n2" ∷ []) "job-1" "n2" job_named
      node_named

abbrev timed_spec : Spec
timed_spec = record {
  resources = record {
    nodes_required = pos 2;
    cpus_per_node = pos 1;
    max_duration = pos 60000000000;
  };
  command = "/bin/echo";
  args = "hello" ∷ [];
  env = ("A", "1") ∷ [];
}

timed_valid : validate_spec timed_spec ≡ ok tt
unfolding validate_spec is_blank
timed_valid = refl

spec_from_proto-spec_to_proto_example :
    spec_from_proto plain (some (spec_to_proto plain timed_spec))
    ≡ ok (record timed_spec { env = copy_into [] timed_spec.env })
spec_from_proto-spec_to_proto_example =
    spec_from_proto-spec_to_proto plain (λ d. refl) timed_spec timed_valid (omega arith)
      (omega arith)

abbrev started_server : Server plain
started_server = record {
  registry = Nodes.make;
  jobs = Manager.make;
  heartbeats = [];
  hub = new_hub;
  kicks = some 0;
  id_seq = 0;
}

started_server-Inv : Service.Inv started_server
started_server-Inv = record { jobs = Managed.make-Inv; mailboxes = Channels.new_hub-Inv }

abbrev job_at : String → Time → Job
job_at id t = record {
  id = id;
  status = running;
  spec = timed_spec;
  assigned_node_ids = [];
  submitted_at = t;
  started_at = 0;
  finished_at = 0;
  exit_code = pos 0;
  error_message = "";
}

abbrev three_jobs : List Job
three_jobs = job_at "job-3" 9 ∷ job_at "job-1" 4 ∷ job_at "job-2" 4 ∷ []

sort_jobs-ByTime_example :
    ByTime (sort_jobs three_jobs)
    × ((id : String) → job_count id (sort_jobs three_jobs) ≡ job_count id three_jobs)
sort_jobs-ByTime_example = sort_jobs-ByTime three_jobs

-- What a stream leaves unread when it ends is lost: the next stream of the node starts empty.
unread_lost :
    let (h, ch) = subscribe (new_hub {D = Duration}) "n1" in
    let (h', again) = subscribe (unsubscribe (dispatch plain h "n1" work).0 "n1" ch) "n1" in
    channel_at again h'.channels ≡ some (record { capacity = 16; buffer = []; closed = false })
unfolding subscribe end_old open_channel fill queued unsubscribe channel_at update_at send enqueue
    newest dispatch new_hub lookup insert delete dec_string
unread_lost = refl
