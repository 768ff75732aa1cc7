-- ===== src/Protocol.antt =====
-- api/proto/v1/scheduler.pb.go: the messages of the controller's service, without the bookkeeping
-- fields that protobuf adds. A pointer to a message, and a oneof, is an `Option`. The well-known
-- types Duration and Timestamp are the parameters `D` and `T`. An int32 is a signed integer.
use slurmlite.Prelude.{ℤ, Time, Duration, Map, Bool, String, List, Option}

-- An enum of protobuf is open: any other number can come over the wire.
pub data JobStatus : Type 0 where
  job_status_unspecified job_status_pending job_status_running job_status_completed : JobStatus
  job_status_failed job_status_cancelled : JobStatus
  job_status_other : ℤ → JobStatus

pub data PbNodeStatus : Type 0 where
  node_status_unspecified node_status_online node_status_offline node_status_busy : PbNodeStatus
  node_status_other : ℤ → PbNodeStatus

pub data JobEvent : Type 0 where
  job_event_unspecified job_event_started job_event_completed job_event_failed : JobEvent
  job_event_cancelled : JobEvent
  job_event_other : ℤ → JobEvent

-- The two well-known types with the functions on them that the program calls.
pub record WellKnown : Type 1 where
  pub DurationMessage : Type 0
  pub Timestamp : Type 0
  pub new_duration : Duration → DurationMessage
  pub as_duration : DurationMessage → Duration
  pub new_timestamp : Time → Timestamp

pub record PbResourceRequest (D : Type 0) : Type 0 where
  pub nodes_required : ℤ
  pub cpus_per_node : ℤ
  pub max_duration : Option D

pub record JobSpec (D : Type 0) : Type 0 where
  pub command : String
  pub args : List String
  pub env : Map String
  pub resources : Option (PbResourceRequest D)

pub record PbJob (D T : Type 0) : Type 0 where
  pub id : String
  pub status : JobStatus
  pub spec : Option (JobSpec D)
  pub assigned_node_ids : List String
  pub submitted_at : Option T
  pub started_at : Option T
  pub finished_at : Option T
  pub exit_code : ℤ
  pub error_message : String

pub record NodeSpec : Type 0 where
  pub id : String
  pub hostname : String
  pub address : String
  pub total_cpus : ℤ

pub record PbNode (T : Type 0) : Type 0 where
  pub id : String
  pub hostname : String
  pub address : String
  pub status : PbNodeStatus
  pub total_cpus : ℤ
  pub allocated_cpus : ℤ
  pub last_heartbeat : Option T
  pub current_job_id : String

pub record WorkAssignment (D : Type 0) : Type 0 where
  pub job_id : String
  pub command : String
  pub args : List String
  pub env : Map String
  pub max_duration : Option D
  pub node_rank : ℤ
  pub nnodes : ℤ
  pub cpus_per_node : ℤ

pub record CancelWork : Type 0 where
  pub job_id : String

-- `WatchWorkResponse` with its oneof.
pub data WatchWorkResponse (D : Type 0) : Type 0 where
  assignment : WorkAssignment D → WatchWorkResponse D
  cancel : CancelWork → WatchWorkResponse D

pub record HeartbeatRequest : Type 0 where
  pub node_id : String
  pub allocated_cpus : ℤ
  pub current_job_id : String

pub record HeartbeatResponse : Type 0 where
  pub acknowledged : Bool
  pub cancel_job_id : String

pub record ReportJobStatusRequest : Type 0 where
  pub node_id : String
  pub job_id : String
  pub event : JobEvent
  pub exit_code : ℤ
  pub error_message : String
