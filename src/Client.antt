-- ===== src/Client.antt =====
-- election/client.go, server/worker_client.go, scheduler/dispatcher.go: the calls of other nodes. How a
-- connection is made and what a generated stub answers are parameters; the connections are traced.
pub mod Calls
use pi_bully.Prelude.{ℕ, String, Bool, List, [], ◌∷◌}
use pi_bully.Election.Server.{ElectionRequest, ElectionResponse, CoordinatorRequest}
use pi_bully.Worker.Server.{AssignTaskRequest, Outcome}

pub record RenewLeaseRequest : Type 0 where
  pub task_id : String
  pub worker_id : ℕ

pub record MarkRunningRequest : Type 0 where
  pub task_id : String
  pub worker_id : ℕ

pub record ReportResultRequest : Type 0 where
  pub task_id : String
  pub worker_id : ℕ
  pub outcome : Outcome
  pub error_message : String

-- An error of the library, as it is or with the words that the election client puts before it.
pub data Error (E : Type 0) : Type 0 where
  plain : E → Error E
  start_election_dial start_election_call : (addr : String) → E → Error E
  announce_leader_dial announce_leader_call : (addr : String) → E → Error E

pub data Result (E A : Type 0) : Type 0 where
  ok : A → Result E A
  err : E → Result E A

-- What is done with connections.
pub data Event (Conn : Type 0) : Type 0 where
  opened called closed : Conn → Event Conn

-- The stub's answer; the deferred `Close` comes after it.
abbrev pub call_open :
    {E Conn Resp : Type 0}
    → (E → Error E)
    → Conn
    → Result E Resp
    → List (Event Conn) × Result (Error E) Resp
call_open wrap c answer =
    (opened c ∷ called c ∷ closed c ∷ [], elim answer [ ok resp ↦ ok resp | err e ↦ err (wrap e) ])

module _ {E Conn : Type 0} (dial : String → Result E Conn) where
  -- The part that all methods share: `dial_error` and `call_error` are how they pass errors on.
  unfoldable pub with_connection :
      {Req Resp : Type 0}
      → (dial_error call_error : E → Error E) → (stub : Conn → Req → Result E Resp) → String
      → Req
      → List (Event Conn) × Result (Error E) Resp
  with_connection dial_error call_error stub addr req = elim (dial addr) [
    | err e ↦ ([], err (dial_error e))
    | ok c ↦ call_open call_error c (stub c req)
  ]

  unfoldable pub call_start_election :
      (Conn → ElectionRequest → Result E ElectionResponse)
      → String
      → ElectionRequest
      → List (Event Conn) × Result (Error E) ElectionResponse
  unfolding with_connection
  call_start_election stub addr req =
      with_connection (start_election_dial addr) (start_election_call addr) stub addr req

  unfoldable pub call_announce_leader :
      (Conn → CoordinatorRequest → Result E (Unit {0}))
      → String
      → CoordinatorRequest
      → List (Event Conn) × Result (Error E) (Unit {0})
  unfolding with_connection
  call_announce_leader stub addr req =
      with_connection (announce_leader_dial addr) (announce_leader_call addr) stub addr req

  unfoldable pub call_renew_lease :
      (Conn → RenewLeaseRequest → Result E (Unit {0}))
      → String
      → RenewLeaseRequest
      → List (Event Conn) × Result (Error E) (Unit {0})
  unfolding with_connection
  call_renew_lease stub addr req = with_connection plain plain stub addr req

  unfoldable pub call_report_result :
      (Conn → ReportResultRequest → Result E (Unit {0}))
      → String
      → ReportResultRequest
      → List (Event Conn) × Result (Error E) (Unit {0})
  unfolding with_connection
  call_report_result stub addr req = with_connection plain plain stub addr req

  unfoldable pub call_mark_running :
      (Conn → MarkRunningRequest → Result E (Unit {0}))
      → String
      → MarkRunningRequest
      → List (Event Conn) × Result (Error E) (Unit {0})
  unfolding with_connection
  call_mark_running stub addr req = with_connection plain plain stub addr req

  unfoldable pub call_assign_task :
      (Conn → AssignTaskRequest → Result E Bool)
      → String
      → AssignTaskRequest
      → List (Event Conn) × Result (Error E) Bool
  unfolding with_connection
  call_assign_task stub addr req = with_connection plain plain stub addr req
