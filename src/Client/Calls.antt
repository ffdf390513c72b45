-- ===== src/Client/Calls.antt =====
-- election/client.go, server/worker_client.go, scheduler/dispatcher.go: each method is one call.
use pi_bully.Prelude.{◌≤◌, ◌≡◌, refl, ◌⊎◌, inl, inr, String, Bool, true, List, [], ◌∷◌}
use pi_bully.Election.Engine.{Engine}
use pi_bully.Election.Server.{
  ElectionRequest, ElectionResponse, CoordinatorRequest, start_election_rpc,
  start_election_rpc-term,
}
use pi_bully.Worker.Server.{AssignTaskRequest}
use pi_bully.Client.{
  RenewLeaseRequest, MarkRunningRequest, ReportResultRequest, Error, plain, start_election_dial,
  start_election_call, announce_leader_dial, announce_leader_call, Result, ok, err, Event, opened,
  called, closed, with_connection, call_start_election, call_announce_leader, call_renew_lease,
  call_report_result, call_mark_running, call_assign_task,
}

-- A call without a connection fails, and does nothing. A call with one calls the stub once, closes the
-- connection, and answers what the stub answers, with nothing lost but the form of an error.
abbrev pub IsOneCall :
    {E Conn Req Resp : Type 0}
    → (dial : String → Result E Conn) → (stub : Conn → Req → Result E Resp) → String
    → Req
    → List (Event Conn) × Result (Error E) Resp
    → Type 0
IsOneCall {E} {Conn} {Req} {Resp} dial stub addr req r =
    ((e : E) × (x : Error E) × (dial addr ≡ err e) × (r ≡ ([], err x)))
    ⊎ ((c : Conn) × (dial addr ≡ ok c)
        × (r.0 ≡ opened c ∷ called c ∷ closed c ∷ [])
        × (((resp : Resp) × (stub c req ≡ ok resp) × (r.1 ≡ ok resp))
            ⊎ ((e : E) × (x : Error E) × (stub c req ≡ err e) × (r.1 ≡ err x))))

with_connection-IsOneCall :
    {E Conn Req Resp : Type 0} (dial : String → Result E Conn) (dial_error call_error : E → Error E)
    (stub : Conn → Req → Result E Resp) (addr : String) (req : Req)
    → IsOneCall dial stub addr req (with_connection dial dial_error call_error stub addr req)
unfolding with_connection
with_connection-IsOneCall {E} {Conn} {Req} {Resp} dial dial_error call_error stub addr req =
    go (dial addr) refl
  where
    answers :
        (c : Conn) (a : Result E Resp)
        → stub c req ≡ a
        → dial addr ≡ ok c
        → IsOneCall dial stub addr req (with_connection dial dial_error call_error stub addr req)
    answers c (ok resp) p q = rw (q, p, with_connection) (inr (c, refl, refl, inl (resp, p, refl)))
    answers c (err e) p q =
        rw (q, p, with_connection) (inr (c, refl, refl, inr (e, call_error e, p, refl)))

    go :
        (r : Result E Conn)
        → dial addr ≡ r
        → IsOneCall dial stub addr req (with_connection dial dial_error call_error stub addr req)
    go (err e) p = inl (e, dial_error e, p, rw (p, with_connection) refl)
    go (ok c) p = answers c (stub c req) refl p

-- Each of the six methods with which a node calls another is one call: without a connection it fails
-- and does nothing, and with one it calls the generated stub once, closes the connection whatever the
-- outcome, and answers what the stub answers, an error as an error and nothing else as one.
pub calls_close :
    {E Conn : Type 0} (dial : String → Result E Conn)
    (elect : Conn → ElectionRequest → Result E ElectionResponse)
    (announce : Conn → CoordinatorRequest → Result E (Unit {0}))
    (renew : Conn → RenewLeaseRequest → Result E (Unit {0}))
    (report : Conn → ReportResultRequest → Result E (Unit {0}))
    (mark : Conn → MarkRunningRequest → Result E (Unit {0}))
    (assign : Conn → AssignTaskRequest → Result E Bool) (addr : String) (election : ElectionRequest)
    (coordinator : CoordinatorRequest) (renewal : RenewLeaseRequest) (result : ReportResultRequest)
    (running : MarkRunningRequest) (task : AssignTaskRequest)
    → IsOneCall dial elect addr election (call_start_election dial elect addr election)
      × IsOneCall dial announce addr coordinator
          (call_announce_leader dial announce addr coordinator)
      × IsOneCall dial renew addr renewal (call_renew_lease dial renew addr renewal)
      × IsOneCall dial report addr result (call_report_result dial report addr result)
      × IsOneCall dial mark addr running (call_mark_running dial mark addr running)
      × IsOneCall dial assign addr task (call_assign_task dial assign addr task)
unfolding call_start_election call_announce_leader call_renew_lease call_report_result
    call_mark_running call_assign_task
calls_close dial elect announce renew report mark assign addr election coordinator renewal result
      running task =
    (
      with_connection-IsOneCall dial (start_election_dial addr) (start_election_call addr) elect
          addr election,
      with_connection-IsOneCall dial (announce_leader_dial addr) (announce_leader_call addr)
          announce addr coordinator,
      with_connection-IsOneCall dial plain plain renew addr renewal,
      with_connection-IsOneCall dial plain plain report addr result,
      with_connection-IsOneCall dial plain plain mark addr running,
      with_connection-IsOneCall dial plain plain assign addr task,
    )

-- A node that reaches another with a call for an election is answered yes, with a term that is neither
-- below its own nor below that of the node that answers, before the call.
pub call_start_election-reaches :
    {E Conn : Type 0} (dial : String → Result E Conn) (e : Engine) (c : Conn) (addr : String)
    (req : ElectionRequest)
    → dial addr ≡ ok c
    → (resp : ElectionResponse) × ((call_start_election dial
          (λ _ r. ok (start_election_rpc e r).2)
          addr
          req).1
        ≡ ok resp)
      × (resp.ok ≡ true)
      × (req.term ≤ resp.term)
      × (e.state.term ≤ resp.term)
unfolding call_start_election with_connection
call_start_election-reaches dial e c addr req reached =
    let (agrees, same, above, grown) = start_election_rpc-term e req in
    ((start_election_rpc e req).2, rw (reached, with_connection) refl, agrees, above, grown)
