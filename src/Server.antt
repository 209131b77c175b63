-- ===== src/Server.antt =====
-- server/pi_server.cc: the service that controllers call, over the one device of the process.
pub mod Stream
pub mod Written
pub mod Reach
pub mod Configured
pub mod Live
pub mod Channel
pub mod History
pub mod Spec
pub mod Refines
pub mod Asked
pub mod Solicited
pub mod Delivers
pub mod Alike
pub mod Told
pub mod Answers
pub mod Rearranged
pub mod Ends
pub mod Takes
pub mod Installs
pub mod Installed
pub mod Reported
pub mod Subscribes
use p4runtime_grpcpp.Base.{
  ℕ, Bool, true, false, List, [], ◌∷◌, ◌++◌, Option, none, some, Run, ok, ◌>>=◌, ◌==◌,
  if◌then◌else◌, not,
}
use p4runtime_grpcpp.ConfigFile.{Disk}
use p4runtime_grpcpp.Device.{Device, Saved}
use p4runtime_grpcpp.Digests.{StreamWrite}
use p4runtime_grpcpp.Manager.{dev_mgr_write, dev_mgr_read}
use p4runtime_grpcpp.Messages.{Platform, Call}
use p4runtime_grpcpp.Pipeline.{dev_mgr_set_pipeline_config, dev_mgr_get_pipeline_config}
use p4runtime_grpcpp.Proto.{
  StatusCode, Status, status_of, status_ok, WriteRequest, ReadRequest, ReadResponse, SetAction,
  PipelineConfig, ResponseType,
}
use p4runtime_grpcpp.Uint128.{Uint128}

-- `dm` of server/pi_server.cc, the globals of server/device_mgr.c, and the streams whose handlers
-- run.
pub record Server : Type 0 where
  pub dm : Device
  pub saved : Saved
  pub live : List ℕ

abbrev pub no_pipeline_config_status : Status
no_pipeline_config_status =
    status_of StatusCode.failed_precondition "No forwarding pipeline config set for this device"

abbrev pub not_master_status : Status
not_master_status = status_of StatusCode.permission_denied "Not master"

abbrev pub empty_response : ReadResponse
empty_response = record { entities = [] }

abbrev pub empty_config : PipelineConfig
empty_config = record { p4info = none; p4_device_config = []; cookie = none }

-- `Write`: the status, the server, and the calls of the callback.
unfoldable pub write : Platform → Server → WriteRequest → Run (Status × Server × List Call)
write p s request = if s.dm.has_p4info == 0 then ok (no_pipeline_config_status, s, []) else (do
  (status, dm, calls) ← dev_mgr_write p s.dm request
  ok (status, record s { dm = dm }, calls))

-- `Read`: the status, and the responses that were written.
unfoldable pub read : Server → ReadRequest → Run (Status × List ReadResponse)
read s request = if s.dm.has_p4info == 0 then ok (no_pipeline_config_status, []) else (do
  (status, response) ← dev_mgr_read s.dm request empty_response
  ok (status, response ∷ []))

-- `SetForwardingPipelineConfig`, which takes the device id of the request.
unfoldable pub set_config : Disk → Server → ℕ → SetAction → PipelineConfig → Run (Status × Server)
set_config disk s device_id action config = do
  (status, dm, saved) ←
      dev_mgr_set_pipeline_config disk (record s.dm { device_id = device_id }) s.saved action config
  ok (status, record s { dm = dm; saved = saved })

-- `GetForwardingPipelineConfig`: the status, the response's configuration, and the server.
unfoldable pub get_config : Disk → Server → ResponseType → Status × PipelineConfig × Server
get_config disk s type =
    if s.dm.has_p4info == 0
    then (no_pipeline_config_status, empty_config, s)
    else let (config, saved) = dev_mgr_get_pipeline_config disk s.dm s.saved type empty_config in
      (status_ok, config, record s { saved = saved })

pub data StreamRequest : Type 0 where
  arbitration : (device_id high low : ℕ) → StreamRequest
  packet digest_ack other : StreamRequest

-- `MasterArbitrationUpdate` as the server answers it.
pub record Arbitration : Type 0 where
  pub device_id : ℕ
  pub election_id : Uint128
  pub status : Status

-- `notify_one`: every stream is told that it is master.
unfoldable pub notify_one : ℕ → ℕ → Uint128 → List (StreamWrite Arbitration)
notify_one stream device_id election_id =
    let is_master : Bool = true in
    record {
      stream = stream;
      response = record {
        device_id = device_id;
        election_id = election_id;
        status =
            if is_master
            then status_of StatusCode.ok "Is master"
            else status_of StatusCode.already_exists "Is slave";
      };
    }
    ∷ []

unfoldable pub convert_u128 : ℕ → ℕ → Uint128
convert_u128 high low = record { high = high; low = low }

-- The body of the loop of `StreamChannel`: the status, if the handler returns, the server, and what
-- was written.
unfoldable pub stream_message :
    Server → ℕ → StreamRequest → Option Status × Server × List (StreamWrite Arbitration)
unfolding notify_one convert_u128
stream_message s stream (arbitration device_id high low) =
    if not (s.dm.device_id == device_id)
    then (some (status_of StatusCode.failed_precondition "Invalid device id"), s, [])
    else (
      none,
      record s { dm = record s.dm { stream = some stream } },
      notify_one stream device_id (convert_u128 high low),
    )
stream_message s stream packet = (none, s, [])
stream_message s stream digest_ack = (none, s, [])
stream_message s stream other = (none, s, [])

abbrev pub without : ℕ → List ℕ → List ℕ
without a [] = []
without a (x ∷ xs) = if x == a then without a xs else x ∷ without a xs

-- gRPC calls the handler with a new stream, and the stream is gone when the handler returns.
abbrev pub open_stream : Server → ℕ → Server
open_stream s stream = record s { live = stream ∷ s.live }

abbrev pub close_stream : Server → ℕ → Server
close_stream s stream = record s { live = without stream s.live }

-- The loop over the messages of a stream, up to its end or an early return.
unfoldable pub stream_loop :
    Server → ℕ → List StreamRequest → Status × Server × List (StreamWrite Arbitration)
stream_loop s stream [] = (status_ok, s, [])
stream_loop s stream (m ∷ ms) =
    let (result, s', written) = stream_message s stream m in
    elim result [
      | some status ↦ (status, s', written)
      | none ↦ let (status, s'', more) = stream_loop s' stream ms in (status, s'', written ++ more)
    ]

-- `StreamChannel`, with no other handler running.
unfoldable pub stream_channel :
    Server → ℕ → List StreamRequest → Status × Server × List (StreamWrite Arbitration)
unfolding stream_loop
stream_channel s stream messages =
    let (status, s', written) = stream_loop (open_stream s stream) stream messages in
    (status, close_stream s' stream, written)
