-- ===== src/Jobs/Transfers.antt =====
-- HandlePayloadRequest and HandleResultRequest in registry.go: the guard, and the section that
-- opens a transfer channel and writes it into the job. Between the two the lock is free.
use nfrx.Prelude.{Option, String, [], if◌then◌else◌, none, some, ℕ}
use nfrx.Prelude.Dict.{Dict, insert, lookup}
use nfrx.Prelude.Text.{trim_space}
use Prim.Native.String.{◌++◌ as str_append}
use nfrx.Transfer
use nfrx.Jobs.Types.{
  Document, Job, Registry, TransferInfo, status_awaiting_payload, status_awaiting_result,
  transfer_data,
}
use nfrx.Jobs.Status.{can_request_transfer, set_job_status}
use nfrx.Jobs.Events.{copy_map, publish, status_event}
use nfrx.Jobs.Handlers.{Decoded, Response, decoded, eof, error_reply, malformed, transfer_reply}

pub record TransferRequest : Type 0 where
  pub key : Option String
  pub properties : Document

-- Which of the two handlers runs.
pub data Direction : Type 0 where
  payload_request result_request : Direction

abbrev pub default_key : Direction → String
default_key payload_request = "payload"
default_key result_request = "result"

abbrev pub requested_status : Direction → String
requested_status payload_request = status_awaiting_payload
requested_status result_request = status_awaiting_result

abbrev pub client_method : Direction → String
client_method payload_request = "POST"
client_method result_request = "GET"

-- The error with which the guard stops, if any.
unfoldable pub transfer_check : String → Registry → Option Response
transfer_check id r = elim (lookup id r.jobs) [
  | none ↦ some (404, error_reply "not_found")
  | some job ↦
      if can_request_transfer job.status then none else some (409, error_reply "invalid_state")
]

abbrev pub request_key : Direction → TransferRequest → String
request_key dir body = elim body.key [ none ↦ default_key dir | some k ↦ trim_space k ]

abbrev pub add_info :
    String → TransferInfo → Option (Dict TransferInfo) → Option (Dict TransferInfo)
add_info key info none = some (insert key info [])
add_info key info (some infos) = some (insert key info infos)

abbrev pub store_info : Direction → String → TransferInfo → Job → Job
store_info payload_request key info job = record job { payloads = add_info key info job.payloads }
store_info result_request key info job = record job { results = add_info key info job.results }

-- The info that the handler builds once the transfer registry has given a channel.
abbrev pub new_info : Direction → TransferRequest → String → ℕ → TransferInfo
new_info dir body channel_id expires = record {
  channel_id = channel_id;
  method = client_method dir;
  url = str_append "/api/transfer/" channel_id;
  expires_at = expires;
  key = request_key dir body;
  properties = copy_map body.properties;
}

-- The second section: no test of the job's status.
store_transfer : Direction → String → TransferInfo → ℕ → Job → Registry → Registry
store_transfer dir id info now job r =
    let (new, stats) =
      set_job_status (store_info dir info.key info job) (requested_status dir) now r.stats in
    let r' = record r { jobs = insert id new r.jobs; stats = stats } in
    publish id (status_event new)
      (publish id (record { type = default_key dir; body = transfer_data info }) r')

open_transfer :
    Direction → String → TransferRequest → String → ℕ → ℕ → Registry → Registry × Response
unfolding store_transfer
open_transfer dir id body channel_id created now r =
    let (transfers, chan, expires) = Transfer.create channel_id created r.transfer in
    let info = new_info dir body chan expires in
    let r' = record r { transfer = transfers } in
    elim (lookup id r'.jobs) [
      | none ↦ (r', (404, error_reply "not_found"))
      | some job ↦ (store_transfer dir id info now job r', (200, transfer_reply info))
    ]

abbrev pub empty_request : TransferRequest
empty_request = record { key = none; properties = none }

-- The handler from where it has unlocked; an empty body is accepted.
unfoldable pub transfer_commit :
    Direction → String → Decoded TransferRequest → String → ℕ → ℕ → Registry → Registry × Response
unfolding open_transfer
transfer_commit dir id malformed channel_id created now r =
    (r, (400, error_reply "invalid_request"))
transfer_commit dir id eof channel_id created now r =
    open_transfer dir id empty_request channel_id created now r
transfer_commit dir id (decoded body) channel_id created now r =
    open_transfer dir id body channel_id created now r

-- The handlers, when nothing runs between their sections.
unfoldable pub handle_transfer_request :
    Direction → String → Decoded TransferRequest → String → ℕ → ℕ → Registry → Registry × Response
unfolding transfer_check transfer_commit
handle_transfer_request dir id body channel_id created now r = elim (transfer_check id r) [
  | some response ↦ (r, response)
  | none ↦ transfer_commit dir id body channel_id created now r
]

unfoldable pub handle_payload_request :
    String → Decoded TransferRequest → String → ℕ → ℕ → Registry → Registry × Response
unfolding handle_transfer_request
handle_payload_request = handle_transfer_request payload_request

unfoldable pub handle_result_request :
    String → Decoded TransferRequest → String → ℕ → ℕ → Registry → Registry × Response
unfolding handle_transfer_request
handle_result_request = handle_transfer_request result_request
