-- ===== src/Jobs/Claims.antt =====
-- HandleClaimJob and HandleClaimStream in registry.go: one round of their loops at a time, since
-- other requests run while they wait. A round starts when the handler does, or when `notify` gives
-- it the token.
use nfrx.Prelude.{
  Bool, List, Option, String, [], false, if◌then◌else◌, none, pos, some, str_eq, ℕ, ℤ, ◌&&◌, ◌++◌,
  ◌∷◌, negsuc, ◌*◌, ◌+ℤ◌, ◌+◌, ◌-ℤ◌, ◌-◌,
}
use nfrx.Prelude.Text.{trim_space, split}
use nfrx.Prelude.Int.{ltb_ℤ}
use nfrx.Jobs.Types.{ClaimResponse, Job, Registry, second}
use nfrx.Jobs.Events.{claim_response}
use nfrx.Jobs.Queue.{Claimant, claim_next}
use nfrx.Jobs.Workers.{add_worker_stream, record_worker_seen, remove_worker_stream}
use nfrx.Jobs.Handlers.{
  Decoded, Response, claim_reply, decoded, eof, error_reply, malformed, no_content,
}

pub record ClaimRequest : Type 0 where
  pub types : List String
  pub max_wait_seconds : ℤ
  pub worker_id : String
  pub worker_group : String

abbrev pub claimant : ClaimRequest → Claimant
claimant body = record {
  types = body.types;
  worker_id = trim_space body.worker_id;
  worker_group = trim_space body.worker_group;
}

-- A handler that polls answers, or goes to wait in its `select`.
pub data Outcome : Type 0 where
  answer : Response → Outcome
  waiting : Outcome

seen : String → Claimant → String → ℕ → Registry → Registry
seen mode c job_id now r = record_worker_seen c.worker_id c.worker_group mode c.types job_id now r

answer_claim : Claimant → ℕ → Bool → Registry × Option Job → Registry × Outcome
unfolding seen
answer_claim c now waits (r, some job) =
    (seen "poll" c job.id now r, answer (200, claim_reply (claim_response job)))
answer_claim c now waits (r, none) = (r, if waits then waiting else answer (204, no_content))

-- time.Duration(seconds) * time.Second
abbrev pub seconds : ℤ → ℤ
seconds (pos n) = pos (n * second)
seconds (negsuc n) = negsuc ((n + 1) * second - 1)

-- What a waiting handler holds: who asks, for how long, and until when.
pub record Poll : Type 0 where
  pub who : Claimant
  pub duration : ℤ
  pub deadline : ℤ

abbrev pub new_poll : ClaimRequest → ℕ → Poll
new_poll body start = record {
  who = claimant body;
  duration = seconds body.max_wait_seconds;
  deadline = pos start +ℤ seconds body.max_wait_seconds;
}

-- One round of HandleClaimJob: `now` is the clock at the claim, `later` at time.Until.
unfoldable pub poll_round : Poll → ℕ → ℕ → Registry → Registry × Outcome
unfolding answer_claim
poll_round p now later r =
    answer_claim p.who now (ltb_ℤ (pos 0) p.duration && ltb_ℤ (pos 0) (p.deadline -ℤ pos later))
      (claim_next p.who now r)

start_poll : ClaimRequest → ℕ → ℕ → ℕ → Registry → Registry × Outcome
unfolding poll_round seen
start_poll body start now later r =
    poll_round (new_poll body start) now later (seen "poll" (claimant body) "" start r)

abbrev pub zero_request : ClaimRequest
zero_request = record { types = []; max_wait_seconds = pos 0; worker_id = ""; worker_group = "" }

-- HandleClaimJob up to its answer or its first wait; an empty body is accepted.
unfoldable pub handle_claim_job : Decoded ClaimRequest → ℕ → ℕ → ℕ → Registry → Registry × Outcome
unfolding start_poll
handle_claim_job malformed start now later r = (r, answer (400, error_reply "invalid_request"))
handle_claim_job eof start now later r = start_poll zero_request start now later r
handle_claim_job (decoded body) start now later r = start_poll body start now later r

-- The token is taken from `notify`, and another round runs.
unfoldable pub poll_notified : Poll → ℕ → ℕ → Registry → Registry × Outcome
unfolding poll_round
poll_notified p now later r = poll_round p now later (record r { notify = false })

stream_claimed : Claimant → ℕ → Registry × Option Job → Registry × Option ClaimResponse
unfolding seen
stream_claimed c now (r, some job) = (seen "stream" c job.id now r, some (claim_response job))
stream_claimed c now (r, none) = (r, none)

-- One round of HandleClaimStream: the job that it writes as an event, if any; it then goes on at
-- once, and otherwise waits.
unfoldable pub stream_round : Claimant → ℕ → Registry → Registry × Option ClaimResponse
unfolding stream_claimed
stream_round c now r = stream_claimed c now (claim_next c now r)

unfoldable pub stream_open : Claimant → ℕ → Registry → Registry
stream_open c now r = add_worker_stream c.worker_id c.worker_group c.types now r

unfoldable pub stream_notified : Claimant → ℕ → Registry → Registry
unfolding seen
stream_notified c now r = seen "stream" c "" now (record r { notify = false })

unfoldable pub stream_keep_alive : Claimant → ℕ → Registry → Registry
unfolding seen
stream_keep_alive c now r = seen "stream" c "" now r

unfoldable pub stream_close : Claimant → ℕ → Registry → Registry
stream_close c now r = remove_worker_stream c.worker_id c.worker_group now r

parse_parts : List String → List String
parse_parts [] = []
parse_parts (part ∷ parts) =
    let rest = parse_parts parts in
    if str_eq (trim_space part) "" then rest else trim_space part ∷ rest

-- parseListQuery, where the nil slice is the empty list
unfoldable pub parse_list_query : List String → List String
unfolding parse_parts
parse_list_query [] = []
parse_list_query (raw ∷ values) = parse_parts (split b',' raw) ++ parse_list_query values
