-- ===== src/Partition.antt =====
-- HandlePartitionedJob in sdk/base/worker/partition.go, and the partition job of embeddings in
-- modules/llm/ext/openai/partition.go: how a request is cut into chunks for one worker or several,
-- and how the answers are put together.
use nfrx.Prelude.{
  Bool, List, Option, String, [], if◌then◌else◌, leb, ltb, map, negsuc, none, pos, some, suc, take,
  zero, ℕ, ℤ, ◌*◌, ◌+◌, ◌-◌, ◌/◌, ◌==◌, ◌∷◌,
}
use nfrx.Prelude.Int.{ltb_ℤ, pos_part}
pub mod Tiles
pub mod Assembly
pub mod Batches
pub mod Starved
pub mod Pool
pub mod Collect
pub mod Once
mod Examples

-- What the code reads of a worker; the sizes are signed.
pub record WorkerRef : Type 0 where
  pub id : String
  pub in_flight : ℕ
  pub preferred_batch_size : ℤ
  pub desired_chunk_size : ℤ

-- The order of sort.Slice: less busy first, then the larger batch.
unfoldable pub goes_before : WorkerRef → WorkerRef → Bool
goes_before a b =
    if a.in_flight == b.in_flight
    then ltb_ℤ b.preferred_batch_size a.preferred_batch_size
    else ltb a.in_flight b.in_flight

place : WorkerRef → List WorkerRef → List WorkerRef
place w [] = w ∷ []
place w (x ∷ xs) = if goes_before x w then x ∷ place w xs else w ∷ x ∷ xs

-- sort.Slice leaves the order of equal workers open; here they stay as they were.
unfoldable pub sort_workers : List WorkerRef → List WorkerRef
unfolding place
sort_workers [] = []
sort_workers (w ∷ ws) = place w (sort_workers ws)

-- The workers that take part; a limit that is not positive counts as 1.
unfoldable pub choose_workers : ℤ → ℕ → List WorkerRef → List WorkerRef
unfolding sort_workers
choose_workers max_parallel size workers =
    let limit = if ltb 0 (pos_part max_parallel) then pos_part max_parallel else 1 in
    take size (take limit (sort_workers workers))

abbrev pub or_positive : ℤ → ℕ → ℕ
or_positive (pos zero) d = d
or_positive (pos (suc n)) d = suc n
or_positive (negsuc n) d = d

-- The weight of a worker: what the job wishes, else what the worker prefers, else everything.
unfoldable pub weight : ℕ → WorkerRef → ℕ
weight size w = or_positive w.desired_chunk_size (or_positive w.preferred_batch_size size)

abbrev pub sum : List ℕ → ℕ
sum [] = 0
sum (x ∷ xs) = x + sum xs

pub record Task : Type 0 where
  pub start : ℕ
  pub count : ℕ

-- if portion < 1 { portion = 1 }; if portion > remaining { portion = remaining }
unfoldable pub portion : ℕ → ℕ → ℕ → ℕ
portion remaining w rem_w =
    let p = remaining * w / rem_w in
    let q = if ltb p 1 then 1 else p in if ltb remaining q then remaining else q

-- The loop that cuts the tasks: the last worker takes what remains.
unfoldable pub cut : ℕ → ℕ → ℕ → List ℕ → List Task
unfolding portion
cut remaining rem_w offset [] = []
cut remaining rem_w offset (w ∷ []) = record { start = offset; count = remaining } ∷ []
cut remaining rem_w offset (w ∷ v ∷ ws) =
    let p = portion remaining w rem_w in
    record { start = offset; count = p } ∷ cut (remaining - p) (rem_w - w) (offset + p) (v ∷ ws)

unfoldable pub plan : ℕ → List WorkerRef → List Task
unfolding cut weight
plan size workers = let weights = map (weight size) workers in cut size (sum weights) 0 weights

-- The number of inputs that embeddingPartitionJob.MakeChunk puts into a chunk.
unfoldable pub make_chunk : ℕ → ℕ → ℕ → ℕ
make_chunk size start count =
    if leb size start then 0 else if ltb size (start + count) then size - start else count

-- What proxyHTTPOnce returns: a body, or a status and a message.
pub data Proxied {ℓ} (A : Type ℓ) : Type ℓ where
  replied : A → Proxied A
  refused : ℕ → String → Proxied A

-- copy(dst[start:], src)
unfoldable pub copy_at {ℓ} : {A : Type ℓ} → ℕ → List A → List A → List A
copy_at start [] dst = dst
copy_at start (x ∷ src) [] = []
copy_at zero (x ∷ src) (y ∷ dst) = x ∷ copy_at zero src dst
copy_at (suc start) (x ∷ src) (y ∷ dst) = y ∷ copy_at start (x ∷ src) dst

-- if batch <= 0 || batch > remaining { batch = remaining }
unfoldable pub batch_size : ℤ → ℕ → ℕ
batch_size preferred remaining =
    let batch = or_positive preferred remaining in if ltb remaining batch then remaining else batch

pub data Finished {ℓ} (A : Type ℓ) : Type ℓ where
  finished : List A → Finished A
  failed : ℕ → String → Finished A
  out_of_fuel : Finished A

unfoldable pub after_chunk {ℓ} :
    {A : Type ℓ} → (List A → Finished A) → Proxied (List A) → Finished A
after_chunk next (replied body) = next body
after_chunk next (refused status message) = failed status message

-- The loop of the single worker. `send start n` is the answer to the chunk at `start`; `final` is
-- what Append has put together. An Append that fails is not modelled: that of embeddings does not.
unfoldable pub run_batches {ℓ} :
    {A : Type ℓ} → (ℕ → ℕ → Proxied (List A)) → ℤ → ℕ → ℕ → ℕ → List A → Finished A
run_batches send preferred size zero start final = out_of_fuel
run_batches send preferred size (suc fuel) start final =
    let n = make_chunk size start (batch_size preferred (size - start)) in
    if leb size start
    then finished final
    else if n == 0
    then finished final
    else after_chunk
        (λ body. run_batches send preferred size fuel (start + n) (copy_at start body final))
        (send start n)

-- How one task of several workers begins: an empty chunk ends it, and with it the request.
unfoldable pub begin_task : ℕ → Task → Option (ℕ × String)
unfolding make_chunk
begin_task size t = if make_chunk size t.start t.count == 0 then some (400, "empty") else none
