-- ===== src/Partition/Pool.antt =====
-- The pool of workers in HandlePartitionedJob of sdk/base/worker/partition.go: `used`, `cond`,
-- acquire and release, and the goroutine of each task, which tries one worker after the other.
-- `mu` makes a scan of acquire and a change of `used` one turn each.
use nfrx.Prelude.{
  ℕ, Bool, if◌then◌else◌, contains, str_eq, List, Option, String, [], false, leb, length, none,
  some, true, ◌==◌, ◌||◌, ◌∷◌,
}
use nfrx.Partition.{Task, make_chunk}
pub mod Sets
pub mod Turns
pub mod Owners
pub mod Bounded
pub mod Wakeful
pub mod Progress
pub mod Stranded
mod Examples

-- delete(used, key)
unfoldable pub remove : String → List String → List String
remove key [] = []
remove key (x ∷ xs) = let rest = remove key xs in if str_eq x key then rest else x ∷ rest

-- attempted[key] = true
unfoldable pub add : String → List String → List String
add key xs = if contains xs key then xs else key ∷ xs

-- Where a goroutine stands: before or in a send to its worker, before a scan of acquire, at
-- `<-cond`, or ended with its result in the channel. The goroutine of an empty chunk ends without
-- a release, so that its worker stays in `used`.
pub data Phase : Type 0 where
  sends_to : String → Phase
  scans : Phase
  blocked : Phase
  ended : Bool → Phase
  ended_on : String → Phase

-- `used`, and whether `cond` (of capacity 1) holds an item.
pub record Shared : Type 0 where
  pub used : List String
  pub token : Bool

pub record Runner : Type 0 where
  pub task : Task
  pub attempted : List String
  pub phase : Phase

-- What a turn of a goroutine leaves of its own state and of the shared one.
pub record Turned : Type 0 where
  pub attempted : List String
  pub phase : Phase
  pub shared : Shared

-- release: the worker is free, and the item is put unless there is one.
unfoldable pub release : String → Shared → Shared
unfolding remove
release w s = record { used = remove w s.used; token = true }

-- The scan of acquire: the first worker that is neither used nor excluded.
unfoldable pub first_free : List String → List String → List String → Option String
first_free [] used exclude = none
first_free (w ∷ ws) used exclude =
    let rest = first_free ws used exclude in
    if contains used w || contains exclude w then rest else some w

-- A worker found is used; else the error "no worker" or the wait.
unfoldable pub scanned : ℕ → List String → Shared → Option String → Turned
scanned n attempted s (some w) = record {
  attempted = attempted;
  phase = sends_to w;
  shared = record { used = w ∷ s.used; token = s.token };
}
scanned n attempted s none = record {
  attempted = attempted;
  phase = if leb n (length attempted) then ended false else blocked;
  shared = s;
}

-- What follows the answer of the worker `w`: the result, or the next acquire.
unfoldable pub answered : ℕ → Bool → List String → String → Shared → Turned
unfolding add release
answered n ok attempted w s =
    let tried = add w attempted in
    if ok
    then record { attempted = attempted; phase = ended true; shared = release w s }
    else record {
      attempted = tried;
      phase = if leb n (length tried) then ended false else scans;
      shared = release w s;
    }

-- One turn of a goroutine; `ok` is what proxyHTTPOnce says if it is the one that is called.
unfoldable pub turn : ℕ → List String → Bool → Task → List String → Shared → Phase → Option Turned
unfolding answered scanned first_free make_chunk
turn size workers ok t attempted s (sends_to w) =
    if make_chunk size t.start t.count == 0
    then some (record { attempted = attempted; phase = ended_on w; shared = s })
    else some (answered (length workers) ok attempted w s)
turn size workers ok t attempted s scans =
    some (scanned (length workers) attempted s (first_free workers s.used attempted))
turn size workers ok t attempted s blocked =
    if s.token
    then some (record {
      attempted = attempted;
      phase = scans;
      shared = record { used = s.used; token = false };
    })
    else none
turn size workers ok t attempted s (ended good) = none
turn size workers ok t attempted s (ended_on w) = none

pub record Pool : Type 0 where
  pub runners : List Runner
  pub shared : Shared

-- The runners as the first workers are handed out, one for each task.
unfoldable pub hand_out : List String → List Task → List Runner
hand_out [] ts = []
hand_out (w ∷ ws) [] = []
hand_out (w ∷ ws) (t ∷ ts) =
    record { task = t; attempted = []; phase = sends_to w } ∷ hand_out ws ts

unfoldable pub new_pool : List String → List Task → Pool
unfolding hand_out
new_pool workers tasks = record {
  runners = hand_out workers tasks;
  shared = record { used = workers; token = false };
}
