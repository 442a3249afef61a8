-- ===== src/Partition/Once.antt =====
-- proxyHTTPOnce in sdk/base/worker/partition.go: one chunk is sent to a worker, and its answer is
-- collected until it ends, fails, or the client goes.
use nfrx.Prelude.{
  ℕ, Bool, List, Option, String, [], ap, false, if◌then◌else◌, ltb, none, refl, some, str_eq, true,
  ℤ, ◌&&◌, ◌<◌, ◌∷◌, ◌≡◌, Bool-cases, arith, inl, inr, subst, ◌∙◌, map, ◌++◌,
}
use nfrx.Prelude.Int.{ltb_ℤ}
use nfrx.Prelude.Text.{append_assoc, append}
use nfrx.Partition.{replied, Proxied, refused}

-- What the select of the loop meets. `idle_timer` has the time since the last heartbeat.
pub data Arrival : Type 0 where
  canceled : Arrival
  idle_timer : ℤ → Arrival
  closed : Arrival
  headers_with : ℕ → Arrival
  chunk_of : String → Arrival
  end_with : Option String → Arrival

-- status, buf, and whether RecordJobStart was called.
pub record Collecting : Type 0 where
  pub status : ℕ
  pub buf : String

-- The four results; what RecordJobEnd is told, if it is called: whether it was a success, and how
-- many embeddings; and how many cancel messages were offered to the worker.
pub record Returned : Type 0 where
  pub body : String
  pub code : ℕ
  pub ok : Bool
  pub err_msg : String
  pub recorded : Option (Bool × ℕ)
  pub cancels : ℕ

unfoldable pub ended_by : ℕ → String → ℕ → Returned
ended_by code message cancels = record {
  body = "";
  code = code;
  ok = false;
  err_msg = message;
  recorded = some (false, 0);
  cancels = cancels;
}

unfoldable pub finish_with : ℕ → Bool → String → Collecting → Returned
finish_with elements success message c = record {
  body = c.buf;
  code = c.status;
  ok = success && str_eq message "";
  err_msg = message;
  recorded = some (success, if success then elements else 0);
  cancels = 0;
}

-- The end of the answer: a success without an error and with a status below 400.
unfoldable pub on_end : ℕ → Option String → Collecting → Returned
unfolding finish_with
on_end elements (some message) c = finish_with elements false message c
on_end elements none c = finish_with elements (ltb c.status 400) "" c

pub data Looped : Type 0 where
  waiting_on : Collecting → Looped
  returned : Returned → Looped

-- One round of the loop, with `timeout` as it is given; the timer is set only if that is positive.
unfoldable pub on_arrival : ℤ → ℕ → Arrival → Collecting → Looped
unfolding ended_by on_end
on_arrival timeout elements canceled c = returned (ended_by c.status "canceled" 1)
on_arrival timeout elements (idle_timer since) c =
    if ltb_ℤ timeout since then returned (ended_by 504 "timeout" 1) else waiting_on c
on_arrival timeout elements closed c = returned (ended_by 502 "closed" 0)
on_arrival timeout elements (headers_with status) c =
    waiting_on (record { status = status; buf = c.buf })
on_arrival timeout elements (chunk_of data_read) c =
    waiting_on (record { status = c.status; buf = append c.buf data_read })
on_arrival timeout elements (end_with error) c = returned (on_end elements error c)

unfoldable pub collect_answer : ℤ → ℕ → List Arrival → Collecting → Looped
unfolding on_arrival
collect_answer timeout elements [] c = waiting_on c
collect_answer timeout elements (a ∷ rest) c = elim (on_arrival timeout elements a c) [
  | waiting_on c' ↦ collect_answer timeout elements rest c'
  | returned r ↦ returned r
]

-- The whole call: a worker whose channel has no room is busy, and nothing is recorded of it.
unfoldable pub proxy_once : Bool → ℤ → ℕ → List Arrival → Looped
unfolding collect_answer
proxy_once room timeout elements arrivals =
    if room
    then collect_answer timeout elements arrivals (record { status = 0; buf = "" })
    else returned (record {
      body = "{\"error\":\"worker_busy\"}";
      code = 503;
      ok = false;
      err_msg = "worker_busy";
      recorded = none;
      cancels = 0;
    })

-- What HandlePartitionedJob makes of it, for a body that `parse` reads.
unfoldable pub proxied {ℓ} : {A : Type ℓ} → (String → A) → Returned → Proxied A
proxied parse r = if r.ok then replied (parse r.body) else refused r.code r.err_msg

-- The chunks up to the end of the answer, and the last status before it.
unfoldable pub chunks_of : List Arrival → String
chunks_of [] = ""
chunks_of (canceled ∷ rest) = ""
chunks_of (idle_timer since ∷ rest) = chunks_of rest
chunks_of (closed ∷ rest) = ""
chunks_of (headers_with status ∷ rest) = chunks_of rest
chunks_of (chunk_of data_read ∷ rest) = append data_read (chunks_of rest)
chunks_of (end_with error ∷ rest) = ""

append-empty : (a : String) → append a "" ≡ a
unfolding append
append-empty String.[] = refl
append-empty (String.◌∷◌ x a) = ap (String.◌∷◌ x) (append-empty a)

-- What a result says that is a success, with the text `all` as the chunks received.
abbrev pub Succeeds : ℕ → String → Returned → Type 0
Succeeds elements all r =
    (r.body ≡ all)
    × (r.code < 400)
    × (r.err_msg ≡ "")
    × (r.recorded ≡ some (true, elements))
    × (r.cancels ≡ 0)

no_success :
    (code : ℕ) (message : String) (cancels : ℕ) (r : Returned)
    → ended_by code message cancels ≡ r
    → r.ok ≡ true
    → 0 < 0
unfolding ended_by
no_success code message cancels r e good =
    let bad : false ≡ true = ap (λ x. x.ok) e ∙ good in absurd cc

on_end-Succeeds :
    (elements : ℕ) (error : Option String) (c : Collecting) (r : Returned)
    → on_end elements error c ≡ r
    → r.ok ≡ true
    → Succeeds elements c.buf r
unfolding on_end
on_end-Succeeds elements (some message) c r e good =
    let bad : false ≡ true = ap (λ x. x.ok) e ∙ good in absurd cc
on_end-Succeeds elements none c r e good =
    subst (λ x. x.ok ≡ true → Succeeds elements c.buf x) e (λ ok. ground arith) good

collect_answer-Succeeds :
    (timeout : ℤ) (elements : ℕ) (arrivals : List Arrival) (c : Collecting) (r : Returned)
    → collect_answer timeout elements arrivals c ≡ returned r
    → r.ok ≡ true
    → Succeeds elements (append c.buf (chunks_of arrivals)) r
unfolding collect_answer chunks_of
collect_answer-Succeeds timeout elements [] c r e good = absurd cc
collect_answer-Succeeds timeout elements (canceled ∷ rest) c r e good =
    let same : ended_by c.status "canceled" 1 ≡ r = cc in
    absurd (omega (arith, no_success c.status "canceled" 1 r same good))
collect_answer-Succeeds timeout elements (idle_timer since ∷ rest) c r e good =
    elim (Bool-cases (ltb_ℤ timeout since)) [
      | inl late ↦
          let same : ended_by 504 "timeout" 1 ≡ r = ground (arith, e, late) in
          absurd (omega (arith, no_success 504 "timeout" 1 r same good))
      | inr early ↦
          let same : collect_answer timeout elements rest c ≡ returned r =
            ground (arith, e, early) in
          collect_answer-Succeeds timeout elements rest c r same good
    ]
collect_answer-Succeeds timeout elements (closed ∷ rest) c r e good =
    let same : ended_by 502 "closed" 0 ≡ r = cc in
    absurd (omega (arith, no_success 502 "closed" 0 r same good))
collect_answer-Succeeds timeout elements (headers_with status ∷ rest) c r e good =
    collect_answer-Succeeds timeout elements rest (record { status = status; buf = c.buf }) r e good
collect_answer-Succeeds timeout elements (chunk_of data_read ∷ rest) c r e good =
    rw (← append_assoc c.buf data_read (chunks_of rest)) (
      collect_answer-Succeeds timeout elements rest
        (record { status = c.status; buf = append c.buf data_read }) r e good)
collect_answer-Succeeds timeout elements (end_with error ∷ rest) c r e good =
    let same : on_end elements error c ≡ r = cc in
    rw (append-empty c.buf) (on_end-Succeeds elements error c r same good)

-- A call that says that it succeeded has a status below 400, no error message, and as its body all
-- that the worker sent; the embeddings of the chunk are counted once, and nothing was canceled.
pub proxy_once-Succeeds :
    (room : Bool) (timeout : ℤ) (elements : ℕ) (arrivals : List Arrival) (r : Returned)
    → proxy_once room timeout elements arrivals ≡ returned r
    → r.ok ≡ true
    → Succeeds elements (chunks_of arrivals) r
unfolding proxy_once append
proxy_once-Succeeds true timeout elements arrivals r e good =
    collect_answer-Succeeds timeout elements arrivals (record { status = 0; buf = "" }) r e good
proxy_once-Succeeds false timeout elements arrivals r e good =
    let same : record {
      body = "{\"error\":\"worker_busy\"}";
      code = 503;
      ok = false;
      err_msg = "worker_busy";
      recorded = none;
      cancels = 0;
    }
        ≡ r =
      cc in
    let bad : false ≡ true = ap (λ (x : Returned). x.ok) same ∙ good in absurd cc

abbrev pub concat : List String → String
concat [] = ""
concat (part ∷ parts) = append part (concat parts)

collect_answer-concat :
    (timeout : ℤ) (elements status : ℕ) (parts : List String) (error : Option String)
    (before : String)
    → collect_answer timeout elements
        (map chunk_of parts ++ end_with error ∷ [])
        (record { status = status; buf = before })
      ≡ returned
          (on_end elements error (record { status = status; buf = append before (concat parts) }))
unfolding collect_answer
collect_answer-concat timeout elements status [] error before = rw (append-empty before) refl
collect_answer-concat timeout elements status (part ∷ parts) error before =
    rw (← append_assoc before part (concat parts))
      (collect_answer-concat timeout elements status parts error (append before part))

-- An answer that is not interrupted is returned whole: with its status, its parts joined, and the
-- error that it ends with.
pub complete_answer :
    (timeout : ℤ) (elements status : ℕ) (parts : List String) (error : Option String)
    → proxy_once true timeout elements
        (headers_with status ∷ map chunk_of parts ++ end_with error ∷ [])
      ≡ returned (on_end elements error (record { status = status; buf = concat parts }))
unfolding proxy_once append
complete_answer timeout elements status parts error =
    collect_answer-concat timeout elements status parts error ""
