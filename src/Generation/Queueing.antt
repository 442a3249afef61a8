-- ===== src/Generation/Queueing.antt =====
-- What queue.Enter and the sections of the loop of generation_proxy.go do to the queue.
use nfrx.Prelude.{
  List, String, [], ap, refl, some, ◌++◌, ◌∷◌, ◌≡◌, Bool-cases, false, inl, inr, str_eq, true, Bool,
  arith, sym, ◌∙◌, length, pos,
}
use nfrx.Prelude.Int.{leb_ℤ}
use nfrx.Prelude.Dict.{Dict, lookup, insert}
use nfrx.Completions.{QueuedRequest, leave_items, enter, leave}
use nfrx.Generation.Relay.{Writer}
use nfrx.Generation.Waiting.{
  in_loop, Station, Exit, advance, after_leave, gone, unsupported, dispatched, selects, retries,
  is_supported, is_foremost, has_picked, has_job, has_sent, has_no_room, leaves, has_panicked,
  Phase, Request, answered, proxied, Proxy, Server, Tick, canceled, entered, leave_queue, on_tick,
  retry, status_due,
}

-- The requests that wait, in the order of their arrival.
abbrev pub waiting_items : Dict Phase → List QueuedRequest
waiting_items [] = []
waiting_items ((id, in_loop req w at_station) ∷ rest) =
    record { id = id; model = req.model } ∷ waiting_items rest
waiting_items ((id, answered w) ∷ rest) = waiting_items rest
waiting_items ((id, proxied ref w) ∷ rest) = waiting_items rest

abbrev item_of : Request → QueuedRequest
item_of req = record { id = req.id; model = req.model }

-- The items of the queue after a handler has gone on.
abbrev pub kept_items : Request → Phase → List QueuedRequest → List QueuedRequest
kept_items req (in_loop other w at_station) items = items
kept_items req (answered w) items = leave_items req.id items
kept_items req (proxied ref w) items = leave_items req.id items

abbrev pub one_item : String → Phase → List QueuedRequest
one_item id (in_loop req w at_station) = record { id = id; model = req.model } ∷ []
one_item id (answered w) = []
one_item id (proxied ref w) = []

pub waiting_items-snoc :
    (phases : Dict Phase) (id : String) (phase : Phase)
    → waiting_items (phases ++ (id, phase) ∷ []) ≡ waiting_items phases ++ one_item id phase
waiting_items-snoc [] id (in_loop req w at_station) = refl
waiting_items-snoc [] id (answered w) = refl
waiting_items-snoc [] id (proxied ref w) = refl
waiting_items-snoc ((k, in_loop req w at_station) ∷ rest) id phase =
    ap (λ t. record { id = k; model = req.model } ∷ t) (waiting_items-snoc rest id phase)
waiting_items-snoc ((k, answered w) ∷ rest) id phase = waiting_items-snoc rest id phase
waiting_items-snoc ((k, proxied ref w) ∷ rest) id phase = waiting_items-snoc rest id phase

-- A handler that waits on waits for the same request.
abbrev pub Stays : Request → Phase → Type 0
Stays req (in_loop other w at_station) = other ≡ req
Stays req (answered w) = Unit
Stays req (proxied ref w) = Unit

kept_items-cons :
    (req : Request) (phase : Phase) (item : QueuedRequest) (items : List QueuedRequest)
    → str_eq item.id req.id ≡ false
    → kept_items req phase (item ∷ items) ≡ item ∷ kept_items req phase items
unfolding leave_items
kept_items-cons req (in_loop other w at_station) item items ne = refl
kept_items-cons req (answered w) item items ne = rw ne refl
kept_items-cons req (proxied ref w) item items ne = rw ne refl

head_gone :
    (req : Request) (phase : Phase) (k : String) (rest : Dict Phase)
    → str_eq k req.id ≡ true
    → Stays req phase
    → waiting_items ((k, phase) ∷ rest)
      ≡ kept_items req phase (record { id = k; model = req.model } ∷ waiting_items rest)
unfolding leave_items
head_gone req (in_loop other w at_station) k rest same stays =
    ap (λ r. record { id = k; model = r.model } ∷ waiting_items rest) stays
head_gone req (answered w) k rest same stays = rw same refl
head_gone req (proxied ref w) k rest same stays = rw same refl

entry_kept :
    (req : Request) (phase other : Phase) (k : String) (rest later : Dict Phase)
    → str_eq k req.id ≡ false
    → waiting_items later ≡ kept_items req phase (waiting_items rest)
    → waiting_items ((k, other) ∷ later) ≡ kept_items req phase (waiting_items ((k, other) ∷ rest))
entry_kept req phase (in_loop r w at_station) k rest later ne e =
    ap (λ t. record { id = k; model = r.model } ∷ t) e
    ∙ sym (kept_items-cons req phase (record { id = k; model = r.model }) (waiting_items rest) ne)
entry_kept req phase (answered w) k rest later ne e = e
entry_kept req phase (proxied ref w) k rest later ne e = e

pub insert-kept :
    (req : Request) (w : Writer) (at_station : Station) (phase : Phase) (phases : Dict Phase)
    → lookup req.id phases ≡ some (in_loop req w at_station)
    → Stays req phase
    → waiting_items (insert req.id phase phases) ≡ kept_items req phase (waiting_items phases)
unfolding insert lookup
insert-kept req w at_station phase [] h stays = cc
insert-kept req w at_station phase ((k, other) ∷ rest) h stays =
    elim (Bool-cases (str_eq k req.id)) [
      | inl same ↦
          let e : other ≡ in_loop req w at_station = grind (arith, same, h) in
          rw (same, e) (head_gone req phase k rest same stays)
      | inr ne ↦
          let e : lookup req.id rest ≡ some (in_loop req w at_station) = grind (arith, ne, h) in
          rw ne (
            entry_kept req phase other k rest (insert req.id phase rest) ne
              (insert-kept req w at_station phase rest e stays))
    ]

-- What a section of a handler in the loop does to the queue.
pub record IsTicked (req : Request) (s t : Server) (phase : Phase) : Type 0 where
  pub same : t.phases ≡ s.phases
  pub kept : t.queue.items ≡ kept_items req phase s.queue.items
  pub stays : Stays req phase

pub on_tick-IsTicked :
    (tick : Tick) (req : Request) (w : Writer) (s : Server)
    → IsTicked req s s (on_tick tick req w s)
unfolding on_tick
on_tick-IsTicked canceled req w s = record { same = refl; kept = refl; stays = refl }
on_tick-IsTicked retry req w s = record { same = refl; kept = refl; stays = refl }
on_tick-IsTicked status_due req w s = record { same = refl; kept = refl; stays = refl }

after_leave-IsTicked :
    (exit : Exit) (req : Request) (w : Writer) (s : Server)
    → IsTicked req s (leave_queue req s) (after_leave exit w)
unfolding after_leave leave_queue leave
after_leave-IsTicked gone req w s = record { same = refl; kept = refl; stays = tt }
after_leave-IsTicked unsupported req w s = record { same = refl; kept = refl; stays = tt }
after_leave-IsTicked (dispatched ref) req w s = record { same = refl; kept = refl; stays = tt }

pub advance-IsTicked :
    (p : Proxy) (room : Bool) (req : Request) (w : Writer) (at_station : Station) (s : Server)
    → let n = advance p room req w at_station s in IsTicked req s n.0 n.1
unfolding advance
advance-IsTicked p room req w selects s = record { same = refl; kept = refl; stays = refl }
advance-IsTicked p room req w retries s = record { same = refl; kept = refl; stays = refl }
advance-IsTicked p room req w is_supported s = record { same = refl; kept = refl; stays = refl }
advance-IsTicked p room req w is_foremost s = record { same = refl; kept = refl; stays = refl }
advance-IsTicked p room req w (has_picked id ref) s = record {
  same = refl;
  kept = refl;
  stays = refl;
}
advance-IsTicked p room req w (has_job id ref) s = record { same = refl; kept = refl; stays = refl }
advance-IsTicked p room req w (has_sent id ref) s = record {
  same = refl;
  kept = refl;
  stays = refl;
}
advance-IsTicked p room req w (has_no_room ref) s = record {
  same = refl;
  kept = refl;
  stays = refl;
}
advance-IsTicked p room req w (leaves exit) s = after_leave-IsTicked exit req w s
advance-IsTicked p room req w has_panicked s = record { same = refl; kept = refl; stays = refl }

-- What queue.Enter does to the queue.
pub record IsBegun (req : Request) (s t : Server) (phase : Phase) : Type 0 where
  pub same : t.phases ≡ s.phases
  pub longer : t.queue.items ≡ s.queue.items ++ one_item req.id phase

nothing_new : (items : List QueuedRequest) → items ≡ items ++ []
nothing_new [] = refl
nothing_new (item ∷ items) = ap (λ t. item ∷ t) (nothing_new items)

pub entered-IsBegun :
    (req : Request) (w : Writer) (s : Server)
    → let n = entered req w s (enter req.id req.model s.queue) in IsBegun req s n.0 n.1
unfolding entered enter
entered-IsBegun req w s = elim (Bool-cases (leb_ℤ s.queue.cap (pos 0))) [
  | inl shut ↦ rw (shut, enter) (record { same = refl; longer = nothing_new s.queue.items })
  | inr positive ↦ elim (Bool-cases (leb_ℤ s.queue.cap (pos (length s.queue.items)))) [
    | inl full ↦
        rw (positive, full, enter) (record { same = refl; longer = nothing_new s.queue.items })
    | inr free ↦ rw (positive, free, enter) (record { same = refl; longer = refl })
  ]
]
