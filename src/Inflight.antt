-- ===== src/Inflight.antt =====
-- The counter of sdk/base/inflight/inflight.go: requests that a drain waits for.
use nfrx.Prelude.{ℕ, List, Option, [], if◌then◌else◌, ltb, none, some, suc, ◌-◌, ◌==◌, ◌∷◌}
pub mod Zero
mod Examples

-- A channel is a number: `closed` has those that were closed, the last first, and `fresh` is the
-- number of the next one. `none` is a channel that is nil, as in the zero value.
pub record Counter : Type 0 where
  pub count : ℕ
  pub zero_ch : Option ℕ
  pub closed : List ℕ
  pub fresh : ℕ

abbrev pub zero_counter : Counter
zero_counter = record { count = 0; zero_ch = none; closed = []; fresh = 0 }

-- zeroCh = make(chan struct{})
unfoldable pub make_channel : Counter → Counter
make_channel c = record c { zero_ch = some c.fresh; fresh = suc c.fresh }

-- close(c.zeroCh)
unfoldable pub close_zero : Counter → Counter
close_zero c = elim (c.zero_ch) [ some ch ↦ record c { closed = ch ∷ c.closed } | none ↦ c ]

-- if c.zeroCh == nil { ... }
unfoldable pub ensure_channel : Counter → Counter
unfolding make_channel close_zero
ensure_channel c = elim (c.zero_ch) [
  | some ch ↦ c
  | none ↦ let made = make_channel c in if made.count == 0 then close_zero made else made
]

-- if c.count == 0 { c.zeroCh = make(chan struct{}) }; c.count++
unfoldable pub raise : Counter → Counter
unfolding make_channel
raise c =
    let ready = if c.count == 0 then make_channel c else c in
    record ready { count = suc ready.count }

unfoldable pub inc : Counter → Counter
unfolding ensure_channel raise
inc c = raise (ensure_channel c)

-- if c.count > 0 { c.count--; if c.count == 0 { close(c.zeroCh) } }
unfoldable pub lower : Counter → Counter
unfolding close_zero
lower c =
    let fewer : Counter = record c { count = c.count - 1 } in
    if ltb 0 c.count then (if fewer.count == 0 then close_zero fewer else fewer) else c

unfoldable pub dec : Counter → Counter
unfolding ensure_channel lower
dec c = lower (ensure_channel c)

-- zeroChannel: what WaitForZero waits for.
unfoldable pub zero_channel : Counter → Counter × Option ℕ
unfolding ensure_channel
zero_channel c = let ready = ensure_channel c in (ready, ready.zero_ch)
