-- ===== src/Agent/Reconnect.antt =====
-- The delays of core/reconnect, and the loops of agent/reconnect.go and workerproxy/run.go that wait
-- for them. Times are in nanoseconds.
use nfrx.Prelude.{
  ℕ, Bool, List, Option, String, [], false, get_elem?, if◌then◌else◌, none, not, some, suc, true,
  ◌*◌, ◌∷◌,
}

abbrev pub second : ℕ
second = 1000000000

-- Schedule
abbrev schedule : List ℕ
schedule =
    second
    ∷ second
    ∷ second
    ∷ 5 * second
    ∷ 5 * second
    ∷ 5 * second
    ∷ 15 * second
    ∷ 15 * second
    ∷ 15 * second
    ∷ []

-- Delay; an attempt is not negative.
unfoldable pub delay : ℕ → ℕ
delay attempt = elim (get_elem? schedule attempt) [ some d ↦ d | none ↦ 30 * second ]

-- monitorBackend with Reconnect: how long it waits after each probe; `true` is a probe that succeeds.
unfoldable pub monitor : ℕ → List Bool → ℕ → List ℕ
unfolding delay
monitor interval [] attempt = []
monitor interval (true ∷ probes) attempt = interval ∷ monitor interval probes 0
monitor interval (false ∷ probes) attempt = delay attempt ∷ monitor interval probes (suc attempt)

-- What fn returns in an attempt, and whether the context is done before the delay is over.
pub record Attempt : Type 0 where
  pub error : Option String
  pub is_done : Bool

-- RunWithReconnect: the delays that were waited for, and what is returned; `none` means that the
-- attempts go on.
unfoldable pub run_with_reconnect : Bool → List Attempt → ℕ → List ℕ × Option (Option String)
unfolding delay
run_with_reconnect again [] attempt = ([], none)
run_with_reconnect again (a ∷ rest) attempt =
    let later = run_with_reconnect again rest (suc attempt) in
    elim (a.error) [
      | none ↦ ([], some none)
      | some e ↦
          if not again
          then ([], some (some e))
          else if a.is_done
          then ([], some (some "context canceled"))
          else (delay attempt ∷ later.0, later.1)
    ]
