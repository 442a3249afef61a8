-- ===== src/ToolRelay/Tokens.antt =====
-- The token of a RelayClient decides on the answer to an open frame only.
use nfrx.Prelude.{
  List, [], ◌∷◌, ◌≡◌, Bool-cases, Option-cases, String, inl, inr, not, refl, str_eq, sym, ◌&&◌, ◌∙◌,
}
use nfrx.Prelude.Dict.{lookup}
use nfrx.ToolRelay.{RelayClient, on_frame, Frame, run_frames, on_close, on_open}

-- What of a client decides which calls it starts.
abbrev pub SameCalls : RelayClient → RelayClient → Type 0
SameCalls r s = (r.spawned ≡ s.spawned) × (r.next_call ≡ s.next_call)

on_open-SameCalls : (f : Frame) (r : RelayClient) → SameCalls (on_open f r) r
unfolding on_open
on_open-SameCalls f r = elim (Bool-cases (not (str_eq r.token "") && not (str_eq f.auth r.token))) [
  | inl refused ↦ rw refused (refl, refl)
  | inr granted ↦ rw granted (refl, refl)
]

on_close-SameCalls : (sid : String) (r : RelayClient) → SameCalls (on_close sid r) r
unfolding on_close
on_close-SameCalls sid r = elim (Option-cases (lookup sid r.cancels)) [
  | inl e ↦ rw (e, on_close) (refl, refl)
  | inr (call, e) ↦ rw (e, on_close) (refl, refl)
]

-- Two clients that each keep their calls.
kept-SameCalls :
    (r s r' s' : RelayClient) → SameCalls r s → SameCalls r' r → SameCalls s' s → SameCalls r' s'
kept-SameCalls r s r' s' h hr hs = (hr.0 ∙ h.0 ∙ sym hs.0, hr.1 ∙ h.1 ∙ sym hs.1)

on_frame-SameCalls :
    (f : Frame) (r s : RelayClient) → SameCalls r s → SameCalls (on_frame f r) (on_frame f s)
unfolding on_frame
on_frame-SameCalls f r s h = elim (Bool-cases (str_eq f.kind "open")) [
  | inl opens ↦ rw opens (
      kept-SameCalls r s (on_open f r) (on_open f s) h (on_open-SameCalls f r)
        (on_open-SameCalls f s))
  | inr no_open ↦ elim (Bool-cases (str_eq f.kind "rpc")) [
    | inl rpc ↦ rw (no_open, rpc, h.0, h.1) (refl, refl)
    | inr no_rpc ↦ elim (Bool-cases (str_eq f.kind "close")) [
      | inl close ↦
          rw (no_open, no_rpc, close)
            (kept-SameCalls r s (on_close f.sid r) (on_close f.sid s) h (on_close-SameCalls f.sid r)
              (on_close-SameCalls f.sid s))
      | inr no_close ↦ elim (Bool-cases (str_eq f.kind "ping")) [
        | inl ping ↦ rw (no_open, no_rpc, no_close, ping) h
        | inr no_ping ↦ rw (no_open, no_rpc, no_close, no_ping) h
      ]
    ]
  ]
]

-- Whatever frames two clients get, they start the same calls, however their tokens differ: a
-- session that was refused with "open.fail" is served like any other.
pub run_frames-SameCalls :
    (fs : List Frame) (r s : RelayClient)
    → SameCalls r s
    → SameCalls (run_frames fs r) (run_frames fs s)
unfolding run_frames
run_frames-SameCalls [] r s h = h
run_frames-SameCalls (f ∷ fs) r s h =
    run_frames-SameCalls fs (on_frame f r) (on_frame f s) (on_frame-SameCalls f r s h)
