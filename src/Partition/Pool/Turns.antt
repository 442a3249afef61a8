-- ===== src/Partition/Pool/Turns.antt =====
-- Every order in which the goroutines of partition.go can take their turns.
use nfrx.Partition.Pool.Sets.{first_free-some}
use nfrx.Prelude.{
  ==_iff, ℕ, All, Bool, List, String, [], arith, some, zero, suc, ◌+◌, ◌++◌, ◌∷◌, ◌≡◌, Bool-cases,
  Option-cases, contains, false, inl, inr, leb, length, none, true, ◌<◌, ◌≤◌, subst, ◌==◌,
}
use nfrx.Partition.Pool.{
  Pool, Runner, Turned, turn, Phase, Shared, add, answered, blocked, ended, ended_on, first_free,
  release, scanned, scans, sends_to,
}
use nfrx.Partition.{Task, make_chunk}

-- The runner, after a turn that leaves `r`.
abbrev pub turned : Runner → Turned → Runner
turned x r = record { task = x.task; attempted = r.attempted; phase = r.phase }

-- One goroutine of the pool takes a turn; the others stand still.
pub data Step (size : ℕ) (workers : List String) (p q : Pool) : Type 0 where
  takes_turn :
      (before rest : List Runner) (x : Runner) (ok : Bool) (r : Turned)
      → p.runners ≡ before ++ x ∷ rest
      → turn size workers ok x.task x.attempted p.shared x.phase ≡ some r
      → q ≡ record { runners = before ++ turned x r ∷ rest; shared = r.shared }
      → Step size workers p q

-- So many turns lead from the one to the other.
pub data Steps (size : ℕ) (workers : List String) (p : Pool) : ℕ → Pool → Type 0 where
  here : Steps size workers p zero p
  later :
      {n : ℕ} {q r : Pool}
      → Steps size workers p n q
      → Step size workers q r
      → Steps size workers p (suc n) r

-- A number that each runner contributes to.
abbrev pub total : (Runner → ℕ) → List Runner → ℕ
total f [] = 0
total f (x ∷ xs) = f x + total f xs

pub total-append :
    (f : Runner → ℕ) (xs ys : List Runner) → total f (xs ++ ys) ≡ total f xs + total f ys
total-append f [] ys = omega arith
total-append f (x ∷ xs) ys = omega (arith, total-append f xs ys)

-- What a turn changes of such a number.
pub total-swap :
    (f : Runner → ℕ) (before rest : List Runner) (x y : Runner)
    → total f (before ++ x ∷ rest) + f y ≡ total f (before ++ y ∷ rest) + f x
total-swap f before rest x y =
    omega (arith, total-append f before (x ∷ rest), total-append f before (y ∷ rest))

pub All-at :
    (P : Runner → Type 0) (before rest : List Runner) (x : Runner)
    → All P (before ++ x ∷ rest)
    → P x
All-at P [] rest x h = h.0
All-at P (y ∷ ys) rest x h = All-at P ys rest x h.1

pub All-swap :
    (P : Runner → Type 0) (before rest : List Runner) (x y : Runner)
    → All P (before ++ x ∷ rest)
    → P y
    → All P (before ++ y ∷ rest)
All-swap P [] rest x y h hy = (hy, h.1)
All-swap P (z ∷ zs) rest x y h hy = (h.0, All-swap P zs rest x y h.1 hy)

-- The kinds of turn, each with what it leaves and what is known there.
pub data Move (size : ℕ) (workers : List String) (t : Task) (attempted : List String) (s : Shared)
    : Phase → Turned → Type 0 where
  leaves :
      (w : String)
      → make_chunk size t.start t.count ≡ 0
      → Move size workers t attempted s
          (sends_to w)
          (record { attempted = attempted; phase = ended_on w; shared = s })
  delivers :
      (w : String)
      → 0 < make_chunk size t.start t.count
      → Move size workers t attempted s
          (sends_to w)
          (record { attempted = attempted; phase = ended true; shared = release w s })
  gives_up :
      (w : String)
      → 0 < make_chunk size t.start t.count
      → length workers ≤ length (add w attempted)
      → Move size workers t attempted s
          (sends_to w)
          (record { attempted = add w attempted; phase = ended false; shared = release w s })
  retries :
      (w : String)
      → 0 < make_chunk size t.start t.count
      → length (add w attempted) < length workers
      → Move size workers t attempted s
          (sends_to w)
          (record { attempted = add w attempted; phase = scans; shared = release w s })
  takes :
      (w : String)
      → contains s.used w ≡ false
      → contains attempted w ≡ false
      → contains workers w ≡ true
      → Move size workers t attempted s scans (record {
        attempted = attempted;
        phase = sends_to w;
        shared = record { used = w ∷ s.used; token = s.token };
      })
  finds_none :
      length workers ≤ length attempted
      → Move size workers t attempted s scans
          (record { attempted = attempted; phase = ended false; shared = s })
  waits_there :
      length attempted < length workers
      → first_free workers s.used attempted ≡ none
      → Move size workers t attempted s scans
          (record { attempted = attempted; phase = blocked; shared = s })
  wakes :
      s.token ≡ true
      → Move size workers t attempted s blocked (record {
        attempted = attempted;
        phase = scans;
        shared = record { used = s.used; token = false };
      })

module _ (size : ℕ) (workers : List String) (t : Task) (attempted : List String) (s : Shared) where
  answered-Move :
      (ok : Bool) (w : String)
      → 0 < make_chunk size t.start t.count
      → Move size workers t attempted s (sends_to w) (answered (length workers) ok attempted w s)
  unfolding answered
  answered-Move true w full = delivers w full
  answered-Move false w full = elim (Bool-cases (leb (length workers) (length (add w attempted)))) [
    | inl all ↦ rw all (gives_up w full (ground arith))
    | inr more ↦ rw more (retries w full (ground arith))
  ]

  scanned-Move :
      Move size workers t attempted s scans
        (scanned (length workers) attempted s (first_free workers s.used attempted))
  unfolding scanned
  scanned-Move = elim (Option-cases (first_free workers s.used attempted)) [
    | inr (w, e) ↦
        let h = first_free-some workers s.used attempted w e in rw e (takes w h.0 h.1 h.2)
    | inl e ↦ elim (Bool-cases (leb (length workers) (length attempted))) [
      | inl all ↦ rw (e, all) (finds_none (ground arith))
      | inr more ↦ rw (e, more) (waits_there (ground arith) e)
    ]
  ]

  pub turn-Move :
      (ok : Bool) (ph : Phase) (r : Turned)
      → turn size workers ok t attempted s ph ≡ some r
      → Move size workers t attempted s ph r
  unfolding turn
  turn-Move ok (sends_to w) r e = elim (Bool-cases (make_chunk size t.start t.count == 0)) [
    | inl empty ↦
        let same : record { attempted = attempted; phase = ended_on w; shared = s } ≡ r =
          ground (arith, e, empty) in
        subst (λ u. Move size workers t attempted s (sends_to w) u) same
          (leaves w ((==_iff (make_chunk size t.start t.count) 0).0 empty))
    | inr full ↦
        let same : answered (length workers) ok attempted w s ≡ r = ground (arith, e, full) in
        subst (λ u. Move size workers t attempted s (sends_to w) u) same
          (answered-Move ok w (ground (arith, full)))
  ]
  turn-Move ok scans r e =
      let same : scanned (length workers) attempted s (first_free workers s.used attempted) ≡ r =
        cc in
      subst (λ u. Move size workers t attempted s scans u) same scanned-Move
  turn-Move ok blocked r e = elim (Bool-cases s.token) [
    | inl there ↦
        let same : record {
          attempted = attempted;
          phase = scans;
          shared = record { used = s.used; token = false };
        }
            ≡ r =
          ground (arith, e, there) in
        subst (λ u. Move size workers t attempted s blocked u) same (wakes there)
    | inr gone ↦ absurd (ground (arith, e, gone))
  ]
  turn-Move ok (ended good) r e = absurd cc
  turn-Move ok (ended_on w) r e = absurd cc
