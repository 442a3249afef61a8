-- ===== src/Partition/Pool/Owners.antt =====
-- What holds between the turns of the goroutines of partition.go: who holds which worker, and what
-- each has attempted.
use nfrx.Prelude.{
  ℕ, All, IsDistinct, List, String, contains, false, if◌then◌else◌, length, str_eq, ◌+◌, ◌<◌, ◌≡◌,
  ◌≤◌, arith, eq_iff, refl,
}
use nfrx.Partition.{make_chunk, Task}
use nfrx.Partition.Pool.{
  Phase, Pool, Runner, Shared, Turned, blocked, ended, ended_on, release, scans, sends_to,
}
use nfrx.Partition.Pool.Sets.{contains-remove, add-IsDistinct}
use nfrx.Prelude.{◌++◌, ◌∷◌}
use nfrx.Partition.Pool.{Pool}
use nfrx.Partition.Pool.Turns.{
  leaves, leaves, takes_turn, later, total, All-at, All-swap, Move, Step, Steps, here, total-append,
  total-swap, turn-Move, turned, delivers, finds_none, gives_up, retries, takes, waits_there, wakes,
}

-- One if the goroutine holds the worker `w`.
unfoldable pub holds_in : String → Phase → ℕ
holds_in w (sends_to v) = if str_eq v w then 1 else 0
holds_in w scans = 0
holds_in w blocked = 0
holds_in w (ended good) = 0
holds_in w (ended_on v) = if str_eq v w then 1 else 0

abbrev pub holds : String → Runner → ℕ
holds w x = holds_in w x.phase

abbrev pub one_if_in : List String → String → ℕ
one_if_in xs w = if contains xs w then 1 else 0

-- A worker is in `used` when a goroutine holds it, and then one does.
abbrev pub Exclusive : Pool → Type 0
Exclusive p = (w : String) → total (holds w) p.runners ≡ one_if_in p.shared.used w

-- What a runner keeps: it has tried distinct workers, not the one it sends to, and not all of
-- them; only an empty chunk ends a runner on its worker.
unfoldable pub KeepsPhase : ℕ → ℕ → Task → List String → Phase → Type 0
KeepsPhase size n t attempted (sends_to w) = (contains attempted w ≡ false) × (length attempted < n)
KeepsPhase size n t attempted scans = length attempted < n
KeepsPhase size n t attempted blocked = length attempted < n
KeepsPhase size n t attempted (ended good) = Unit {0}
KeepsPhase size n t attempted (ended_on w) = make_chunk size t.start t.count ≡ 0

abbrev pub Keeps : ℕ → ℕ → Runner → Type 0
Keeps size n x = IsDistinct x.attempted × KeepsPhase size n x.task x.attempted x.phase

abbrev pub Inv : ℕ → List String → Pool → Type 0
Inv size workers p = Exclusive p × All (Keeps size (length workers)) p.runners

module _ (size : ℕ) (workers : List String) (t : Task) (attempted : List String) (s : Shared) where
  -- A turn changes what the goroutine holds and `used` alike.
  Move-holds :
      (ph : Phase) (r : Turned) (w : String)
      → Move size workers t attempted s ph r
      → holds_in w ph ≤ one_if_in s.used w
      → one_if_in r.shared.used w + holds_in w ph ≡ one_if_in s.used w + holds_in w r.phase
  unfolding holds_in release contains
  Move-holds ph r w (leaves v empty) h = refl
  Move-holds ph r w (delivers v full) h = ground (arith, contains-remove v s.used w, eq_iff v w)
  Move-holds ph r w (gives_up v full all) h = ground (arith, contains-remove v s.used w, eq_iff v w)
  Move-holds ph r w (retries v full more) h = ground (arith, contains-remove v s.used w, eq_iff v w)
  Move-holds ph r w (takes v free new known) h = ground (arith, free, eq_iff v w)
  Move-holds ph r w (finds_none all) h = refl
  Move-holds ph r w (waits_there more nothing) h = refl
  Move-holds ph r w (wakes there) h = refl

  Move-Keeps :
      (ph : Phase) (r : Turned)
      → Move size workers t attempted s ph r
      → IsDistinct attempted × KeepsPhase size (length workers) t attempted ph
      → IsDistinct r.attempted × KeepsPhase size (length workers) t r.attempted r.phase
  unfolding KeepsPhase
  Move-Keeps ph r (leaves v empty) k = (k.0, empty)
  Move-Keeps ph r (delivers v full) k = (k.0, tt)
  Move-Keeps ph r (gives_up v full all) k = (add-IsDistinct v attempted k.0, tt)
  Move-Keeps ph r (retries v full more) k = (add-IsDistinct v attempted k.0, more)
  Move-Keeps ph r (takes v free new known) k = (k.0, (new, k.1))
  Move-Keeps ph r (finds_none all) k = (k.0, tt)
  Move-Keeps ph r (waits_there more nothing) k = k
  Move-Keeps ph r (wakes there) k = k

module _ (size : ℕ) (workers : List String) where
  Step-Exclusive : (p q : Pool) → Step size workers p q → Exclusive p → Exclusive q
  Step-Exclusive p q (takes_turn before rest x ok r e h e') ex w =
      let m = turn-Move size workers x.task x.attempted p.shared ok x.phase r h in
      let ex' : total (holds w) (before ++ x ∷ rest) ≡ one_if_in p.shared.used w =
        rw (← e) (ex w) in
      let low : holds_in w x.phase ≤ one_if_in p.shared.used w =
        omega (arith, ex', total-append (holds w) before (x ∷ rest)) in
      let moved = Move-holds size workers x.task x.attempted p.shared x.phase r w m low in
      rw e' (omega (arith, ex', moved, total-swap (holds w) before rest x (turned x r)))

  Step-Keeps :
      (p q : Pool)
      → Step size workers p q
      → All (Keeps size (length workers)) p.runners
      → All (Keeps size (length workers)) q.runners
  Step-Keeps p q (takes_turn before rest x ok r e h e') k =
      let m = turn-Move size workers x.task x.attempted p.shared ok x.phase r h in
      let k' : All (Keeps size (length workers)) (before ++ x ∷ rest) = rw (← e) k in
      let kx = All-at (Keeps size (length workers)) before rest x k' in
      rw e' (
        All-swap (Keeps size (length workers)) before rest x (turned x r) k'
          (Move-Keeps size workers x.task x.attempted p.shared x.phase r m kx))

  pub Step-Inv : (p q : Pool) → Step size workers p q → Inv size workers p → Inv size workers q
  Step-Inv p q st i = (Step-Exclusive p q st i.0, Step-Keeps p q st i.1)

  pub Steps-Inv :
      (p q : Pool) (n : ℕ) → Steps size workers p n q → Inv size workers p → Inv size workers q
  Steps-Inv p q n here i = i
  Steps-Inv p q n (later {n = k} {q = o} before st) i = Step-Inv o q st (Steps-Inv p o k before i)
