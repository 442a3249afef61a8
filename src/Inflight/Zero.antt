-- ===== src/Inflight/Zero.antt =====
-- Every order of the operations of inflight.go, and when a waiting drain is released.
use nfrx.Prelude.{
  ℕ, ==_iff, Option, Option-cases, arith, if◌then◌else◌, inl, inr, ltb, none, occurrences, refl,
  some, subst, suc, sym, ◌&&◌, ◌==◌, ◌≡◌, Bool-cases, ◌-◌, ◌<◌, ◌≤◌,
}
use nfrx.Inflight.{
  Counter, inc, dec, zero_channel, close_zero, ensure_channel, make_channel, zero_counter, lower,
  raise,
}

pub data Step : Counter → Counter → Type 0 where
  incs : {c : Counter} → Step c (inc c)
  decs : {c : Counter} → Step c (dec c)
  waits : {c : Counter} → Step c (zero_channel c).0

pub data Reach : Counter → Type 0 where
  start : Reach zero_counter
  after : {c d : Counter} → Reach c → Step c d → Reach d

-- The current channel is the newest one.
abbrev IsNewest : Option ℕ → ℕ → ℕ → Type 0
IsNewest none count fresh = (count ≡ 0) × (fresh ≡ 0)
IsNewest (some ch) count fresh = fresh ≡ suc ch

-- How often a channel is closed: each but the newest once, the newest when the count is 0.
abbrev closings : ℕ → ℕ → ℕ → ℕ
closings count fresh ch =
    if ltb (suc ch) fresh then 1 else if suc ch == fresh && count == 0 then 1 else 0

record Inv (c : Counter) : Type 0 where
  newest : IsNewest c.zero_ch c.count c.fresh
  settled : (ch : ℕ) → occurrences ch c.closed ≡ closings c.count c.fresh ch

-- The same with a channel that is not nil.
record Ready (c : Counter) : Type 0 where
  current : ℕ
  is_current : c.zero_ch ≡ some current
  last : c.fresh ≡ suc current
  settled : (ch : ℕ) → occurrences ch c.closed ≡ closings c.count c.fresh ch

Ready→Inv : (c : Counter) → Ready c → Inv c
Ready→Inv c k = record {
  newest = subst (λ z. IsNewest z c.count c.fresh) (sym k.is_current) k.last;
  settled = k.settled;
}

ensure_channel-Ready : (c : Counter) → Inv c → Ready (ensure_channel c)
unfolding ensure_channel make_channel close_zero
ensure_channel-Ready c k = elim (Option-cases c.zero_ch) [
  | inr (ch, some_ch) ↦
      rw (some_ch, ensure_channel)
        (record {
          current = ch;
          is_current = some_ch;
          last = subst (λ z. IsNewest z c.count c.fresh) some_ch k.newest;
          settled = k.settled;
        })
  | inl nil ↦
      let zeros = subst (λ z. IsNewest z c.count c.fresh) nil k.newest in
      rw (nil, ensure_channel, (==_iff c.count 0).1 zeros.0)
        (record {
          current = c.fresh;
          is_current = refl;
          last = refl;
          settled = λ ch. ground (arith, k.settled ch, zeros.0, zeros.1);
        })
]

ensure_channel-count : (c : Counter) → (ensure_channel c).count ≡ c.count
unfolding ensure_channel make_channel close_zero
ensure_channel-count c = elim (Option-cases c.zero_ch) [
  | inr (ch, some_ch) ↦ rw (some_ch, ensure_channel) refl
  | inl nil ↦ elim (Bool-cases (c.count == 0)) [
    | inl idle ↦ rw (nil, idle, ensure_channel) refl
    | inr busy ↦ rw (nil, busy, ensure_channel) refl
  ]
]

raise-Ready : (c : Counter) → Ready c → Ready (raise c)
unfolding raise make_channel
raise-Ready c k = elim (Bool-cases (c.count == 0)) [
  | inl idle ↦
      rw (idle, raise)
        (record {
          current = c.fresh;
          is_current = refl;
          last = refl;
          settled = λ ch. ground (arith, idle, k.settled ch, k.last);
        })
  | inr busy ↦
      rw (busy, raise)
        (record {
          current = k.current;
          is_current = k.is_current;
          last = k.last;
          settled = λ ch. ground (arith, busy, k.settled ch, k.last);
        })
]

lower-Ready : (c : Counter) → Ready c → Ready (lower c)
unfolding lower close_zero
lower-Ready c k = elim (Bool-cases (ltb 0 c.count)) [
  | inr idle ↦ rw (idle, lower) k
  | inl busy ↦ elim (Bool-cases (c.count - 1 == 0)) [
    | inr more ↦
        rw (busy, more, lower)
          (record {
            current = k.current;
            is_current = k.is_current;
            last = k.last;
            settled = λ ch. ground (arith, busy, more, k.settled ch, k.last);
          })
    | inl done ↦
        rw (busy, done, k.is_current, lower)
          (record {
            current = k.current;
            is_current = k.is_current;
            last = k.last;
            settled = λ ch. ground (arith, busy, done, k.settled ch, k.last);
          })
  ]
]

step-Inv : {c d : Counter} → Step c d → Inv c → Inv d
unfolding inc dec zero_channel
step-Inv (incs {c}) k = Ready→Inv _ (raise-Ready (ensure_channel c) (ensure_channel-Ready c k))
step-Inv (decs {c}) k = Ready→Inv _ (lower-Ready (ensure_channel c) (ensure_channel-Ready c k))
step-Inv (waits {c}) k = Ready→Inv _ (ensure_channel-Ready c k)

holds : {c : Counter} → Reach c → Inv c
holds start = record { newest = (refl, refl); settled = λ ch. ground arith }
holds (after r s) = step-Inv s (holds r)

-- No channel is closed twice, in any order of the operations.
pub zero_closed_once : (c : Counter) (ch : ℕ) → Reach c → occurrences ch c.closed ≤ 1
zero_closed_once c ch r = ground (arith, (holds r).settled ch)

-- When the count is 0, every channel that was handed out is closed: whoever waits is released.
pub drained-closed :
    (c : Counter) (ch : ℕ) → Reach c → c.count ≡ 0 → ch < c.fresh → occurrences ch c.closed ≡ 1
drained-closed c ch r drained made = ground (arith, (holds r).settled ch, drained, made)

-- What a drain gets to wait for is open while requests are in flight, and closed when none is.
pub zero_channel-Reach :
    (c : Counter)
    → Reach c
    → (ch : ℕ) × ((zero_channel c).1 ≡ some ch)
      × (occurrences ch (zero_channel c).0.closed ≡ (if c.count == 0 then 1 else 0))
unfolding zero_channel
zero_channel-Reach c r =
    let k = ensure_channel-Ready c (holds r) in
    (k.current, k.is_current, ground (arith, k.settled k.current, k.last, ensure_channel-count c))
