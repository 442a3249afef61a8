-- ===== src/Completions/Order.antt =====
-- In which order the requests of queue.go are dispatched, and how they move up.
use nfrx.Prelude.{
  All, Bool, Bool-cases, List, String, [], arith, eq_iff, false, if◌then◌else◌, inl, inr, length,
  ltb, refl, str_eq, subst, suc, true, ℤ, ◌&&◌, ◌++◌, ◌-◌, ◌∷◌, ◌≡◌, ◌≤◌, ◌⊎◌, length-append,
  negsuc, pos, sym, ℕ, ◌==◌, ap,
}
use nfrx.Prelude.Int.{pos_part, leb_ℤ}
use nfrx.Completions.{
  QueuedRequest, CompletionQueue, enter, leave, position, is_first_dispatchable, is_first,
  leave_items, len, position_in,
}

first_leaves :
    (o : ℕ)
    → o
      ≡ (if o == 0 then 0 else suc o)
        - (if ltb 0 1 && ltb 1 (if o == 0 then 0 else suc o) then 1 else 0)
first_leaves o = ground arith

first_stays :
    (p : ℕ)
    → 1
      ≡ 1
        - (if ltb 0 (if p == 0 then 0 else suc p) && ltb (if p == 0 then 0 else suc p) 1
            then 1
            else 0)
first_stays p = ground arith

one_behind :
    (p o l : ℕ)
    → l ≡ o - (if ltb 0 p && ltb p o then 1 else 0)
    → (if l == 0 then 0 else suc l)
      ≡ (if o == 0 then 0 else suc o)
        - (if ltb 0 (if p == 0 then 0 else suc p)
              && ltb (if p == 0 then 0 else suc p) (if o == 0 then 0 else suc o)
            then 1
            else 0)
one_behind p o l h = ground arith

leave_items-position_in :
    (id other : String) (items : List QueuedRequest)
    → str_eq id other ≡ false
    → position_in other (leave_items id items)
      ≡ position_in other items
        - (if ltb 0 (position_in id items) && ltb (position_in id items) (position_in other items)
            then 1
            else 0)
unfolding leave_items position_in
leave_items-position_in id other [] ne = refl
leave_items-position_in id other (v ∷ rest) ne = elim (Bool-cases (str_eq v.id id)) [
  | inl leaves ↦
      let unlike : str_eq v.id other ≡ false =
        subst (λ t. str_eq t other ≡ false) (sym ((eq_iff v.id id).0 leaves)) ne in
      rw (leaves, unlike) (first_leaves (position_in other rest))
  | inr stays ↦ elim (Bool-cases (str_eq v.id other)) [
    | inl looked_for ↦ rw (stays, looked_for) (first_stays (position_in id rest))
    | inr neither ↦
        rw (stays, neither)
          (one_behind (position_in id rest) (position_in other rest)
            (position_in other (leave_items id rest)) (leave_items-position_in id other rest ne))
  ]
]

-- When a request leaves, those behind it move up by one, and the others stay.
pub leave-position :
    (id other : String) (q : CompletionQueue)
    → str_eq id other ≡ false
    → position other (leave id q)
      ≡ position other q
        - (if ltb 0 (position id q) && ltb (position id q) (position other q) then 1 else 0)
unfolding leave position
leave-position id other q ne = leave_items-position_in id other q.items ne

position_in-append :
    (id other model : String) (items : List QueuedRequest)
    → position_in other (items ++ record { id = id; model = model } ∷ []) ≡ (
        if ltb 0 (position_in other items)
        then position_in other items
        else if str_eq id other
        then suc (length items)
        else 0)
unfolding position_in
position_in-append id other model [] = ground arith
position_in-append id other model (v ∷ rest) =
    ground (arith, position_in-append id other model rest)

room :
    (c : ℤ) (n : ℕ)
    → ((leb_ℤ c (pos 0) ≡ true) × (pos_part c ≤ n))
      ⊎ (((leb_ℤ c (pos 0) ≡ false) × (leb_ℤ c (pos n) ≡ true) × (pos_part c ≤ n))
          ⊎ ((leb_ℤ c (pos 0) ≡ false) × (leb_ℤ c (pos n) ≡ false) × (suc n ≤ pos_part c)))
room (pos c) n = ground arith
room (negsuc c) n = inl (ground arith)

-- A request enters exactly when the capacity is positive and not used up. Its position is then the
-- new length, which is within the capacity; who waits already keeps the position.
pub enter-position :
    (id other model : String) (q : CompletionQueue)
    → ((enter id model q ≡ (q, 0, false)) × (pos_part q.cap ≤ len q))
      ⊎ (((enter id model q).1 ≡ suc (len q))
          × ((enter id model q).2 ≡ true)
          × (len (enter id model q).0 ≡ suc (len q))
          × (suc (len q) ≤ pos_part q.cap)
          × (position other (enter id model q).0 ≡ (
              if ltb 0 (position other q)
              then position other q
              else if str_eq id other
              then suc (len q)
              else 0)))
unfolding enter position len
enter-position id other model q = elim (room q.cap (len q)) [
  | inl (shut, bound) ↦ rw (shut, enter) (inl (refl, bound))
  | inr (inl (some_room, used, bound)) ↦ rw (some_room, used, enter) (inl (refl, bound))
  | inr (inr (some_room, free, bound)) ↦
      let longer = length-append q.items (record { id = id; model = model } ∷ []) in
      rw (some_room, free, enter)
        (inr (
          omega (arith, longer),
          refl,
          omega (arith, longer),
          bound,
          position_in-append id other model q.items,
        ))
]

-- Nobody is told that it may be dispatched.
abbrev pub NoneMay : (String → Bool) → CompletionQueue → Type 0
NoneMay can_dispatch q =
    All (λ v. can_dispatch v.model ≡ false) q.items
    × ((other : String) → is_first_dispatchable other can_dispatch q ≡ false)

-- The first entry that can be dispatched, with what stands before it and behind it.
pub record Foremost (can_dispatch : String → Bool) (q : CompletionQueue) : Type 0 where
  pub before : List QueuedRequest
  pub item : QueuedRequest
  pub after : List QueuedRequest
  pub stands : q.items ≡ before ++ item ∷ after
  pub blocked : All (λ v. can_dispatch v.model ≡ false) before
  pub can : can_dispatch item.model ≡ true
  pub told : (other : String) → is_first_dispatchable other can_dispatch q ≡ str_eq item.id other

-- Either no entry of the queue can be dispatched, and every id is told that it may not be; or there
-- is a first entry that can be, behind entries that all cannot, and exactly its id is told that it
-- may be.
pub dispatchable_one :
    (can_dispatch : String → Bool) (q : CompletionQueue)
    → NoneMay can_dispatch q ⊎ Foremost can_dispatch q
unfolding is_first_dispatchable is_first
dispatchable_one can_dispatch q = among q.items
  where
    among :
        (items : List QueuedRequest)
        → NoneMay can_dispatch (record q { items = items })
          ⊎ Foremost can_dispatch (record q { items = items })
    among [] = inl (tt, λ other. refl)
    among (v ∷ rest) = elim (Bool-cases (can_dispatch v.model)) [
      | inl fits ↦ inr (record {
        before = [];
        item = v;
        after = rest;
        stands = refl;
        blocked = tt;
        can = fits;
        told = λ other. rw fits refl;
      })
      | inr stuck ↦ elim (among rest) [
        | inl nobody ↦ inl ((stuck, nobody.0), λ other. rw stuck (nobody.1 other))
        | inr f ↦ inr (record {
          before = v ∷ f.before;
          item = f.item;
          after = f.after;
          stands = ap (λ t. v ∷ t) f.stands;
          blocked = (stuck, f.blocked);
          can = f.can;
          told = λ other. rw stuck (f.told other);
        })
      ]
    ]
