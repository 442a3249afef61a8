-- ===== src/Tunnel/Connect.antt =====
-- Who may connect to the tunnel registry.
use nfrx.Prelude.{
  ℕ, Option-cases, String, [], if◌then◌else◌, inl, inr, none, pos, refl, some, str_cases, str_eq,
  subst, ◌∙◌, ◌≡◌,
}
use nfrx.Prelude.Dict.{Dict, lookup, insert, lookup-insert}
use nfrx.Tunnel.{Relay, connect}

insert_missing-kept :
    (id other : String) (rl new : Relay) (relays : Dict Relay)
    → lookup id relays ≡ none
    → lookup other relays ≡ some rl
    → lookup other (insert id new relays) ≡ some rl
insert_missing-kept id other rl new relays missing found =
    lookup-insert id other new relays ∙ (elim (str_cases id other) [
      | inl same ↦ absurd (cc (subst (λ t. lookup t relays ≡ none) same.0 missing, found))
      | inr different ↦ rw different found
    ])

-- A connection that is let in never takes the place of a relay that is connected already.
pub connect-kept :
    (id name fresh_id other : String) (now : ℕ) (relays new : Dict Relay) (rl : Relay)
    → connect id name fresh_id now relays ≡ some new
    → lookup other relays ≡ some rl
    → lookup other new ≡ some rl
unfolding connect
connect-kept id name fresh_id other now relays new rl joined found =
    let id' = if str_eq id "" then fresh_id else id in
    let made : Relay = record {
      pending = [];
      inflight = pos 0;
      last_seen = now;
      name = name;
      id = id';
      sessions = [];
      methods = [];
    } in
    elim (Option-cases (lookup id' relays)) [
      | inr (present, there) ↦
          let e : connect id name fresh_id now relays ≡ none = rw (there, connect) refl in
          absurd (cc (e, joined))
      | inl missing ↦
          let e : connect id name fresh_id now relays ≡ some (insert id' made relays) =
            rw (missing, connect) refl in
          let same : insert id' made relays ≡ new = cc (e, joined) in
          subst (λ t. lookup other t ≡ some rl) same
            (insert_missing-kept id' other rl made relays missing found)
    ]
