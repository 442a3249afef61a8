-- ===== src/Transfer/Examples.antt =====
-- One transfer of transfer.go from its creation to its end, and the theorems at its states.
use nfrx.Prelude.{String, [], contains, if◌then◌else◌, none, refl, some, str_eq, true, ◌∷◌, ◌≡◌}
use nfrx.Prelude.Dict.{insert, lookup}
use nfrx.Transfer.{
  Channel, Registry, attach, attach_channel, create, default_ttl, new_channel, ok, reader_role,
  registered, writer_role,
}
use nfrx.Transfer.Steps.{Inv, Reach, Reach-Inv, attaches, creates, here, next}
use nfrx.Transfer.Roles.{Granted, attach-Granted}

abbrev empty : Registry
empty = record { channels = []; heap = []; ttl = default_ttl }

empty-Inv : Inv empty
unfolding lookup contains
empty-Inv = record { sound = λ id ch h. cc; open_registered = λ id ch h. cc; stored = λ id h. cc }

abbrev opened : Registry
unfolding create insert
opened = (create "t1" 5 empty).0

abbrev held : Channel
held = record (new_channel "t1" 60_000_000_005) { reader = some 1 }

abbrev joined : Channel
joined = record held { writer = some 2; timer = none; ready = true }

abbrev waiting : Registry
waiting = record { channels = "t1" ∷ []; heap = ("t1", held) ∷ []; ttl = default_ttl }

abbrev meeting : Registry
meeting = record { channels = "t1" ∷ []; heap = ("t1", joined) ∷ []; ttl = default_ttl }

path_to_waiting : Reach empty waiting
unfolding create insert attach_channel lookup
path_to_waiting =
    next (next here (creates "t1" 5 refl))
      (attaches "t1" reader_role 1 (new_channel "t1" 60_000_000_005) held refl refl)

path_to_meeting : Reach empty meeting
unfolding insert attach_channel lookup
path_to_meeting = next path_to_waiting (attaches "t1" writer_role 2 held joined refl refl)

Reach-Inv_example : Inv meeting
Reach-Inv_example = Reach-Inv path_to_meeting empty-Inv

waiting-Inv : Inv waiting
waiting-Inv = Reach-Inv path_to_waiting empty-Inv

attach-Granted_example :
    (new : Channel) × ((attach "t1" writer_role 2 waiting).1 ≡ ok new)
    × Granted writer_role 2 held new
    × ((j : String)
        → lookup j (attach "t1" writer_role 2 waiting).0.heap
          ≡ (if str_eq "t1" j then some new else lookup j waiting.heap))
unfolding registered lookup contains
attach-Granted_example = attach-Granted "t1" writer_role 2 waiting held waiting-Inv refl refl
