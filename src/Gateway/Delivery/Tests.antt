-- ===== src/Gateway/Delivery/Tests.antt =====
-- Runs of packages/gateway/src/delivery-tracker.ts.
use templar.Prelude.{
  ℕ, ◌≡◌, ◌≢◌, refl, true, false, none, some, List, [], ◌∷◌, String, arith, str_eq, eq_iff, sym,
  ◌∙◌,
}
use templar.Prelude.Maps.{lookup, insert}
use templar.Gateway.Lanes.{LaneMessage, queued, collect}
use templar.Gateway.Delivery.{
  DeliveryTracker, PendingMessage, init, track, track_in, to_snapshot, from_snapshot,
}
use templar.Gateway.Delivery.Valid
use templar.Gateway.Delivery.Valid.{
  IsValid, Call, tracks, acks, removes, HasId, run, tracker_run-IsValid,
}
use templar.Gateway.Delivery.Track.{victim}
use templar.Gateway.Delivery.Snapshot.{from_snapshot-to_snapshot}

abbrev message : String → LaneMessage
message id = record {
  id = id;
  lane = queued collect;
  channel_id = "general";
  payload = "{}";
  timestamp = 0;
  routing_context = none;
}

abbrev sent : String → ℕ → PendingMessage
sent id now = record { message_id = id; node_id = "n"; sent_at = now; message = message id }

-- Two messages of one node, which is full.
abbrev full : DeliveryTracker
full = record { max_pending = 2; pending = ("n", ("a", sent "a" 5) ∷ ("b", sent "b" 3) ∷ []) ∷ [] }

abbrev calls : List Call
calls =
    tracks "n" (message "a") 1
    ∷ tracks "n" (message "b") 2
    ∷ tracks "n" (message "c") 3
    ∷ acks "n" "b"
    ∷ removes "m"
    ∷ []

ne_of_test : (a b : String) → str_eq a b ≡ false → a ≢ b
ne_of_test a b h e = ground (arith, eq_iff a b)

tracker_run-IsValid_example : IsValid (run (init 2) calls) × ((run (init 2) calls).max_pending ≡ 2)
tracker_run-IsValid_example =
    tracker_run-IsValid 2 calls
      (ne_of_test "a" "" refl, (ne_of_test "b" "" refl, (ne_of_test "c" "" refl, (tt, (tt, tt)))))

a_goes : victim full "n" ≡ some "a"
unfolding lookup
a_goes = refl

b_stays : victim full "n" ≢ some "b"
b_stays e =
    let h : some "a" ≡ some "b" = sym a_goes ∙ e in ne_of_test "a" "b" refl (ground (arith, h))

full-IsValid : IsValid full
unfolding lookup insert Valid.run Valid.step track track_in
full-IsValid =
    (tracker_run-IsValid 2 (tracks "n" (message "a") 5 ∷ tracks "n" (message "b") 3 ∷ [])
      (ne_of_test "a" "" refl, (ne_of_test "b" "" refl, tt))).0

from_snapshot-to_snapshot_example :
    from_snapshot (λ s. true) (init 2) (to_snapshot full 7) ≡ some full
from_snapshot-to_snapshot_example =
    from_snapshot-to_snapshot (λ s. true) full (init 2) 7 full-IsValid refl refl
