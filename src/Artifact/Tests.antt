-- ===== src/Artifact/Tests.antt =====
-- compat/artifact_quota.py: the reservations on small runs, and the theorems at inputs that meet
-- their hypotheses.
use hermes_app.Base.{◌≡◌, refl, none, some, List, [], ◌∷◌, ok, raised, Exc}
use hermes_app.Artifact.Defs.{
  Reservation, Settings, limit, has_token, of_principal, is_artifact, same_artifact, clash,
  is_expired, global_used, principal_used, new_reservation, reserve_live, reserve, unnamed, named,
  finalize, cancel, release, expire, Op, step, play,
}
use hermes_app.Artifact.Limits.{WithinLimits, play-WithinLimits, finalize-once}

program : Unit {0}
unfolding limit has_token of_principal is_artifact same_artifact clash is_expired global_used
    principal_used new_reservation reserve_live reserve unnamed named finalize cancel release expire
    step play
program = tt

abbrev small : Settings
small = record { principal_setting = some 10; global_setting = some 15 }

abbrev first : Reservation
first = record {
  token = "t1";
  principal = "p";
  size_bytes = 8;
  store_root = none;
  artifact_id = none;
  expires_at = 3700;
}

reserves_one : reserve small 100 "t1" "p" 8 60 [] ≡ ok ("t1", first ∷ [])
unfolding program
reserves_one = refl

refuses_more : reserve small 100 "t2" "p" 3 60 (first ∷ []) ≡ raised Exc.quota_exceeded
unfolding program
refuses_more = refl

room_again :
    play small (first ∷ []) (Op.reserving 3700 "t2" "p" 3 60 ∷ [])
    ≡ record first { token = "t2"; size_bytes = 3; expires_at = 7300 } ∷ []
unfolding program
room_again = refl

abbrev traffic : List Op
traffic =
    Op.reserving 100 "t1" "p" 8 60
    ∷ Op.reserving 101 "t2" "p" 8 60
    ∷ Op.finalizing "t1" "/s" "a" 200
    ∷ Op.releasing "/s" "b"
    ∷ []

play-WithinLimits_example : WithinLimits small (play small [] traffic)
play-WithinLimits_example = play-WithinLimits small traffic

abbrev finalized : List Reservation
finalized = record first { store_root = some "/s"; artifact_id = some "a"; expires_at = 200 } ∷ []

finalizes_one : finalize "t1" "/s" "a" 200 (first ∷ []) ≡ ok (tt, finalized)
unfolding program
finalizes_one = refl

finalize-once_example : finalize "t1" "/s" "b" 300 finalized ≡ raised Exc.runtime_error
finalize-once_example =
    finalize-once "t1" "/s" "a" "/s" "b" 200 300 (first ∷ []) finalized finalizes_one
