-- ===== src/Examples/Peers.antt =====
-- The theorems on a peer's task at concrete turns.
use icegres.Prelude.{◌≡◌, refl, inr, none, some, List, [], ◌∷◌, true, false, arith}
use icegres.Prelude.Bytes.{to_le}
use icegres.Quorum.Record.{record_payload}
use icegres.Quorum.TermHistory.{up_to}
use icegres.Quorum.Message.{Message}
use icegres.Quorum.Proposer.{Shared, timed_out, store_ack, next_batch, set_flush, pick_donor}
use icegres.Quorum.Election.{Network, delivered, answered, reelect}
use icegres.Quorum.RunPeer.{
  Task, Turn, own, others, nth_flush, inner, checked, returned, appended, new_task, nth_failed,
  step, run_peer,
}
use icegres.Quorum.RunPeer.Stops.{AllKeep, run_peer-returned}
use icegres.Quorum.RunPeer.Race.{reelect-expels}
use icegres.Quorum.RunPeer.Stream.{idle, IsProtocol, run_peer-IsProtocol}
use icegres.Quorum.RunPeer.Guarantee.{Guarantee, step-Guarantee}
use icegres.Examples.Proposers.{proposer, all_committed, agreeable, quiet}

-- Acceptors that also ack every append.
abbrev acking : Network
acking = record {
  World = Unit {0};
  connect = λ w i. (true, w);
  exchange = λ w i m. (delivered (ack m), w);
}
  where
    ack : Message → Message
    ack (Message.append term begin end commit horizon records) =
        Message.append_resp term true end commit
    ack m = agreeable m

abbrev inside : Task
inside = record (new_task none) { phase = inner 4 }

abbrev turns : List Turn
turns = others all_committed ∷ own ∷ own ∷ own ∷ own ∷ []

run_peer-IsProtocol_example :
    IsProtocol (idle 4 3) (run_peer 1 acking "tail" turns inside proposer tt).0
run_peer-IsProtocol_example =
    run_peer-IsProtocol 1 acking "tail" turns (idle 4 3) inside proposer tt
      (unfold AllKeep in (ground arith, tt)) (omega arith, (refl, (refl, inr (refl, refl))))

-- One append, from 3 to 35, is sent and acked.
acked_35 :
    ((run_peer 1 acking "tail" turns inside proposer tt).1.phase ≡ inner 4)
    × (nth_flush 1 (run_peer 1 acking "tail" turns inside proposer tt).2.peers ≡ 35)
unfolding run_peer step store_ack next_batch set_flush record_payload to_le
acked_35 = (refl, refl)

abbrev poisoned : Shared
poisoned = record proposer { poison = some timed_out }

abbrev streaming : Task
streaming = record (new_task none) { phase = checked 4 }

run_peer-returned_example :
    (run_peer 1 acking "tail" (own ∷ own ∷ own ∷ own ∷ own ∷ []) streaming poisoned tt).1.phase
    ≡ returned
run_peer-returned_example =
    run_peer-returned 1 acking "tail" (own ∷ own ∷ own ∷ own ∷ own ∷ []) streaming poisoned tt
      timed_out refl (unfold AllKeep in tt) (omega arith)

abbrev answered_task : Task
answered_task = record (new_task none) {
  phase = appended 4 (answered (Message.append_resp 4 true 35 3));
}

step-Guarantee_example : Guarantee 1 proposer (step 1 acking "tail" answered_task proposer tt).2
step-Guarantee_example = step-Guarantee 1 proposer acking "tail" answered_task tt

reelect-expels_example :
    let s' = (reelect quiet "tail" proposer tt).1 in
    let end = (run_peer 1 quiet "tail" (own ∷ others s' ∷ own ∷ own ∷ []) inside proposer tt).2 in
    (nth_failed 1 s'.peers ≡ false) × (end.election.term ≡ 5) × (nth_failed 1 end.peers ≡ true)
reelect-expels_example =
    reelect-expels 1 quiet "tail" inside proposer tt tt 4 5 refl refl refl (omega arith)
      (omega arith) (omega arith) (unfold reelect pick_donor up_to in refl)
