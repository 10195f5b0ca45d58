-- ===== src/Examples/Openings.antt =====
-- The theorems on the opening of the quorum tail, at concrete acceptors.
use icegres.Prelude.{ℕ, ◌≤◌, ◌≡◌, refl, none, some, [], ◌∷◌, true, false, arith}
use icegres.Prelude.Results.{ok}
use icegres.Prelude.Bytes.{to_le, from_le}
use icegres.Segment.{frame, scan_frame_bytes}
use icegres.Quorum.Record.{record_payload, decode_records, encode}
use icegres.Quorum.Message.{Message}
use icegres.Quorum.Proposer.{pick_donor, set_flush, insert_desc}
use icegres.Quorum.Election.{Network, delivered}
use icegres.Quorum.Open.{Opened, everyone, max_greeted, finish_open}
use icegres.Quorum.Open.Phases.{query_all, open_election}
use icegres.Quorum.Open.Seeded.{IsBytewise}
use icegres.Quorum.Open.Elected.{IsElected, open_election-IsElected}
use icegres.Quorum.Open.Started.{finish_open-committed}
use icegres.Examples.Setting.{crc, any_utf8, greeting_record}
use icegres.Examples.Proposers.{entry_meta}

-- Acceptors of term 4 whose log ends at 35 and is retained from 3 on, with one record there.
abbrev stocked : Message → Message
stocked (Message.greeting id) = Message.greeting_resp id 4 35
stocked (Message.vote_request term) =
    Message.vote_response term true 35 4
      (record { term = 2; lsn = 0 } ∷ record { term = 4; lsn = 3 } ∷ []) 3 3
stocked (Message.elected term start history) = Message.elected_resp term true
stocked (Message.read from to) = Message.read_resp from (frame crc (record_payload greeting_record))
stocked m = Message.greeting_resp none 4 35

abbrev stocked_net : Network
stocked_net = record {
  World = Unit {0};
  connect = λ w i. (true, w);
  exchange = λ w i m. (delivered (stocked m), w);
}

stocked-IsBytewise :
    (w : stocked_net.World) (i : ℕ) (m : Message) → IsBytewise (stocked_net.exchange w i m).0
stocked-IsBytewise w i (Message.read from to) = unfold record_payload to_le in omega arith
stocked-IsBytewise w i _ = tt

abbrev reopened : Opened
reopened = record {
  shared = record {
    election = record {
      term = 5;
      term_start_lsn = 35;
      history =
          record { term = 2; lsn = 0 }
          ∷ record { term = 4; lsn = 3 }
          ∷ record { term = 5; lsn = 35 }
          ∷ [];
    };
    log = record { base = 3; head = 35; records = entry_meta ∷ []; covered = []; last_wm = [] };
    peers =
        record { flush = 35; failed = false }
        ∷ record { flush = 35; failed = false }
        ∷ record { flush = 35; failed = false }
        ∷ [];
    commit = 35;
    horizon = 3;
    term_tx = 5;
    poison = none;
    events = [];
  };
  initial = some 5 ∷ some 5 ∷ some 5 ∷ [];
  recovered = greeting_record ∷ [];
}

opens : (open_election stocked_net crc any_utf8 1000 3 "minted" tt).0 ≡ ok reopened
unfolding open_election pick_donor scan_frame_bytes set_flush insert_desc decode_records encode
    record_payload to_le from_le
opens = refl

open_election-IsElected_example :
    IsElected crc any_utf8 stocked_net 1000 (query_all stocked_net everyone tt).0 reopened
open_election-IsElected_example =
    open_election-IsElected crc any_utf8 stocked_net 1000 stocked-IsBytewise 3 "minted" tt reopened
      (unfold query_all max_greeted in omega arith) (omega arith) opens

finish_open-committed_example :
    (reopened.shared.log.head ≤ reopened.shared.commit)
    × (reopened.shared.poison ≡ none)
    × (reopened.recovered ≡ reopened.recovered)
finish_open-committed_example =
    finish_open-committed crc any_utf8 stocked_net 1000 stocked-IsBytewise 3 "minted" tt reopened
      reopened [] (unfold query_all max_greeted in omega arith) (omega arith) opens
      (unfold finish_open in refl)
