-- ===== src/Examples/Proposers.antt =====
-- The proposer's theorems at concrete states.
use icegres.Prelude.{
  ℕ, ◌+◌, ◌≤◌, ◌<◌, ◌≡◌, ◌≢◌, ◌⊎◌, refl, inl, none, List, [], ◌∷◌, true, false, arith, length, map,
  All,
}
use icegres.Prelude.Bytes.{Bytes, to_le}
use icegres.Prelude.Results.{ok}
use icegres.Segment.{frame, frame_bytes}
use icegres.Quorum.TermHistory.{compute_start}
use icegres.Quorum.Record.{Record, record_payload, record_frame, decode_records, encode}
use icegres.Quorum.Message.{Message}
use icegres.Quorum.Proposer.{
  RecordMeta, LogBuf, Shared, Candidate, quorum, quorum_commit, store_ack, next_batch, batch,
  submit, push_record, max_message_bytes, append_message_headroom, sort_desc, insert_desc,
}
use icegres.Quorum.Proposer.CommitRule.{acked, quorum_commit-greatest, store_ack-commit}
use icegres.Quorum.Proposer.Log.{IsEntry, IsLog, next_batch-decodes}
use icegres.Quorum.Proposer.Submit.{Submitted, submit-IsLog}
use icegres.Quorum.Proposer.Coverage.{
  coverable_prefix, Released, IsLastWatermark, coverable_prefix-Released,
}
use icegres.Quorum.Proposer.Horizon.{advance_horizon, Advanced, advance_horizon-Advanced}
use icegres.Quorum.Election.{Network, delivered, reelect}
use icegres.Quorum.Election.Reelect.{Outcome, reelect-Outcome}
use icegres.Quorum.Election.Supervisor.{
  changed, expired, wait_commit, Justified, wait_commit-Justified,
}
use icegres.Quorum.Election.Connect.{handshake, IsReady, handshake-IsReady}
use icegres.Examples.Setting.{crc, any_utf8, greeting_record}

abbrev picked : ℕ
picked = 20

quorum_commit-greatest_example :
    ((picked ≡ 0) ⊎ ((15 ≤ picked) × (quorum ≤ acked picked (10 ∷ 30 ∷ 20 ∷ []))))
    × ((u : ℕ) → 15 ≤ u → 0 < u → quorum ≤ acked u (10 ∷ 30 ∷ 20 ∷ []) → u ≤ picked)
quorum_commit-greatest_example =
    quorum_commit-greatest (10 ∷ 30 ∷ 20 ∷ []) 15 picked
      (unfold quorum_commit sort_desc insert_desc in refl)

abbrev ballots : List Candidate
ballots =
    record { index = 0; last_log_term = 3; flush = 90 }
    ∷ record { index = 1; last_log_term = 4; flush = 35 }
    ∷ record { index = 2; last_log_term = 4; flush = 20 }
    ∷ []

abbrev pub entry_meta : RecordMeta
entry_meta = record {
  start = 3;
  end = 35;
  kind = record_frame;
  table_key = 116 ∷ [];
  seq = 5;
  frame = frame crc (record_payload greeting_record);
}

abbrev pub retained_log : LogBuf
retained_log = record {
  base = 3;
  head = 35;
  records = entry_meta ∷ [];
  covered = (116 ∷ [], 5) ∷ [];
  last_wm = (116 ∷ [], record { start = 35; seq = 5 }) ∷ [];
}

-- Of term 4, with one acceptor caught up and one on the way.
abbrev pub proposer : Shared
proposer = record {
  election = record {
    term = 4;
    term_start_lsn = 3;
    history = record { term = 2; lsn = 0 } ∷ record { term = 4; lsn = 3 } ∷ [];
  };
  log = retained_log;
  peers =
      record { flush = 35; failed = false }
      ∷ record { flush = 3; failed = false }
      ∷ record { flush = 0; failed = true }
      ∷ [];
  commit = 3;
  horizon = 3;
  term_tx = 4;
  poison = none;
  events = [];
}

entry_meta-IsEntry : IsEntry crc any_utf8 entry_meta
unfolding record_payload to_le
entry_meta-IsEntry = record {
  rec = greeting_record;
  own_lsn = refl;
  valid = record {
    lsn_u64 = omega arith;
    seq_u64 = omega arith;
    key_u32 = omega arith;
    key_utf8 = refl;
    kind_known = inl refl;
  };
  short = omega arith;
  encoded = refl;
  ends = omega arith;
  below = omega arith;
  fits = omega arith;
}

retained_log_chain : IsLog crc any_utf8 retained_log
retained_log_chain = (refl, entry_meta-IsEntry, refl)

store_ack-commit_example :
    let s' = (store_ack 1 4 35 proposer).1 in
    (proposer.commit ≤ s'.commit)
    × ((s'.commit ≡ proposer.commit)
        ⊎ ((proposer.election.term ≡ 4)
            × (proposer.election.term_start_lsn ≤ s'.commit)
            × (quorum ≤ acked s'.commit (map (λ p. p.flush) s'.peers))))
    × ((proposer.election.term ≢ 4) → s' ≡ proposer)
store_ack-commit_example = store_ack-commit 1 4 35 proposer

next_batch-decodes_example :
    (end : ℕ) × (bytes : Bytes) × (recs : List Record) × (next_batch retained_log 3
      ≡ batch 3 end bytes)
    × (decode_records crc any_utf8 bytes 3 ≡ ok recs)
    × (end ≡ 3 + length bytes)
    × (3 < end)
    × (end ≤ retained_log.head)
    × (length bytes + append_message_headroom ≤ max_message_bytes)
next_batch-decodes_example =
    next_batch-decodes crc any_utf8 retained_log 3 [] (entry_meta ∷ []) refl refl retained_log_chain
      (omega arith)

abbrev next_record : Record
next_record = record { lsn = 35; kind = record_frame; table_key = 116 ∷ []; seq = 6; body = 4 ∷ [] }

abbrev after_submit : Shared
after_submit = record proposer {
  log = push_record next_record (frame crc (record_payload next_record)) retained_log;
}

submit-IsLog_example :
    IsLog crc any_utf8 after_submit.log
    × (after_submit.log.base ≡ proposer.log.base)
    × (after_submit.log.head ≡ 66)
    × (proposer.log.head < 66)
    × Submitted crc any_utf8 record_frame (116 ∷ []) 6 (4 ∷ []) proposer after_submit
submit-IsLog_example =
    submit-IsLog crc any_utf8 record_frame (116 ∷ []) 6 (4 ∷ []) proposer after_submit 66
      retained_log_chain (omega arith) (inl refl) (omega arith) refl
      (unfold submit encode frame_bytes record_payload to_le in refl)

coverable_prefix-Released_example :
    (retained_log.base ≤ (coverable_prefix retained_log 35).0)
    × ((coverable_prefix retained_log 35).0 ≤ retained_log.head)
    × Released retained_log 35 (coverable_prefix retained_log 35).0 retained_log.records
    × All
        (λ r. IsLastWatermark retained_log r → (coverable_prefix retained_log 35).0 < r.end)
        retained_log.records
coverable_prefix-Released_example =
    coverable_prefix-Released crc any_utf8 retained_log 35 retained_log_chain

abbrev pub all_committed : Shared
all_committed = record proposer { commit = 35 }

advance_horizon-Advanced_example :
    Advanced crc any_utf8 all_committed (advance_horizon all_committed).1
advance_horizon-Advanced_example =
    advance_horizon-Advanced crc any_utf8 all_committed retained_log_chain (omega arith)

-- Acceptors of term 4 that grant every vote, report the proposer's own log, accept every history and
-- serve a byte for each read.
abbrev pub agreeable : Message → Message
agreeable (Message.greeting id) = Message.greeting_resp id 4 35
agreeable (Message.vote_request term) =
    Message.vote_response term true 35 4
      (record { term = 2; lsn = 0 } ∷ record { term = 4; lsn = 3 } ∷ []) 3 3
agreeable (Message.elected term start history) = Message.elected_resp term true
agreeable (Message.read from to) = Message.read_resp from (7 ∷ [])
agreeable m = m

abbrev pub quiet : Network
quiet = record {
  World = Unit {0};
  connect = λ w i. (true, w);
  exchange = λ w i m. (delivered (agreeable m), w);
}

reelect-Outcome_example :
    Outcome quiet "tail" tt proposer
      (reelect quiet "tail" proposer tt).0
      (reelect quiet "tail" proposer tt).1
reelect-Outcome_example = reelect-Outcome quiet "tail" tt proposer

-- No acceptor can be reached.
abbrev silent : Network
silent = record {
  World = Unit {0};
  connect = λ w i. (false, w);
  exchange = λ w i m. (delivered (agreeable m), w);
}

wait_commit-Justified_example :
    Justified 35 (wait_commit 35 false proposer (expired proposer ∷ changed all_committed ∷ []))
wait_commit-Justified_example =
    wait_commit-Justified 35 false proposer (expired proposer ∷ changed all_committed ∷ [])

handshake-IsReady_example : IsReady quiet "tail" proposer tt 1 35
handshake-IsReady_example =
    handshake-IsReady quiet "tail" proposer tt 1 35 (unfold handshake compute_start in refl)
