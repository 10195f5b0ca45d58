-- ===== src/Examples/Acceptors.antt =====
-- The acceptor's theorems at concrete requests.
use icegres.Prelude.{ℕ, ◌+◌, ◌<◌, ◌≡◌, refl, List, [], ◌∷◌, true, arith, length, min}
use icegres.Prelude.Bytes.{Bytes, to_le, from_le}
use icegres.Prelude.Results.{ok, err}
use icegres.Segment.Frames.{frames}
use icegres.Quorum.TermHistory.{TermHistory, up_to, compute_start}
use icegres.Segment.{scan_frame_bytes}
use icegres.Quorum.Record.{record_payload, decode_records}
use icegres.Quorum.Message.{Message, WalError}
use icegres.Quorum.Acceptor.{process}
use icegres.Quorum.Acceptor.Durable.{IsDurable, Durably, durable_term, process-Durably}
use icegres.Quorum.Acceptor.Votes.{Event, request, restart, run, votes, IsAscending, votes_once}
use icegres.Quorum.Acceptor.Commit.{IsSound, KeepsCommitted, process_keeps}
use icegres.Quorum.Acceptor.Answers.{Acked, process_acks, process_accepts}
use icegres.Quorum.SegmentWal.{segment_wal, append, truncate_from}
use icegres.Quorum.SegmentWal.Wf.{IsWf, byte}
use icegres.Quorum.SegmentWal.Laws.{segment_wal_laws, truncate_from-keeps, append-keeps}
use icegres.Examples.Setting.{
  crc, any_utf8, memory_store, memory_laws, held_wal, holder, steady_store, steady_holder,
  greeting_record,
}

held-IsSound : IsSound crc any_utf8 memory_store segment_wal segment_wal_laws holder
held-IsSound = record {
  held = omega arith;
  fresh = λ e. cc;
  wf = (refl, (omega arith, omega arith), tt);
}

abbrev new_records : Bytes
new_records = frames crc (record_payload greeting_record ∷ [])

-- An append at the write position, which advances the commit position over what was held.
abbrev append_request : Message
append_request = Message.append 2 3 (3 + length new_records) 3 1 new_records

process_keeps_example :
    KeepsCommitted crc any_utf8 memory_store segment_wal segment_wal_laws holder
      (process crc any_utf8 memory_store segment_wal append_request holder).1
process_keeps_example =
    process_keeps crc any_utf8 memory_store segment_wal segment_wal_laws append_request holder
      (unfold record_payload to_le in omega arith) held-IsSound

holder-IsDurable : IsDurable crc any_utf8 memory_store memory_laws segment_wal holder
holder-IsDurable _ = refl

process-Durably_example :
    Durably crc any_utf8 memory_store memory_laws segment_wal holder
      (process crc any_utf8 memory_store segment_wal (Message.vote_request 5) holder).1
process-Durably_example =
    process-Durably crc any_utf8 memory_store memory_laws segment_wal (Message.vote_request 5)
      holder holder-IsDurable

-- Two campaigns for term 5 around a restart, and one for term 6.
abbrev campaigns : List (Event crc any_utf8 memory_store memory_laws segment_wal)
campaigns =
    request (Message.vote_request 5)
    ∷ restart held_wal
    ∷ request (Message.vote_request 5)
    ∷ request (Message.vote_request 6)
    ∷ []

votes_once_example :
    IsAscending
      (durable_term crc any_utf8 memory_store memory_laws segment_wal holder)
      (votes (run crc any_utf8 memory_store memory_laws segment_wal campaigns holder))
votes_once_example =
    votes_once crc any_utf8 memory_store memory_laws segment_wal campaigns holder holder-IsDurable

process_acks_example :
    Acked crc any_utf8 memory_store segment_wal holder 2 3
      (3 + length new_records)
      new_records
      (3 + length new_records)
process_acks_example =
    process_acks crc any_utf8 memory_store segment_wal holder 2 3 (3 + length new_records) 3 1
      new_records 2 (3 + length new_records) 3
      (unfold process to_le from_le record_payload decode_records scan_frame_bytes append in refl)

abbrev elected_history : TermHistory
elected_history = record { term = 2; lsn = 0 } ∷ record { term = 4; lsn = 3 } ∷ []

process_accepts_example :
    ((process crc any_utf8 steady_store segment_wal
        (Message.elected 4 3 elected_history)
        steady_holder).0
      ≡ Message.elected_resp 4 true)
    × ((process crc any_utf8 steady_store segment_wal
          (Message.elected 4 3 elected_history)
          steady_holder).1.state.term_history
        ≡ elected_history)
process_accepts_example =
    process_accepts crc any_utf8 steady_store segment_wal (λ s p. refl) steady_holder 4 0 3
      elected_history refl (omega arith) (omega arith, refl) refl
      (unfold compute_start up_to in refl) (omega arith) (unfold truncate_from in refl)

truncate_from-keeps_example :
    IsWf (truncate_from held_wal 2).1
    × ((p : ℕ) → p < 2 → byte (truncate_from held_wal 2).1 p ≡ byte held_wal p)
    × ((truncate_from held_wal 2).0 ≡ ok tt → (truncate_from held_wal 2).1.flush ≡ min 3 2)
    × ((e : WalError)
        → (truncate_from held_wal 2).0 ≡ err e
        → (truncate_from held_wal 2).1.flush ≡ 3)
truncate_from-keeps_example = truncate_from-keeps held_wal 2 held-IsSound.wf

append-keeps_example :
    IsWf (append held_wal 3 new_records).1
    × ((p : ℕ) → p < 3 → byte (append held_wal 3 new_records).1 p ≡ byte held_wal p)
    × ((append held_wal 3 new_records).0 ≡ ok tt
        → (3 ≡ held_wal.flush) × ((append held_wal 3 new_records).1.flush ≡ 3 + length new_records))
    × ((e : WalError)
        → (append held_wal 3 new_records).0 ≡ err e
        → (append held_wal 3 new_records).1.flush ≡ 3)
append-keeps_example =
    append-keeps held_wal 3 new_records (unfold record_payload to_le in omega arith) held-IsSound.wf
      refl
