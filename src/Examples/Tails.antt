-- ===== src/Examples/Tails.antt =====
-- The theorems on the local tail at concrete inputs.
use icegres.Prelude.{
  ℕ, ◌≤◌, ◌≡◌, refl, ap, Option, none, some, List, [], ◌∷◌, ◌++◌, true, false, All, arith,
}
use icegres.Prelude.Results.{ok}
use icegres.Tail.{
  Event, wrote, waited, synced, cleanup, create, after_event, after_events, replayable,
}
use icegres.Tail.Safe.{Descending}
use icegres.Tail.GroupSync.{IsCounted, after_events-replayable}
use icegres.Tail.Watermark.{
  TableFiles, IsCapped, IsAbove, above, truncate, frames_of, truncate-keeps,
}
use icegres.Tail.Names.{Str, TableIdent, table_dir_name, encode_component, parse_table_dir_name}
use icegres.Tail.Names.RoundTrip.{parse_table_dir_name-table_dir_name}

-- Two frames are written; the waiter of the first leads a sync, while a third frame is written; the
-- first two are acknowledged; the next sync fails, and so does the roll back of the cleanup.
abbrev shared_sync : List Event
shared_sync =
    wrote 9
    ∷ wrote 4
    ∷ waited 1
    ∷ wrote 2
    ∷ synced true
    ∷ waited 2
    ∷ waited 1
    ∷ waited 0
    ∷ synced false
    ∷ waited 0
    ∷ cleanup false
    ∷ []

shared_sync-acked : (after_events (create 1) shared_sync).acked ≡ (2, 15) ∷ (1, 10) ∷ []
unfolding after_events after_event
shared_sync-acked = refl

after_events-replayable_example :
    let s = after_events (create 1) shared_sync in
    All (λ f. f.1 ≤ replayable s) s.acked
    × All (IsCounted s.sealed_seq) s.acked
    × Descending s.next_seq s.staged
after_events-replayable_example = after_events-replayable 1 shared_sync

abbrev push_space : Str → Option TableIdent → Option TableIdent
push_space p none = none
push_space p (some i) = some (record i { namespace = p ∷ i.namespace })

-- The last part is the name.
abbrev from_parts : List Str → Option TableIdent
from_parts [] = none
from_parts (p ∷ []) = some (record { namespace = []; name = p })
from_parts (p ∷ q ∷ ps) = push_space p (from_parts (q ∷ ps))

from_parts-append :
    (space : List Str) (name : Str)
    → from_parts (space ++ (name ∷ [])) ≡ some (record { namespace = space; name = name })
from_parts-append [] name = refl
from_parts-append (p ∷ []) name = refl
from_parts-append (p ∷ q ∷ ps) name = ap (push_space p) (from_parts-append (q ∷ ps) name)

-- The table `b.c` of the namespace `a`, and `a.b%2ec`.
abbrev dotted : TableIdent
dotted = record { namespace = (97 ∷ []) ∷ []; name = 98 ∷ 46 ∷ 99 ∷ [] }

abbrev dotted_dir : Str
dotted_dir = 97 ∷ 46 ∷ 98 ∷ 37 ∷ 50 ∷ 101 ∷ 99 ∷ []

dotted-named : table_dir_name dotted ≡ ok dotted_dir
unfolding table_dir_name encode_component
dotted-named = refl

parse_table_dir_name-table_dir_name_example :
    parse_table_dir_name from_parts dotted_dir ≡ some dotted
parse_table_dir_name-table_dir_name_example =
    parse_table_dir_name-table_dir_name from_parts dotted dotted_dir
      (λ i. from_parts-append i.namespace i.name) (omega arith) refl dotted-named

-- Of two sealed files the first is covered and cannot be removed; the active one is covered too.
abbrev three_files : TableFiles ℕ
three_files = record {
  sealed =
      record { max_seq = 2; frames = (1, 100) ∷ (2, 200) ∷ [] }
      ∷ record { max_seq = 7; frames = (6, 600) ∷ (7, 700) ∷ [] }
      ∷ [];
  forgotten = [];
  active = some (record { max_seq = 4; frames = (4, 400) ∷ [] });
}

files-AreCapped : All IsCapped three_files.sealed
files-AreCapped = ((omega arith, (omega arith, tt)), ((omega arith, (omega arith, tt)), tt))

truncate-keeps_example :
    (above 5 (frames_of (truncate three_files 5 (false ∷ [])).1) ≡ above 5 (frames_of three_files))
    × ((truncate three_files 5 (false ∷ [])).0 ≡ true
        → IsAbove 5 (truncate three_files 5 (false ∷ [])).1.sealed)
truncate-keeps_example = truncate-keeps three_files 5 (false ∷ []) files-AreCapped (omega arith, tt)
