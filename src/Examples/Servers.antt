-- ===== src/Examples/Servers.antt =====
-- The theorems on the caches, the freshness of tables and the leader lease at concrete inputs.
use icegres.Prelude.{
  ◌⊎◌, All, ℕ, ◌≡◌, refl, none, some, List, [], ◌∷◌, true, false, length, min, arith, ◌==◌, ==_iff,
}
use icegres.Prelude.Maps.{Keys, get, put}
use icegres.PlanCache.{PlanCache, ResultCache, Tables, Resolver, used, insert, lookup_with}
use icegres.PlanCache.Evict.{IsLru}
use icegres.PlanCache.Insert.{IsCache, new_entry, insert-IsCache}
use icegres.PlanCache.Lookup.{IsAnswer, lookup_with-IsAnswer}
use icegres.PlanCache.Budget.{
  Call, inserted, looked_up, IsBudgeted, after_calls, after_calls-IsBudgeted,
}
use icegres.Freshness.{new, is_fresh}
use icegres.Freshness.Model.{
  Event, began, completed, invalidated, after_events, rule_events, after_events-is_fresh,
}
use icegres.Lease.{LeaseConfig, Turn, acquiring, lease_loop, lease_turn, virgin, expired, feed}
use icegres.Prelude.Results.{ok}
use icegres.Lease.Addresses.{
  Str, listed, parse_lease_addrs, AreApart, data_addrs, parse_lease_addrs-AreApart,
}
use icegres.Lease.Takeover.{Ready, is_leading, last_asked, watched, lease_loop-MayTakeOver}

abbrev numbered : Keys
numbered = record { Key = ℕ; same = ◌==◌; same_iff = ==_iff }

-- Table `[7]` is at version 3.
abbrev tables : Tables numbered
tables = (7 ∷ [], 3) ∷ []

abbrev resolver : Resolver numbered
resolver table = some 3

-- Two entries, as many as there is room for; that of statement 1 was used last.
abbrev full_cache : PlanCache numbered numbered ℕ ℕ
full_cache = record {
  entries =
      (1, record { plan = 10; schema = 0; tables = tables; last_used = 5 })
      ∷ (2, record { plan = 20; schema = 0; tables = tables; last_used = 4 })
      ∷ [];
  clock = 5;
  capacity = 2;
}

full_cache-IsCache : IsCache numbered numbered full_cache
full_cache-IsCache = ((refl, (refl, tt)), omega arith, (omega arith, (omega arith, tt)))

insert-IsCache_example :
    let c' = insert numbered numbered full_cache 3 30 0 tables in
    IsCache numbered numbered c'
    × IsLru numbered
        (used numbered numbered)
        (put numbered 3 (new_entry numbered numbered full_cache 3 30 0 tables) full_cache.entries)
        c'.entries
    × (length c'.entries
        ≡ min 2 (
            length (
              put numbered 3
                (new_entry numbered numbered full_cache 3 30 0 tables)
                full_cache.entries)))
    × ((full_cache.capacity ≡ 0)
        ⊎ (get numbered 3 c'.entries ≡ some (new_entry numbered numbered full_cache 3 30 0 tables)))
insert-IsCache_example =
    insert-IsCache numbered numbered full_cache 3 30 0 tables full_cache-IsCache (omega arith)

lookup_with-IsAnswer_example :
    let (found, c') = lookup_with numbered numbered full_cache 2 resolver in
    IsCache numbered numbered c' × IsAnswer numbered numbered full_cache 2 resolver found c'
lookup_with-IsAnswer_example =
    lookup_with-IsAnswer numbered numbered full_cache 2 resolver full_cache-IsCache (omega arith)

abbrev empty_results : ResultCache numbered numbered ℕ ℕ
empty_results = record { map = []; clock = 0; total_bytes = 0; budget = 100 }

abbrev result_calls : List (Call numbered numbered ℕ ℕ)
result_calls =
    inserted 1 (5 ∷ []) 0 tables 25
    ∷ inserted 2 [] 0 tables 26
    ∷ looked_up 1 resolver
    ∷ inserted 1 (6 ∷ []) 0 tables 20
    ∷ []

after_calls-IsBudgeted_example :
    IsBudgeted numbered numbered (after_calls numbered numbered empty_results result_calls)
after_calls-IsBudgeted_example =
    after_calls-IsBudgeted numbered numbered empty_results result_calls (omega arith)
      (tt, refl, omega arith, tt)

-- A load that an invalidation overtakes, and one that begins behind it.
abbrev raced : List Event
raced = began ∷ invalidated ∷ began ∷ completed 1 10 ∷ completed 0 20 ∷ []

after_events-is_fresh_example :
    is_fresh (after_events (record { table = new 0; tokens = [] }) raced).table
    ≡ (rule_events (record { fresh = false; loads = [] }) raced).fresh
after_events-is_fresh_example = after_events-is_fresh 0 raced (omega arith)

abbrev trio : LeaseConfig
trio = record { addrs = (1 ∷ []) ∷ (2 ∷ []) ∷ (3 ∷ []) ∷ []; ttl = 1000; holder_id = [] }

abbrev turn : ℕ → Turn
turn now = record {
  shutdown = false;
  results = some (2, 50) ∷ none ∷ some (2, 50) ∷ [];
  polled_at = now;
  asked_at = now;
  succeeds = true;
}

-- Two acceptors stand still from 0 to 1000; the last turn first.
abbrev turns : List Turn
turns = turn 1000 ∷ turn 400 ∷ turn 0 ∷ []

turns-acquiring : (lease_loop trio turns).phase ≡ acquiring
unfolding lease_loop lease_turn virgin expired feed
turns-acquiring = refl

lease_loop-MayTakeOver_example :
    ((lease_loop trio turns).leader ≡ is_leading (lease_loop trio turns).phase)
    × Ready trio (lease_loop trio turns).phase (last_asked turns) (watched trio turns)
lease_loop-MayTakeOver_example = lease_loop-MayTakeOver trio turns (refl, (refl, (refl, tt)))

abbrev resolved : Str → List ℕ
resolved [] = []
resolved (c ∷ cs) = c ∷ []

-- `7, 8,9,` beside the data log's `5,6`.
abbrev lease_spec : Str
lease_spec = 55 ∷ 44 ∷ 32 ∷ 56 ∷ 44 ∷ 57 ∷ 44 ∷ []

abbrev data_spec : Str
data_spec = 53 ∷ 44 ∷ 54 ∷ []

abbrev lease_addrs : List Str
lease_addrs = (55 ∷ []) ∷ (56 ∷ []) ∷ (57 ∷ []) ∷ []

lease_spec-accepted :
    parse_lease_addrs numbered resolved lease_spec (some data_spec) ≡ ok lease_addrs
unfolding parse_lease_addrs listed
lease_spec-accepted = refl

parse_lease_addrs-AreApart_example :
    (lease_addrs ≡ listed lease_spec)
    × (length lease_addrs ≡ 3)
    × All
        (λ a. All (AreApart numbered resolved a) (data_addrs numbered resolved (some data_spec)))
        lease_addrs
parse_lease_addrs-AreApart_example =
    parse_lease_addrs-AreApart numbered resolved lease_spec (some data_spec) lease_addrs
      lease_spec-accepted
