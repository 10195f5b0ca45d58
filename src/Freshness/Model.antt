-- ===== src/Freshness/Model.antt =====
-- The generations implement a plain rule: fresh is what a load established that began after the last
-- invalidation. Loads, invalidations and completions interleave in any order.
use icegres.Prelude.{
  ℕ, zero, suc, ◌+◌, ◌≤◌, ◌<◌, ◌^◌, ◌≡◌, refl, Option, none, some, List, [], ◌∷◌, Bool, true, false,
  ◌||◌, length, map, max, ◌==◌, arith, nth?,
}
use icegres.Prelude.Bytes.{add_u64}
use icegres.Freshness.{TableFreshness, new, is_fresh, begin_load, complete_load, invalidate}

-- A load began; the load of that number, counted from the last that began, completed; the table was
-- invalidated.
pub data Event : Type 0 where
  began : Event
  completed : (load now : ℕ) → Event
  invalidated : Event

-- The table and the tokens of the loads that began, the last first.
pub record Run : Type 0 where
  pub table : TableFreshness
  pub tokens : List ℕ

abbrev complete_with : Run → Option ℕ → ℕ → Run
complete_with r none now = r
complete_with r (some token) now = record r { table = complete_load r.table token now }

abbrev pub after_event : Run → Event → Run
after_event r began = record r { tokens = begin_load r.table ∷ r.tokens }
after_event r (completed load now) = complete_with r (nth? r.tokens load) now
after_event r invalidated = record r { table = invalidate r.table }

unfoldable pub after_events : Run → List Event → Run
after_events r [] = r
after_events r (e ∷ es) = after_events (after_event r e) es

-- The rule: whether the table is fresh, and of each load, the last first, whether no invalidation
-- came after it began.
pub record Rule : Type 0 where
  pub fresh : Bool
  pub loads : List Bool

abbrev complete_rule : Rule → Option Bool → Rule
complete_rule v none = v
complete_rule v (some current) = record v { fresh = v.fresh || current }

abbrev pub rule_event : Rule → Event → Rule
rule_event v began = record v { loads = true ∷ v.loads }
rule_event v (completed load now) = complete_rule v (nth? v.loads load)
rule_event v invalidated = record { fresh = false; loads = map (λ _. false) v.loads }

unfoldable pub rule_events : Rule → List Event → Rule
rule_events v [] = v
rule_events v (e ∷ es) = rule_events (rule_event v e) es

-- Each token is that of a load that is current in the rule, or an older one.
abbrev Matches : ℕ → List ℕ → List Bool → Type 0
Matches gen [] [] = Unit {0}
Matches gen (t ∷ ts) (b ∷ bs) = (t ≤ gen) × ((t == gen) ≡ b) × Matches gen ts bs
Matches gen [] (b ∷ bs) = ⊥
Matches gen (t ∷ ts) [] = ⊥

abbrev Simulates : Rule → Run → Type 0
Simulates v r =
    (is_fresh r.table ≡ v.fresh)
    × (r.table.fresh_gen ≤ r.table.write_gen)
    × Matches r.table.write_gen r.tokens v.loads

outdated :
    (gen : ℕ) (ts : List ℕ) (bs : List Bool)
    → Matches gen ts bs
    → Matches (gen + 1) ts (map (λ _. false) bs)
outdated gen [] [] h = tt
outdated gen (t ∷ ts) (b ∷ bs) (l, _, h) = (omega arith, ground arith, outdated gen ts bs h)
outdated gen [] (b ∷ bs) h = h
outdated gen (t ∷ ts) [] h = h

newer : (f t w : ℕ) → f ≤ w → t ≤ w → (max f t == w) ≡ ((f == w) || (t == w))
newer f t w h k = ground arith

complete-Simulates :
    (v : Rule) (r : Run) (n now : ℕ) (ts : List ℕ) (bs : List Bool)
    → Simulates v r
    → Matches r.table.write_gen ts bs
    → Simulates (complete_rule v (nth? bs n)) (complete_with r (nth? ts n) now)
complete-Simulates v r n now [] [] s m = s
complete-Simulates v r zero now (t ∷ ts) (b ∷ bs) (f, l, k) (tl, tb, m) =
    (rw (← f, ← tb) (newer r.table.fresh_gen t r.table.write_gen l tl), omega arith, k)
complete-Simulates v r (suc n) now (t ∷ ts) (b ∷ bs) s (tl, tb, m) =
    complete-Simulates v r n now ts bs s m
complete-Simulates v r n now [] (b ∷ bs) s m = absurd m
complete-Simulates v r n now (t ∷ ts) [] s m = absurd m

event-Simulates :
    (v : Rule) (r : Run) (e : Event)
    → r.table.write_gen + 1 < 2 ^ 64
    → Simulates v r
    → Simulates (rule_event v e) (after_event r e)
event-Simulates v r began small (f, l, m) = (f, l, (omega arith, ground arith, m))
event-Simulates v r (completed load now) small s =
    complete-Simulates v r load now r.tokens v.loads s s.2
event-Simulates v r invalidated small (f, l, m) =
    let next : add_u64 r.table.write_gen 1 ≡ r.table.write_gen + 1 = omega arith in
    (rw next (ground arith), omega arith, rw next (outdated r.table.write_gen r.tokens v.loads m))

step_gen :
    (r : Run) (e : Event)
    → r.table.write_gen + 1 < 2 ^ 64
    → (after_event r e).table.write_gen ≤ r.table.write_gen + 1
step_gen r began small = omega arith
step_gen r (completed load now) small = either (nth? r.tokens load)
  where
    either : (o : Option ℕ) → (complete_with r o now).table.write_gen ≤ r.table.write_gen + 1
    either none = omega arith
    either (some t) = omega arith
step_gen r invalidated small = omega arith

events-Simulates :
    (v : Rule) (r : Run) (es : List Event)
    → r.table.write_gen + length es < 2 ^ 64
    → Simulates v r
    → Simulates (rule_events v es) (after_events r es)
unfolding after_events rule_events
events-Simulates v r [] small s = s
events-Simulates v r (e ∷ es) small s =
    events-Simulates (rule_event v e) (after_event r e) es
      (omega (arith, step_gen r e (omega arith))) (event-Simulates v r e (omega arith) s)

-- Of a new table, after any interleaving of loads that begin, loads that complete and
-- invalidations, fewer than the generations of a `u64`: it is fresh exactly where the rule says so,
-- which is where a load completed that began after the last invalidation.
pub after_events-is_fresh :
    (now : ℕ) (es : List Event)
    → 1 + length es < 2 ^ 64
    → is_fresh (after_events (record { table = new now; tokens = [] }) es).table
      ≡ (rule_events (record { fresh = false; loads = [] }) es).fresh
after_events-is_fresh now es small =
    (events-Simulates (record { fresh = false; loads = [] })
      (record { table = new now; tokens = [] }) es small (refl, omega arith, tt)).0
