-- ===== src/Freshness.antt =====
-- icegres/src/freshness.rs, `TableFreshness`: whether a cached table may be served without a look at
-- the catalog. Each method is one atomic step; time is in milliseconds.
pub mod Model
use icegres.Prelude.{ℕ, ◌+◌, ◌-◌, ◌*◌, ◌^◌, Option, none, some, Bool, ◌==◌, max, min}
use icegres.Prelude.Bytes.{add_u64}

pub record TableFreshness : Type 0 where
  pub write_gen : ℕ
  pub fresh_gen : ℕ
  pub last_ok : Option ℕ
  pub created : ℕ

abbrev pub new : ℕ → TableFreshness
new now = record { write_gen = 1; fresh_gen = 0; last_ok = none; created = now }

abbrev pub is_fresh : TableFreshness → Bool
is_fresh t = t.fresh_gen == t.write_gen

abbrev pub begin_load : TableFreshness → ℕ
begin_load t = t.write_gen

abbrev pub complete_load : TableFreshness → ℕ → ℕ → TableFreshness
complete_load t token now = record t { fresh_gen = max t.fresh_gen token; last_ok = some now }

abbrev pub invalidate : TableFreshness → TableFreshness
invalidate t = record t { write_gen = add_u64 t.write_gen 1 }

abbrev pub age : TableFreshness → ℕ → ℕ
age t now = elim t.last_ok [ none ↦ now - t.created | some at ↦ now - at ]

-- `saturating_mul`, and the cap of two seconds.
abbrev pub refresh_timeout : ℕ → ℕ
refresh_timeout interval = min (min (interval * 4) (2 ^ 64 * 1000 - 1)) 2000
