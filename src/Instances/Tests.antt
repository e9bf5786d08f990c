-- ===== src/Instances/Tests.antt =====
-- The theorems on the table of engines at a small table.
use gengo.Prelude.{ℕ, ◌≡◌, ◌≢◌, ◌≤◌, ◌<◌, refl, ◌∷◌, true, none, some, replicate}
use gengo.Instances.{max_engines, Table, get_engine, claim_slot, engine_init, engine_destroy}
use gengo.Instances.Handles.{engine_init-get_engine, engine_destroy-get_engine}

-- One engine, in the first slot of 64.
abbrev table : Table ℕ
table = record { slots = some 7 ∷ replicate 63 none; overrides = true }

engine_init-get_engine_example :
    (0 < 2)
    × (2 ≤ max_engines)
    × (get_engine table 2 ≡ none)
    × (get_engine (engine_init (some 9) table).1 2 ≡ some 9)
    × ((h' : ℕ) → h' ≢ 2 → get_engine (engine_init (some 9) table).1 h' ≡ get_engine table h')
unfolding engine_init claim_slot
engine_init-get_engine_example = engine_init-get_engine 9 table 2 refl refl

engine_destroy-get_engine_example :
    (get_engine (engine_destroy 1 table) 1 ≡ none)
    × ((h' : ℕ) → h' ≢ 1 → get_engine (engine_destroy 1 table) h' ≡ get_engine table h')
    × (engine_destroy 1 (engine_destroy 1 table) ≡ engine_destroy 1 table)
engine_destroy-get_engine_example = engine_destroy-get_engine 1 table
