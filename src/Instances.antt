-- ===== src/Instances.antt =====
-- The table of engines of src/engine.zig: `engine_init`, `engine_init_with_config`, `getEngine` and
-- `engine_destroy`. Each holds the lock of the table from its first look at it to its last write,
-- so a call is one step. `State` is what an engine is, and making one may fail, which is `none`.
mod Tests
pub mod Handles
use gengo.Prelude.{
  ℕ, zero, suc, ◌+◌, ◌-◌, List, [], ◌∷◌, Bool, true, false, ◌&&◌, ◌||◌, Option, none, some, ◌==◌,
  ltb, leb, if◌then◌else◌,
}
use gengo.Engine.{Config}

abbrev pub max_engines : ℕ
max_engines = 64

-- What the two init calls answer: a handle, 0 for a full table, -3 and -4.
pub data InitAnswer : Type 0 where
  handle : ℕ → InitAnswer
  full bad_config out_of_memory : InitAnswer

-- validateCeiling for each of the five sizes, in order
unfoldable pub within_ceilings : Config → Config → Bool
within_ceilings ceiling config =
    leb config.heap_size_bytes ceiling.heap_size_bytes
    && leb config.max_objects ceiling.max_objects
    && leb config.max_stack ceiling.max_stack
    && leb config.max_frames ceiling.max_frames
    && leb config.max_defers ceiling.max_defers

-- The slots, of which a free one is `none`, and whether an I/O override is set.
pub record Table (State : Type 0) : Type 0 where
  pub slots : List (Option State)
  pub overrides : Bool

module _ {State : Type 0} where
  pub slot_at : List (Option State) → ℕ → Option State
  slot_at [] i = none
  slot_at (slot ∷ slots) zero = slot
  slot_at (slot ∷ slots) (suc i) = slot_at slots i

  -- A handle that is negative is as 0.
  pub get_engine : Table State → ℕ → Option State
  get_engine t h = if h == 0 || ltb max_engines h then none else slot_at t.slots (h - 1)

  -- The loop over the slots, from the one of index `i` on.
  pub claim_slot : Option State → List (Option State) → ℕ → InitAnswer × List (Option State)
  claim_slot made [] i = (full, [])
  claim_slot made (some st ∷ slots) i =
      let (answer, slots') = claim_slot made slots (i + 1) in (answer, some st ∷ slots')
  claim_slot (some st) (none ∷ slots) i = (handle (i + 1), some st ∷ slots)
  claim_slot none (none ∷ slots) i = (out_of_memory, none ∷ slots)

  -- `made` is what the init of an engine in its place gives.
  pub engine_init : Option State → Table State → InitAnswer × Table State
  engine_init made t =
      let (answer, slots) = claim_slot made t.slots 0 in (answer, record t { slots = slots })

  -- A NULL config is `none`.
  unfoldable pub engine_init_with_config :
      Config → (Config → Option State) → Option Config → Table State → InitAnswer × Table State
  engine_init_with_config ceiling make none t = (bad_config, t)
  engine_init_with_config ceiling make (some config) t =
      if within_ceilings ceiling config then engine_init (make config) t else (bad_config, t)

  pub release : ℕ → List (Option State) → List (Option State)
  release i [] = []
  release zero (slot ∷ slots) = none ∷ slots
  release (suc i) (slot ∷ slots) = slot ∷ release i slots

  unfoldable pub none_active : List (Option State) → Bool
  none_active [] = true
  none_active (none ∷ slots) = none_active slots
  none_active (some st ∷ slots) = false

  -- Behind the guards of `engine_destroy`, on the slots that are left.
  pub after_release : List (Option State) → Table State → Table State
  after_release slots t = record {
    slots = slots;
    overrides = if none_active slots then false else t.overrides;
  }

  abbrev pub destroy_found : Option State → ℕ → Table State → Table State
  destroy_found none h t = t
  destroy_found (some st) h t = after_release (release (h - 1) t.slots) t

  pub engine_destroy : ℕ → Table State → Table State
  engine_destroy h t = destroy_found (get_engine t h) h t
