-- ===== src/Tasks/Tests.antt =====
-- Small tables whose tasks and messages are numbers.
use gengo.Prelude.{
  ℕ, ◌<◌, ◌≡◌, ◌≢◌, ◌^◌, refl, [], ◌∷◌, true, false, Option, none, some, arith, get_elem?,
}
use gengo.Tasks.{
  recycled, empty, blocked_receive, TaskSlot, State, entry_failed, next_generation, id_for, claimed,
  first_free, got, claim_at, claim_slot, claim_main_slot, enqueue_ready, is_alive, send, spawn_task,
  receive, next_turn, finish, start,
}
use gengo.Tasks.Invariant.{IsScheduled}
use gengo.Tasks.Spawn.{IsLeaked, spawn_task_leaks}
use gengo.Tasks.Order.{
  spawns, Ends, waits, dies, Runs, begin, asks, ends, IsReset, start-IsScheduled,
  scheduler-IsScheduled,
}
use gengo.Tasks.Fair.{Runs-fifo, scheduler_deadlock}
use gengo.Tasks.References.{send-claim_slot}
use gengo.Tasks.Completed.{finish_leaves_main}

abbrev Table : Type 0
Table = State ℕ ℕ

abbrev unused : TaskSlot ℕ ℕ
unused = record { generation = 0; status = empty; vs = none; owns_vs = false; mailbox = [] }

abbrev blank : Table
blank = record { slots = λ i. unused; ready_queue = []; current = 0 }

blank-IsReset : IsReset blank
blank-IsReset = ((λ i. refl), refl)

-- The state of the next turn.
abbrev turn_or : Option Table → Table
turn_or none = blank
turn_or (some st) = st

abbrev main_only : Table
main_only = start 7 blank

abbrev one_spawned : Table
one_spawned = (spawn_task true true (some 8) true main_only).0

abbrev two_spawned : Table
two_spawned = (spawn_task true true (some 9) true one_spawned).0

-- Main waits, and the spawned task has its turn.
abbrev second_turn : Table
second_turn = turn_or (next_turn (receive one_spawned).0)

abbrev task_two : Table
task_two = turn_or (next_turn (receive two_spawned).0)

abbrev task_three : Table
task_three = turn_or (finish task_two)

one_spawned_queue : one_spawned.ready_queue ≡ 2 ∷ []
unfolding start claim_main_slot spawn_task claim_slot first_free claim_at claimed recycled
    enqueue_ready next_generation
one_spawned_queue = refl

main_waits : Ends one_spawned second_turn
unfolding start claim_main_slot spawn_task claim_slot first_free claim_at claimed recycled
    enqueue_ready next_generation next_turn receive
main_waits = waits refl refl

to_second : Runs main_only 1 second_turn
unfolding start claim_main_slot spawn_task claim_slot first_free claim_at claimed recycled
    enqueue_ready next_generation
to_second = ends (asks begin (spawns true true (some 8) true (λ e. cc))) main_waits

scheduler-IsScheduled_example : IsScheduled second_turn
scheduler-IsScheduled_example = scheduler-IsScheduled 7 blank second_turn 1 blank-IsReset to_second

second_waits : (receive second_turn).1 ≡ none
unfolding start claim_main_slot spawn_task claim_slot first_free claim_at claimed recycled
    enqueue_ready next_generation next_turn receive
second_waits = refl

nothing_left : next_turn (receive second_turn).0 ≡ none
unfolding start claim_main_slot spawn_task claim_slot first_free claim_at claimed recycled
    enqueue_ready next_generation next_turn receive
nothing_left = refl

main_alive : is_alive (receive second_turn).0 1 ≡ true
unfolding start claim_main_slot spawn_task claim_slot first_free claim_at claimed recycled
    enqueue_ready next_generation next_turn receive is_alive
main_alive = refl

scheduler_deadlock_example :
    (((receive second_turn).0.slots 1).status ≡ blocked_receive)
    × (((receive second_turn).0.slots 1).mailbox ≡ [])
scheduler_deadlock_example =
    scheduler_deadlock 7 blank second_turn 1 1 blank-IsReset to_second second_waits nothing_left
      main_alive

second_is_current : second_turn.current ≡ 2
unfolding start claim_main_slot spawn_task claim_slot first_free claim_at claimed recycled
    enqueue_ready next_generation next_turn receive
second_is_current = refl

second_not_main : second_turn.current ≢ 1
second_not_main e = cc second_is_current

none_after_second : finish second_turn ≡ none
unfolding start claim_main_slot spawn_task claim_slot first_free claim_at claimed recycled
    enqueue_ready next_generation next_turn receive finish
none_after_second = refl

finish_leaves_main_example :
    ((second_turn.slots 1).status ≡ blocked_receive) × ((second_turn.slots 1).mailbox ≡ [])
finish_leaves_main_example =
    finish_leaves_main 7 blank second_turn 1 blank-IsReset to_second second_not_main
      none_after_second

two_spawned_queue : get_elem? two_spawned.ready_queue 1 ≡ some 3
unfolding start claim_main_slot spawn_task claim_slot first_free claim_at claimed recycled
    enqueue_ready next_generation
two_spawned_queue = refl

main_waits_two : Ends two_spawned task_two
unfolding start claim_main_slot spawn_task claim_slot first_free claim_at claimed recycled
    enqueue_ready next_generation next_turn receive
main_waits_two = waits refl refl

two_dies : Ends task_two task_three
unfolding start claim_main_slot spawn_task claim_slot first_free claim_at claimed recycled
    enqueue_ready next_generation next_turn receive finish
two_dies = dies (λ e. cc) refl

Runs-fifo_example : task_three.current ≡ 3
Runs-fifo_example =
    Runs-fifo two_spawned task_two task_three 1 3 two_spawned_queue (ends begin main_waits_two)
      two_dies

main_only-IsScheduled : IsScheduled main_only
main_only-IsScheduled = start-IsScheduled 7 blank blank-IsReset

not_entered : (spawn_task true true (some 8) false main_only).1 ≡ some entry_failed
unfolding start claim_main_slot spawn_task claim_slot first_free claim_at claimed recycled
    enqueue_ready next_generation
not_entered = refl

spawn_task_leaks_example :
    (idx : ℕ) × IsLeaked idx (spawn_task true true (some 8) false main_only).0
spawn_task_leaks_example =
    spawn_task_leaks true true (some 8) false main_only not_entered main_only-IsScheduled

claims_two : (claim_slot (some 8) main_only).1 ≡ got 2
unfolding start claim_main_slot claim_slot first_free claim_at claimed recycled enqueue_ready
    next_generation
claims_two = refl

small_generation : (main_only.slots 2).generation < 2 ^ 32
unfolding start claim_main_slot
small_generation = omega arith

send-claim_slot_example :
    send (id_for main_only 2) (some 5) (claim_slot (some 8) main_only).0
    ≡ ((claim_slot (some 8) main_only).0, none)
send-claim_slot_example = send-claim_slot main_only (some 8) 2 (some 5) claims_two small_generation
