-- ===== src/CEngine.antt =====
-- tools/site-builder/fixtures/c_engine/add.c and composite.c: the two programs of the manual that
-- embed the engine. The line and the column of an error are left out.
mod Tests
pub mod Totals
use gengo.Prelude.{
  ℕ, zero, suc, ◌+◌, ◌*◌, ◌%◌, ◌^◌, List, [], ◌∷◌, ◌++◌, Bool, true, false, not, ◌&&◌, ◌||◌, Option,
  none, some, ◌==◌, leb, if◌then◌else◌, length,
}
use gengo.Prelude.Text.{codes, c_str}
use gengo.Wire.{
  Wire, Memory, Floats, wire_number, flag_integer, gengo_wire_as_int, gengo_wire_map_len,
  gengo_wire_map_value_at,
}
use gengo.Engine.{
  Engine, Arg, int, ints, CallCode, success, runtime_error, other_error, Outcome, RunCode, run_ok,
  compile_failed, run_failed,
}

-- sizeof message
abbrev pub message_size : ℕ
message_size = 256

-- What `print_error` prints of a message: `engine_last_error` answers its whole length, of which at
-- most 256 bytes are in the buffer; `none` is the read behind the buffer.
unfoldable pub print_error : List ℕ → Option (List ℕ)
print_error message = if leb (length message) message_size then some (c_str message) else none

-- How a program ends.
pub data Ending : Type 0 where
  init_failed : Ending
  engine_error : Option (List ℕ) → Ending
  unexpected : Ending
  printed : List ℕ → Ending

pub exit_code : Ending → ℕ
exit_code (printed line) = 0
exit_code _ = 1

abbrev pub add_source : List ℕ
add_source = codes "pub func add(a int, b int) int { return a + b }\n"

abbrev pub composite_source : List ℕ
composite_source =
    codes "pub func sum(xs []int) int {\n    total := 0\n    for x in xs { total += x }\n"
    ++ (codes "    return total\n}\npub func make_map() [string]int {\n"
        ++ codes "    return {\"a\": 1, \"b\": 2}\n}\n")

-- !(out.tag != NUMBER || out.flags != INTEGER || out.payload != 42)
unfoldable pub is_42 : Wire → Bool
is_42 out =
    not (not (out.tag == wire_number) || not (out.flags == flag_integer) || not (out.payload == 42))

-- total += gengo_wire_as_int(at), and what follows; `none` is a NULL that is read. The sum wraps
-- around 64 bits, where C leaves an overflow undefined.
abbrev pub add_at : Floats → Memory → (ℕ → Option ℕ) → ℕ → Option ℕ → Option ℕ
add_at fl m next total none = none
add_at fl m next total (some at) = next ((total + gengo_wire_as_int fl (m.wire at)) % 2 ^ 64)

-- The loop of composite.c over the entries of a map, with `rounds` entries left.
pub total_loop : Floats → Memory → Wire → ℕ → ℕ → ℕ → Option ℕ
total_loop fl m v zero i total = some total
total_loop fl m v (suc rounds) i total =
    add_at fl m (total_loop fl m v rounds (i + 1)) total (gengo_wire_map_value_at v i)

pub map_total : Floats → Memory → Wire → Option ℕ
map_total fl m v = total_loop fl m v (gengo_wire_map_len v) 0 0

-- gengo_wire_map_len(&map_out) == 2 && total == 3
pub is_expected : Wire → Option ℕ → Bool
is_expected out none = false
is_expected out (some total) = (gengo_wire_map_len out == 2) && (total == 3)

-- `if (engine_call(...) != 0) ...`: what follows a success, and the other end.
abbrev pub if_called : CallCode → Ending → Ending → Ending
if_called success next failed = next
if_called runtime_error next failed = failed
if_called other_error next failed = failed

abbrev pub if_run : RunCode → Ending → Ending → Ending
if_run run_ok next failed = next
if_run compile_failed next failed = failed
if_run run_failed next failed = failed

module _ (g : Engine) where
  -- A call, and what is done with its wire where it succeeds.
  pub call_then : List ℕ → List Arg → g.State → (g.State → Outcome → Ending) → Ending
  call_then fn args st next =
      let (st', o) = g.call st fn args in
      if_called o.code (next st' o) (engine_error (print_error (g.last_error st')))

  -- The start of both programs: `engine_init` and `engine_run`.
  pub run_then : Option g.State → List ℕ → (g.State → Ending) → Ending
  run_then none source next = init_failed
  run_then (some st) source next =
      let (st', code) = g.run st source in
      if_run code (next st') (engine_error (print_error (g.last_error st')))

  -- `main` of add.c
  unfoldable pub add_main : Option g.State → Ending
  add_main start = run_then start add_source λ st.
      call_then (codes "add") (int 40 ∷ int 2 ∷ []) st
        λ st' o. if is_42 o.out then printed (codes "42") else unexpected

  -- `main` of composite.c
  pub composite_main : Floats → Option g.State → Ending
  composite_main fl start = run_then start composite_source λ st.
      call_then (codes "sum") (ints (1 ∷ 2 ∷ 3 ∷ 4 ∷ []) ∷ []) st λ st' o.
        if not (gengo_wire_as_int fl o.out == 10)
        then unexpected
        else call_then (codes "make_map") [] st' λ st'' o'.
          if is_expected o'.out (map_total fl o'.memory o'.out)
          then printed (codes "ok")
          else unexpected
