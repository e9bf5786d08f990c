-- ===== src/Bundle/Lines.antt =====
-- The lines of the bundle host.
use gengo.Prelude.{
  ℕ, zero, suc, ◌≡◌, ◌≤◌, ◌<◌, refl, ap, List, [], ◌∷◌, some, All, arith, length, get_elem?,
}
use gengo.Prelude.Text.{c_str, codes}
use gengo.Wire.{gengo_wire_read_str}
use gengo.Wire.Strings.{gengo_wire_read_str-bounds}
use gengo.Engine.{Engine, CallCode, success, runtime_error, other_error, Outcome}
use gengo.Bundle.{
  Student, Line, result, log_error, cannot_start, cannot_read_bundle, load_bundle_failed,
  cannot_read_script, evaluate_args, student_line, evaluate_all,
}

-- A NUL in a buffer bounds its text.
pub c_str_bound : (i : ℕ) (buf : List ℕ) → get_elem? buf i ≡ some 0 → length (c_str buf) ≤ i
unfolding c_str
c_str_bound i [] h = ground arith
c_str_bound zero (b ∷ buf) h = ground arith
c_str_bound (suc i) (b ∷ buf) h = ground (arith, c_str_bound i buf h)

-- A result stays below this size.
abbrev pub IsShort : ℕ → Line → Type 0
IsShort size (result text) = length text < size
IsShort size (log_error what message) = Unit
IsShort size cannot_start = Unit
IsShort size cannot_read_bundle = Unit
IsShort size load_bundle_failed = Unit
IsShort size cannot_read_script = Unit

module _ (g : Engine) where
  student_line-IsShort :
      (buf : List ℕ) (st : g.State) (c : CallCode) (o : Outcome)
      → 0 < length buf
      → IsShort (length buf) (student_line g buf st c o)
  unfolding student_line
  student_line-IsShort buf st success o h =
      let bounds = gengo_wire_read_str-bounds o.memory o.out buf h in
      omega (
        arith,
        c_str_bound (gengo_wire_read_str o.memory o.out buf).0
            (gengo_wire_read_str o.memory o.out buf).1 bounds.3,
        bounds.1,
      )
  student_line-IsShort buf st runtime_error o h = tt
  student_line-IsShort buf st other_error o h = tt

  -- With a buffer of one byte at least, there is one line for each student, also behind a call that
  -- failed, and the text of a script's answer with its NUL fits the buffer, whatever it answers.
  pub evaluate_all-IsShort :
      (buf : List ℕ) (students : List Student) (st : g.State)
      → 0 < length buf
      → (length (evaluate_all g buf students st) ≡ length students)
        × All (IsShort (length buf)) (evaluate_all g buf students st)
  unfolding evaluate_all
  evaluate_all-IsShort buf [] st h = (refl, tt)
  evaluate_all-IsShort buf (s ∷ students) st h =
      let (st', o) = g.call st (codes "evaluate") (evaluate_args s) in
      let rest = evaluate_all-IsShort buf students st' h in
      (ap (λ n. suc n) rest.0, (student_line-IsShort buf st' o.code o h, rest.1))
