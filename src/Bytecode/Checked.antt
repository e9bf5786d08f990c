-- ===== src/Bytecode/Checked.antt =====
-- What the checks of bytecode answer. `overflow` is the panic of an addition of bytes, and `no_fuel` a loop
-- that is cut off, which does not happen; memory is taken to be there.
use gengo.Prelude.{◌≢◌, ◌≡◌, refl, Bool, true, false}

pub data Error : Type 0 where
  bytecode_out_of_bounds bad_opcode bad_jump_target bad_constant_index : Error
  invalid_bytecode return_at_top_level stack_underflow stack_overflow : Error
  overflow no_fuel : Error

pub data Checked {ℓ} (A : Type ℓ) : Type ℓ where
  ok : A → Checked A
  error : Error → Checked A

-- if (bad) return error.E
abbrev pub refuse_if : Bool → Error → Checked (Unit {0})
refuse_if true e = error e
refuse_if false e = ok tt

-- `try`: the code behind a value; an error is handed up.
infixl 5 ◌>>=◌
abbrev pub ◌>>=◌ {ℓ κ} :
    {Found : Type ℓ} {Answer : Type κ} → Checked Found → (Found → Checked Answer) → Checked Answer
ok found >>= behind = behind found
error e >>= behind = error e

infixl 5 ◌>>◌
abbrev pub ◌>>◌ {κ} : {Answer : Type κ} → Checked (Unit {0}) → Checked Answer → Checked Answer
test >> behind = test >>= λ passed. behind

-- What follows from a success: the value that was found, as a variable, and what was done with it.
module _ {ℓ κ ρ} {A : Type ℓ} {B : Type κ} {R : Type ρ} where
  pub on_ok :
      (m : Checked A) (f : A → Checked B) {b : B}
      → (m >>= f) ≡ ok b
      → ((a : A) → m ≡ ok a → f a ≡ ok b → R)
      → R
  on_ok (ok a) f h k = k a refl h
  on_ok (error e) f h k = absurd (cc)

module _ {κ ρ} {B : Type κ} {R : Type ρ} where
  pub on_pass :
      (bad : Bool) (e : Error) (m : Checked B) {b : B}
      → (refuse_if bad e >> m) ≡ ok b
      → (bad ≡ false → m ≡ ok b → R)
      → R
  on_pass true e m h k = absurd (cc)
  on_pass false e m h k = k refl h

-- The answer of a piece of code that is not cut off.
abbrev pub Answers {ℓ} : {A : Type ℓ} → Checked A → Type ℓ
Answers m = m ≢ error no_fuel

pub Answers-bind {ℓ κ} :
    {A : Type ℓ} {B : Type κ} (m : Checked A) (f : A → Checked B)
    → Answers m
    → ((a : A) → m ≡ ok a → Answers (f a))
    → Answers (m >>= f)
Answers-bind (ok a) f h k = k a refl
Answers-bind (error e) f h k = λ g. h (cc)
