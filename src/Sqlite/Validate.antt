-- ===== src/Sqlite/Validate.antt =====
-- `sql_gengo_validate`: what it accepts, and the reason that it leaves.
use gengo.Prelude.{
  ℕ, ◌-◌, ◌≡◌, ◌↔◌, refl, List, [], true, Option, none, some, arith, inl, inr, Bool-cases,
}
use gengo.Prelude.Text.{codes, c_str}
use gengo.Wire.{Wire, wire_boolean, gengo_wire_as_bool}
use gengo.Engine.{SaysTrue, Engine, Outcome, CallCode, success, runtime_error, other_error}
use gengo.Sqlite.{
  reason_size, put_nul, Policy, accepted, validate, validate_args, on_validated, with_reason,
  fetch_script_reason, keep_reason, reject_reason,
}
use gengo.Sqlite.Buffer.{
  IsReason, strncpy-IsReason, put_nul-IsReason, read_str-IsReason, store_engine_error-IsReason,
}

module _ (g : Engine) where
  -- The buffer of a policy.
  abbrev pub IsSound : Policy g → Type 0
  IsSound pol = IsReason reason_size pol.last_reason

  with_reason-IsSound :
      (pol : Policy g) (text : List ℕ) → IsSound pol → IsSound (with_reason g pol text)
  unfolding with_reason
  with_reason-IsSound pol text r =
      strncpy-IsReason (reason_size - 1) reason_size text pol.last_reason (omega arith) r

  keep_reason-IsSound :
      (c : CallCode) (o : Outcome) (pol : Policy g) → IsSound pol → IsSound (keep_reason g c o pol)
  unfolding keep_reason
  keep_reason-IsSound success o pol r =
      read_str-IsReason o.memory o.out reason_size pol.last_reason (omega arith) r
  keep_reason-IsSound runtime_error o pol r = with_reason-IsSound pol _ r
  keep_reason-IsSound other_error o pol r = with_reason-IsSound pol _ r

  fetched-IsSound : (pol : Policy g) → IsSound pol → IsSound (fetch_script_reason g pol)
  unfolding fetch_script_reason
  fetched-IsSound pol r =
      let (st, o) = g.call pol.engine (codes "last_reject_reason") [] in
      keep_reason-IsSound o.code o (record pol { engine = st }) r

  on_validated-IsSound :
      (c : CallCode) (out : Wire) (pol : Policy g)
      → IsSound pol
      → IsSound (on_validated g c out pol).1
  unfolding on_validated
  on_validated-IsSound success out pol r = elim (Bool-cases (gengo_wire_as_bool out)) [
    | inl said ↦ rw said (put_nul-IsReason 0 reason_size pol.last_reason (omega arith) r)
    | inr denied ↦ rw denied (fetched-IsSound pol r)
  ]
  on_validated-IsSound runtime_error out pol r = store_engine_error-IsReason _ pol.last_reason r
  on_validated-IsSound other_error out pol r = with_reason-IsSound pol _ r

  -- From a buffer for the reason that has 512 bytes and a NUL in its last, as the host makes it,
  -- every validation leaves such a buffer, whatever the script answers: the text of the reason
  -- always ends inside it.
  pub validate-IsSound :
      (amount : ℕ) (currency : Option (List ℕ)) (qty : ℕ) (pol : Policy g)
      → IsSound pol
      → IsSound (validate g amount currency qty pol).1
  unfolding validate
  validate-IsSound amount none qty pol r = with_reason-IsSound pol _ r
  validate-IsSound amount (some currency) qty pol r =
      let (st, o) = g.call pol.engine (codes "validate") (validate_args g amount currency qty) in
      on_validated-IsSound o.code o.out (record pol { engine = st }) r

  as_bool_true :
      (w : Wire) → (gengo_wire_as_bool w ≡ true) ↔ ((w.tag ≡ wire_boolean) × (w.payload ≡ 1))
  unfolding gengo_wire_as_bool
  as_bool_true w = (λ e. ground arith, λ e. ground arith)

  put_nul_text : (buf : List ℕ) → c_str (put_nul 0 buf) ≡ []
  unfolding put_nul c_str
  put_nul_text buf = refl

  on_validated_accepted :
      (c : CallCode) (out : Wire) (pol : Policy g)
      → (((on_validated g c out pol).0 ≡ accepted)
          ↔ ((c ≡ success) × (out.tag ≡ wire_boolean) × (out.payload ≡ 1)))
        × ((on_validated g c out pol).0 ≡ accepted
            → reject_reason g (on_validated g c out pol).1 ≡ [])
  unfolding on_validated reject_reason
  on_validated_accepted success out pol = elim (Bool-cases (gengo_wire_as_bool out)) [
    | inl said ↦ rw said (
      (
        λ e. (
          refl,
          ground (arith, said, (as_bool_true out).0 said),
          ground (arith, (as_bool_true out).0 said),
        ),
        λ e. refl,
      ),
      λ e. put_nul_text pol.last_reason,
    )
    | inr denied ↦ rw denied (
      (λ e. absurd (ground arith), λ e. absurd (ground (arith, (as_bool_true out).1 (e.1, e.2)))),
      λ e. absurd (ground arith),
    )
  ]
  on_validated_accepted runtime_error out pol = ground arith
  on_validated_accepted other_error out pol = ground arith

  -- A row is accepted exactly when its currency is not NULL, the call of the script's `validate`
  -- succeeds and it answers the Boolean true. The reason is then the empty text.
  pub validate-accepted :
      (amount : ℕ) (currency : Option (List ℕ)) (qty : ℕ) (pol : Policy g)
      → (((validate g amount currency qty pol).0 ≡ accepted) ↔ (
          (text : List ℕ) × (currency ≡ some text)
          × SaysTrue (g.call pol.engine (codes "validate") (validate_args g amount text qty)).1))
        × ((validate g amount currency qty pol).0 ≡ accepted
            → reject_reason g (validate g amount currency qty pol).1 ≡ [])
  unfolding validate
  validate-accepted amount none qty pol =
      ((λ e. ground arith, λ (text, e, s). ground arith), λ e. ground arith)
  validate-accepted amount (some currency) qty pol =
      let (st, o) = g.call pol.engine (codes "validate") (validate_args g amount currency qty) in
      let given = on_validated_accepted o.code o.out (record pol { engine = st }) in
      let told : (text : List ℕ)
          → some currency ≡ some text
          → SaysTrue (g.call pol.engine (codes "validate") (validate_args g amount text qty)).1
          → SaysTrue o =
        λ text e s. let same : currency ≡ text = ground arith in rw same s in
      ((λ e. (currency, refl, given.0.0 e), λ (text, e, s). given.0.1 (told text e s)), given.1)
