-- ===== src/Bytecode/Verifier/Functions.antt =====
-- What the walks through the functions leave in the constants.
use mathlib.Core.Path.{subst}
use gengo.Prelude.{
  ◌≢◌, ℕ, ◌+◌, ◌≤◌, ◌<◌, ◌≡◌, ◌⊎◌, inl, inr, refl, sym, ap, ◌∙◌, List, [], ◌∷◌, Bool, true, false,
  ◌&&◌, Option, none, some, ltb, leb, ◌==◌, ==_iff, arith, Bool-cases,
}
use gengo.Bytecode.Checked.{
  ok, ◌>>=◌, ◌>>◌, refuse_if, invalid_bytecode, stack_overflow, on_ok, on_pass,
}
use gengo.Bytecode.Decoder.{Code}
use gengo.Bytecode.Scan.{has}
use gengo.Bytecode.Walk.{Entry, run}
use gengo.Bytecode.Walk.Paths.{In}
use gengo.Bytecode.Walk.Same.{run-same}
use gengo.Bytecode.Verifier.{FuncObj, entry_of, func_bodies, stamp, run_bodies}

-- Every function whose body stands at an instruction is among the bodies.
pub func_bodies-In :
    (s : Code) (starts : List Bool) (found : ℕ) (consts : List (Option FuncObj))
    (bodies : List Entry) (f : FuncObj)
    → func_bodies s starts found consts ≡ ok bodies
    → In (some f) consts
    → f.ip < s.code_len
    → has starts f.ip ≡ true
    → In (entry_of f) bodies
unfolding func_bodies
func_bodies-In s starts found [] bodies f h m lt at_mark = elim m [ ]
func_bodies-In s starts found (none ∷ consts) bodies f h (inl e) lt at_mark = absurd (cc)
func_bodies-In s starts found (none ∷ consts) bodies f h (inr m) lt at_mark =
    func_bodies-In s starts found consts bodies f h m lt at_mark
func_bodies-In s starts found (some g ∷ consts) bodies f h m lt at_mark =
    elim (Bool-cases (ltb g.ip s.code_len && has starts g.ip)) [
      | inl taken ↦
          on_pass (leb 4096 found) invalid_bytecode
            (func_bodies s starts (found + 1) consts >>= λ bs. ok (entry_of g ∷ bs)) (rw taken at h)
            λ room h1.
              on_ok (func_bodies s starts (found + 1) consts)
                (λ (bs : List Entry). ok (entry_of g ∷ bs)) h1
                λ bs h2 e.
                  let same : entry_of g ∷ bs ≡ bodies = cc in
                  subst (λ (l : List Entry). In (entry_of f) l) same
                    (elim m [
                      | inl first ↦ inl (let f_is : f ≡ g = cc in ap entry_of f_is)
                      | inr further ↦
                          inr
                            (func_bodies-In s starts (found + 1) consts bs f h2 further lt at_mark)
                    ])
      | inr skipped ↦
          func_bodies-In s starts found consts bodies f (rw skipped at h)
            (elim m [
              | inl first ↦
                  let f_is : f ≡ g = cc in
                  let left_out =
                    subst (λ (k : FuncObj). (ltb k.ip s.code_len && has starts k.ip) ≡ false)
                      (sym f_is) skipped in
                  absurd (ground arith)
              | inr further ↦ further
            ])
            lt at_mark
    ]

-- Every function at an address has a depth.
abbrev pub Stamped : ℕ → ℕ → List (Option FuncObj) → Type 0
Stamped ip max consts = (g : FuncObj) → In (some g) consts → g.ip ≡ ip → g.max_stack ≡ max

-- A function of the new list is one of the old list but for its depth.
abbrev pub SameBut : FuncObj → FuncObj → Type 0
SameBut g f = (g.ip ≡ f.ip) × (g.arity ≡ f.arity) × (g.capture_count ≡ f.capture_count)

stamp-In :
    (ip max : ℕ) (consts : List (Option FuncObj)) (g : FuncObj)
    → In (some g) (stamp ip max consts)
    → (f : FuncObj) × In (some f) consts
      × SameBut g f
      × (((f.ip ≡ ip) × (g.max_stack ≡ max)) ⊎ ((f.ip ≢ ip) × (g.max_stack ≡ f.max_stack)))
unfolding stamp
stamp-In ip max [] g m = elim m [ ]
stamp-In ip max (none ∷ consts) g (inl e) = absurd (cc)
stamp-In ip max (none ∷ consts) g (inr m) =
    let (f, was, same, depth) = stamp-In ip max consts g m in (f, inr was, same, depth)
stamp-In ip max (some f ∷ consts) g (inl e) = elim (Bool-cases (f.ip == ip)) [
  | inl here ↦
      let e' : some g ≡ some (record f { max_stack = max }) = rw here at e in
      let same : g ≡ record f { max_stack = max } = cc in
      (
        f,
        inl refl,
        (
          ap (λ (k : FuncObj). k.ip) same,
          ap (λ (k : FuncObj). k.arity) same,
          ap (λ (k : FuncObj). k.capture_count) same,
        ),
        inl ((==_iff f.ip ip).0 here, ap (λ (k : FuncObj). k.max_stack) same),
      )
  | inr there ↦
      let e' : some g ≡ some f = rw there at e in
      let same : g ≡ f = cc in
      (
        f,
        inl refl,
        (
          ap (λ (k : FuncObj). k.ip) same,
          ap (λ (k : FuncObj). k.arity) same,
          ap (λ (k : FuncObj). k.capture_count) same,
        ),
        inr (ground arith, ap (λ (k : FuncObj). k.max_stack) same),
      )
]
stamp-In ip max (some f ∷ consts) g (inr m) =
    let (k, was, same, depth) = stamp-In ip max consts g m in (k, inr was, same, depth)

stamp-Stamped : (ip max : ℕ) (consts : List (Option FuncObj)) → Stamped ip max (stamp ip max consts)
stamp-Stamped ip max consts g m at =
    let (f, was, same, depth) = stamp-In ip max consts g m in
    elim depth [ inl here ↦ here.1 | inr there ↦ absurd (there.0 (sym same.0 ∙ at)) ]

stamp-keep :
    (ip max other m : ℕ) (consts : List (Option FuncObj))
    → (other ≡ ip → m ≡ max)
    → Stamped ip max consts
    → Stamped ip max (stamp other m consts)
stamp-keep ip max other m consts agree all g i at =
    let (f, was, same, depth) = stamp-In other m consts g i in
    elim depth [
      | inl here ↦ here.1 ∙ agree (sym here.0 ∙ sym same.0 ∙ at)
      | inr there ↦ there.1 ∙ all f was (sym same.0 ∙ at)
    ]

-- The walks through the bodies, one after another.
pub data Stamps (s : Code) (starts : List Bool)
    : List Entry → List (Option FuncObj) → List (Option FuncObj) → Type 0 where
  ends : {consts out : List (Option FuncObj)} → consts ≡ out → Stamps s starts [] consts out
  walks :
      {bodies : List Entry} {consts out : List (Option FuncObj)} (e : Entry) (max : ℕ)
      → run s starts e ≡ ok max
      → max ≤ 65535
      → Stamps s starts bodies (stamp e.entry_ip max consts) out
      → Stamps s starts (e ∷ bodies) consts out

pub run_bodies-Stamps :
    (s : Code) (starts : List Bool) (bodies : List Entry) (consts out : List (Option FuncObj))
    → run_bodies s starts bodies consts ≡ ok out
    → Stamps s starts bodies consts out
unfolding run_bodies
run_bodies-Stamps s starts [] consts out h = ends (cc)
run_bodies-Stamps s starts (e ∷ bodies) consts out h =
    on_ok (run s starts e)
      (λ (max : ℕ).
        refuse_if (ltb 65535 max) stack_overflow
        >> run_bodies s starts bodies (stamp e.entry_ip max consts))
      h
      λ max ran h1.
        on_pass (ltb 65535 max) stack_overflow
          (run_bodies s starts bodies (stamp e.entry_ip max consts)) h1
          λ low h2.
            walks e max ran (ground arith)
              (run_bodies-Stamps s starts bodies (stamp e.entry_ip max consts) out h2)

module _ {s : Code} {starts : List Bool} where
  -- A function of the new list is one of the old list.
  pub Stamps-In :
      {bodies : List Entry} {consts out : List (Option FuncObj)}
      → Stamps s starts bodies consts out
      → (g : FuncObj) → In (some g) out
      → (f : FuncObj) × In (some f) consts × SameBut g f
  Stamps-In (ends e) g m =
      (g, subst (λ (l : List (Option FuncObj)). In (some g) l) (sym e) m, (refl, refl, refl))
  Stamps-In {consts = consts} (walks e max ran low r) g m =
      let (k, was, same) = Stamps-In r g m in
      let (f, before, same', depth) = stamp-In e.entry_ip max consts k was in
      (f, before, (same.0 ∙ same'.0, same.1 ∙ same'.1, same.2 ∙ same'.2))

  Stamps-keep :
      {bodies : List Entry} {consts out : List (Option FuncObj)} (e : Entry) (max : ℕ)
      → Stamps s starts bodies consts out
      → run s starts e ≡ ok max
      → Stamped e.entry_ip max consts
      → Stamped e.entry_ip max out
  Stamps-keep e max (ends same) ran all =
      subst (λ (l : List (Option FuncObj)). Stamped e.entry_ip max l) same all
  Stamps-keep {consts = consts} e max (walks other m went low r) ran all = Stamps-keep e max r ran (
      stamp-keep e.entry_ip max other.entry_ip m consts
        (λ at. run-same s starts other e m max at went ran) all)

  -- Each body was walked through, and its functions have the depth that was found.
  pub Stamps-Stamped :
      {bodies : List Entry} {consts out : List (Option FuncObj)}
      → Stamps s starts bodies consts out
      → (e : Entry) → In e bodies
      → (max : ℕ) × (run s starts e ≡ ok max) × (max ≤ 65535) × Stamped e.entry_ip max out
  Stamps-Stamped (ends same) e m = elim m [ ]
  Stamps-Stamped {consts = consts} {out} (walks first max ran low r) e (inl same) =
      subst
        (λ (k : Entry).
          (max : ℕ) × (run s starts k ≡ ok max) × (max ≤ 65535) × Stamped k.entry_ip max out)
        (sym same)
        (max, ran, low, Stamps-keep first max r ran (stamp-Stamped first.entry_ip max consts))
  Stamps-Stamped (walks first max ran low r) e (inr m) = Stamps-Stamped r e m
