-- ===== src/Bytecode/Scan/Starts.antt =====
-- The marks of the scan are the instructions that follow one another from the first byte.
use gengo.Prelude.{
  ℕ, zero, suc, ◌+◌, ◌≤◌, ◌<◌, ◌≡◌, ◌≢◌, ◌⊎◌, inl, inr, refl, sym, ◌∙◌, List, [], ◌∷◌, Bool, true,
  false, Option, none, some, leb, length, length-replicate, replicate, arith, Bool-cases, leb→le,
}
use mathlib.Core.Path.{subst}
use native.Mathlib.Decide.{ℕ_discrete}
use gengo.Prelude.Updates.{
  set_elem, length-set_elem, get_elem?-set_elem_here, get_elem?-set_elem_there,
}
use gengo.Bytecode.Checked.{ok, ◌>>◌, bad_jump_target, on_ok, on_pass, refuse_if}
use gengo.Bytecode.Decoder.{Code, DecodedInstruction, decode_at}
use gengo.Bytecode.Scan.{has, check_instruction, scan, target_is_bad, check_targets}

-- The instruction at `j` stands in a row of instructions that starts at `ip`.
pub data Chain (s : Code) : ℕ → ℕ → Type 0 where
  here : {ip : ℕ} → Chain s ip ip
  next :
      {ip j : ℕ} (inst : DecodedInstruction)
      → decode_at s ip ≡ ok inst
      → Chain s (ip + inst.width) j
      → Chain s ip j

pub Chain-le : {s : Code} {ip j : ℕ} → Chain s ip j → ip ≤ j
Chain-le here = omega arith
Chain-le (next inst d c) = omega (arith, Chain-le c)

pub Chain-snoc :
    {s : Code} {ip j : ℕ} (inst : DecodedInstruction)
    → decode_at s j ≡ ok inst
    → Chain s ip j
    → Chain s ip (j + inst.width)
Chain-snoc inst d here = next inst d here
Chain-snoc inst d (next first f c) = next first f (Chain-snoc inst d c)

pub has-set_elem_here :
    (starts : List Bool) (i : ℕ) → i < length starts → has (set_elem starts i true) i ≡ true
has-set_elem_here starts i h = rw (get_elem?-set_elem_here starts i true h, has) refl

pub has-set_elem_there :
    (starts : List Bool) (i j : ℕ) → i ≢ j → has (set_elem starts i true) j ≡ has starts j
has-set_elem_there starts i j h = rw (get_elem?-set_elem_there starts i j true h, has) refl

pub has-set_elem_keep :
    (starts : List Bool) (i j : ℕ) → has starts j ≡ true → has (set_elem starts i true) j ≡ true
has-set_elem_keep [] i j m = m
has-set_elem_keep (b ∷ starts) zero zero m = refl
has-set_elem_keep (b ∷ starts) zero (suc j) m = m
has-set_elem_keep (b ∷ starts) (suc i) zero m = m
has-set_elem_keep (b ∷ starts) (suc i) (suc j) m = has-set_elem_keep starts i j m

-- A scan that finds nothing wrong, round by round.
data Scanned (s : Code) (count : ℕ) : ℕ → List Bool → List Bool → Type 0 where
  past :
      {ip : ℕ} {starts marks : List Bool}
      → s.code_len ≤ ip
      → starts ≡ marks
      → Scanned s count ip starts marks
  round :
      {ip : ℕ} {starts marks : List Bool} (inst : DecodedInstruction)
      → ip < s.code_len
      → decode_at s ip ≡ ok inst
      → check_instruction s count ip inst ≡ ok tt
      → Scanned s count (ip + inst.width) (set_elem starts ip true) marks
      → Scanned s count ip starts marks

scan-Scanned :
    (fuel : ℕ) (s : Code) (count ip : ℕ) (starts marks : List Bool)
    → scan fuel s count ip starts ≡ ok marks
    → Scanned s count ip starts marks
unfolding scan
scan-Scanned zero s count ip starts marks h = past (ground arith) (ground arith)
scan-Scanned (suc less) s count ip starts marks h = elim (Bool-cases (leb s.code_len ip)) [
  | inl over ↦ past (leb→le _ _ over) (ground arith)
  | inr more ↦
      on_ok (decode_at s ip)
        (λ (inst : DecodedInstruction).
          check_instruction s count ip inst
          >> scan less s count (ip + inst.width) (set_elem starts ip true))
        (rw more at h)
        λ inst d h1.
          on_ok (check_instruction s count ip inst)
            (λ _. scan less s count (ip + inst.width) (set_elem starts ip true)) h1
            λ _ c h2.
              round inst (ground arith) d c
                (scan-Scanned less s count (ip + inst.width) (set_elem starts ip true) marks h2)
]

-- What is marked is a mark from before, or an instruction of the row.
Scanned-marked :
    {s : Code} {count ip : ℕ} {starts marks : List Bool}
    → Scanned s count ip starts marks
    → (j : ℕ) → has marks j ≡ true
    → (has starts j ≡ true) ⊎ Chain s ip j
Scanned-marked (past over e) j m = inl (subst (λ (l : List Bool). has l j ≡ true) (sym e) m)
Scanned-marked {s} {ip} {starts} (round inst lt d c r) j m = elim (ℕ_discrete ip j) [
  | yes e ↦ inr (subst (λ (k : ℕ). Chain s ip k) e here)
  | no ne ↦ elim (Scanned-marked r j m) [
    | inl old ↦ inl (sym (has-set_elem_there starts ip j ne) ∙ old)
    | inr row ↦ inr (next inst d row)
  ]
]

-- A mark stays.
Scanned-keep :
    {s : Code} {count ip : ℕ} {starts marks : List Bool}
    → Scanned s count ip starts marks
    → (j : ℕ) → has starts j ≡ true
    → has marks j ≡ true
Scanned-keep (past over e) j m = subst (λ (l : List Bool). has l j ≡ true) e m
Scanned-keep {ip} {starts} (round inst lt d c r) j m =
    Scanned-keep r j (has-set_elem_keep starts ip j m)

-- Each instruction of the row is marked, and was checked.
Scanned-checked :
    {s : Code} {count ip : ℕ} {starts marks : List Bool}
    → Scanned s count ip starts marks
    → length starts ≡ s.code_len
    → {j : ℕ} → Chain s ip j
    → j < s.code_len
    → (has marks j ≡ true)
      × ((inst : DecodedInstruction) × (decode_at s j ≡ ok inst)
          × (check_instruction s count j inst ≡ ok tt))
Scanned-checked (past over e) len row lt = absurd (omega (arith, Chain-le row))
Scanned-checked {ip} {starts} (round inst at d c r) len here lt =
    (Scanned-keep r ip (has-set_elem_here starts ip (omega arith)), (inst, d, c))
Scanned-checked {s} {ip} {starts} (round inst at d c r) len {j} (next first f row) lt =
    let same : first ≡ inst = cc in
    let row' : Chain s (ip + inst.width) j =
      subst (λ (k : DecodedInstruction). Chain s (ip + k.width) j) same row in
    Scanned-checked r (length-set_elem starts ip true ∙ len) row' lt

-- The second loop, round by round.
data Targeted (s : Code) (starts : List Bool) : ℕ → Type 0 where
  past : {ip : ℕ} → s.code_len ≤ ip → Targeted s starts ip
  round :
      {ip : ℕ} (inst : DecodedInstruction)
      → decode_at s ip ≡ ok inst
      → target_is_bad s starts inst.jump_target ≡ false
      → Targeted s starts (ip + inst.width)
      → Targeted s starts ip

check_targets-Targeted :
    (fuel : ℕ) (s : Code) (starts : List Bool) (ip : ℕ)
    → check_targets fuel s starts ip ≡ ok tt
    → Targeted s starts ip
unfolding check_targets
check_targets-Targeted zero s starts ip h = past (ground arith)
check_targets-Targeted (suc less) s starts ip h = elim (Bool-cases (leb s.code_len ip)) [
  | inl over ↦ past (leb→le _ _ over)
  | inr more ↦
      on_ok (decode_at s ip)
        (λ (inst : DecodedInstruction).
          refuse_if (target_is_bad s starts inst.jump_target) bad_jump_target
          >> check_targets less s starts (ip + inst.width))
        (rw more at h)
        λ inst d h1.
          on_pass (target_is_bad s starts inst.jump_target) bad_jump_target
            (check_targets less s starts (ip + inst.width)) h1
            λ good h2. round inst d good (check_targets-Targeted less s starts (ip + inst.width) h2)
]

Targeted-target :
    {s : Code} {starts : List Bool} {ip : ℕ}
    → Targeted s starts ip
    → {j : ℕ} → Chain s ip j
    → j < s.code_len
    → (inst : DecodedInstruction) → decode_at s j ≡ ok inst
    → target_is_bad s starts inst.jump_target ≡ false
Targeted-target (past over) row lt inst d = absurd (omega (arith, Chain-le row))
Targeted-target (round first f good t) here lt inst d =
    let same : first ≡ inst = cc in rw same at good
Targeted-target {s} {ip} (round first f good t) {j} (next second g row) lt inst d =
    let same : second ≡ first = cc in
    let row' : Chain s (ip + first.width) j =
      subst (λ (k : DecodedInstruction). Chain s (ip + k.width) j) same row in
    Targeted-target t row' lt inst d

-- What the loops over the instructions leave: the marks are the row from the first byte, each instruction of it
-- was checked, and each target is marked.
pub record IsMarked (s : Code) (count : ℕ) (starts : List Bool) : Type 0 where
  pub checked :
      (j : ℕ)
      → has starts j ≡ true
      → j < s.code_len
      → (inst : DecodedInstruction) × (decode_at s j ≡ ok inst)
        × (check_instruction s count j inst ≡ ok tt)
  pub following :
      (j : ℕ)
      → has starts j ≡ true
      → (inst : DecodedInstruction) → decode_at s j ≡ ok inst
      → j + inst.width < s.code_len
      → has starts (j + inst.width) ≡ true
  pub target :
      (j t : ℕ)
      → has starts j ≡ true
      → j < s.code_len
      → (inst : DecodedInstruction) → decode_at s j ≡ ok inst
      → inst.jump_target ≡ some t
      → (t < s.code_len) × (has starts t ≡ true)
  pub row : (j : ℕ) → Chain s 0 j → j < s.code_len → has starts j ≡ true

has-replicate : (n j : ℕ) → has (replicate n false) j ≡ false
has-replicate zero j = refl
has-replicate (suc n) zero = refl
has-replicate (suc n) (suc j) = has-replicate n j

row_of :
    (s : Code) (count : ℕ) (starts : List Bool)
    → Scanned s count 0 (replicate s.code_len false) starts
    → (j : ℕ) → has starts j ≡ true
    → Chain s 0 j
row_of s count starts sc j m = elim (Scanned-marked sc j m) [
  | inl old ↦ absurd (cc (has-replicate s.code_len j))
  | inr row ↦ row
]

good_target :
    (s : Code) (starts : List Bool) (t : ℕ) (target : Option ℕ)
    → target ≡ some t
    → target_is_bad s starts target ≡ false
    → (t < s.code_len) × (has starts t ≡ true)
unfolding target_is_bad
good_target s starts t none e good = absurd (cc)
good_target s starts t (some u) e good = (ground arith, ground arith)

pub scan-IsMarked :
    (s : Code) (count : ℕ) (starts : List Bool)
    → scan s.code_len s count 0 (replicate s.code_len false) ≡ ok starts
    → check_targets s.code_len s starts 0 ≡ ok tt
    → IsMarked s count starts
scan-IsMarked s count starts h g =
    let sc = scan-Scanned s.code_len s count 0 (replicate s.code_len false) starts h in
    let tg = check_targets-Targeted s.code_len s starts 0 g in
    let row = λ (j : ℕ) (m : has starts j ≡ true). row_of s count starts sc j m in
    let all = λ (j : ℕ) (c : Chain s 0 j) (lt : j < s.code_len).
      Scanned-checked sc (length-replicate s.code_len false) c lt in
    record {
      checked = λ j m lt. (all j (row j m) lt).1;
      following = λ j m inst d lt. (all (j + inst.width) (Chain-snoc inst d (row j m)) lt).0;
      target = λ j t m lt inst d e.
          good_target s starts t inst.jump_target e (Targeted-target tg (row j m) lt inst d);
      row = λ j c lt. (all j c lt).0;
    }
