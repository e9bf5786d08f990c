-- ===== src/Sqlite/Buffer.antt =====
-- The buffer `last_reason` keeps its size and its last NUL through everything that is put there.
use gengo.Prelude.{
  ℕ, zero, suc, ◌+◌, ◌-◌, ◌≤◌, ◌<◌, ◌≡◌, refl, ap, sym, ◌∙◌, List, [], ◌∷◌, ◌++◌, false, some, ◌==◌,
  ltb, if◌then◌else◌, length, take, drop, replicate, get_elem?, length-append, length-take,
  length-drop, length-replicate, arith, inl, inr, Bool-cases,
}
use gengo.Prelude.Text.{c_str}
use gengo.Wire.{read_bytes, Memory, Wire, gengo_wire_read_str}
use gengo.Wire.Strings.{length-read_bytes}
use gengo.Sqlite.{reason_size, strncpy, put_nul, store_engine_error, readable_part}

-- The buffer as `memset` and every writer leave it.
pub record IsReason (size : ℕ) (buf : List ℕ) : Type 0 where
  pub sized : length buf ≡ size
  pub ended : get_elem? buf (size - 1) ≡ some 0

get_elem?-append_right :
    (xs ys : List ℕ) (i : ℕ) → length xs ≤ i → get_elem? (xs ++ ys) i ≡ get_elem? ys (i - length xs)
get_elem?-append_right [] ys i h = let e : i - 0 ≡ i = omega arith in rw e
get_elem?-append_right (x ∷ xs) ys zero h = absurd (omega arith)
get_elem?-append_right (x ∷ xs) ys (suc i) h =
    let e : suc i - suc (length xs) ≡ i - length xs = omega arith in
    rw e (get_elem?-append_right xs ys i (omega arith))

get_elem?-drop : (n i : ℕ) (xs : List ℕ) → get_elem? (drop n xs) i ≡ get_elem? xs (n + i)
get_elem?-drop zero i xs = let e : 0 + i ≡ i = omega arith in rw e
get_elem?-drop (suc n) i [] = refl
get_elem?-drop (suc n) i (x ∷ xs) =
    let e : suc n + i ≡ suc (n + i) = omega arith in rw e (get_elem?-drop n i xs)

length-strncpy :
    (n : ℕ) (src dest : List ℕ) → n ≤ length dest → length (strncpy n src dest) ≡ length dest
unfolding strncpy
length-strncpy n src dest h = ground (
  arith,
  length-append (take n (c_str src ++ replicate n 0)) (drop n dest),
  length-take n (c_str src ++ replicate n 0),
  length-append (c_str src) (replicate n 0),
  length-replicate {A = ℕ} n 0,
  length-drop n dest,
)

-- What stands behind the `n` bytes stays.
strncpy_keeps :
    (n i : ℕ) (src dest : List ℕ) → n ≤ i → get_elem? (strncpy n src dest) i ≡ get_elem? dest i
unfolding strncpy
strncpy_keeps n i src dest h =
    let front = take n (c_str src ++ replicate n 0) in
    let sized : length front ≡ n = omega (
      arith,
      length-take n (c_str src ++ replicate n 0),
      length-append (c_str src) (replicate n 0),
      length-replicate {A = ℕ} n 0,
    ) in
    let e : n + (i - length front) ≡ i = omega arith in
    get_elem?-append_right front (drop n dest) i (omega arith)
    ∙ get_elem?-drop n (i - length front) dest
    ∙ ap (get_elem? dest) e

pub strncpy-IsReason :
    (n size : ℕ) (src buf : List ℕ)
    → n < size
    → IsReason size buf
    → IsReason size (strncpy n src buf)
strncpy-IsReason n size src buf h r = record {
  sized = length-strncpy n src buf (omega arith) ∙ r.sized;
  ended = strncpy_keeps n (size - 1) src buf (omega arith) ∙ r.ended;
}

-- `i` bytes, a NUL, and the rest of the buffer as it was.
nul_after-IsReason :
    (i size : ℕ) (front buf : List ℕ)
    → length front ≡ i
    → i < size
    → IsReason size buf
    → IsReason size (front ++ 0 ∷ drop (i + 1) buf)
nul_after-IsReason i size front buf e h r = record {
  sized =
      omega (arith, length-append front (0 ∷ drop (i + 1) buf), length-drop (i + 1) buf, r.sized);
  ended =
      get_elem?-append_right front (0 ∷ drop (i + 1) buf) (size - 1) (omega arith)
      ∙ last (size - 1 - length front) (omega arith);
}
  where
    last : (k : ℕ) → k + i + 1 ≡ size → get_elem? (0 ∷ drop (i + 1) buf) k ≡ some 0
    last zero q = refl
    last (suc k) q =
        let e' : i + 1 + k ≡ size - 1 = omega arith in
        get_elem?-drop (i + 1) k buf ∙ ap (get_elem? buf) e' ∙ r.ended

pub put_nul-IsReason :
    (i size : ℕ) (buf : List ℕ) → i < size → IsReason size buf → IsReason size (put_nul i buf)
unfolding put_nul
put_nul-IsReason i size buf h r =
    nul_after-IsReason i size (take i buf) buf (omega (arith, length-take i buf, r.sized)) h r

pub read_str-IsReason :
    (m : Memory) (v : Wire) (size : ℕ) (buf : List ℕ)
    → 0 < size
    → IsReason size buf
    → IsReason size (gengo_wire_read_str m v buf).1
unfolding gengo_wire_read_str
read_str-IsReason m v size buf h r =
    let n : ℕ = if ltb v.len (length buf) then v.len else length buf - 1 in
    ground (
      arith,
      nul_after-IsReason 0 size [] buf refl h r,
      nul_after-IsReason n size (read_bytes m v.payload n) buf (length-read_bytes m v.payload n)
          (ground arith) r,
    )

pub store_engine_error-IsReason :
    (message buf : List ℕ)
    → IsReason reason_size buf
    → IsReason reason_size (store_engine_error message buf)
unfolding store_engine_error
store_engine_error-IsReason message buf r =
    let text = readable_part (c_str (take (reason_size - 1) message)) in
    let kept = strncpy-IsReason (reason_size - 1) reason_size text buf (omega arith) r in
    elim (Bool-cases (length message == 0)) [
      | inl none_left ↦
          rw none_left (strncpy-IsReason (reason_size - 1) reason_size _ buf (omega arith) r)
      | inr some_left ↦
          rw some_left (put_nul-IsReason (reason_size - 1) reason_size _ (omega arith) kept)
    ]

-- The text of a buffer that was filled by `strncpy`, where a NUL stands behind the filled part.
strncpy_text :
    (n k : ℕ) (src dest : List ℕ)
    → n ≤ k
    → get_elem? dest n ≡ some 0
    → c_str (take n (c_str src ++ replicate k 0) ++ drop n dest) ≡ take n (c_str src)
unfolding c_str
strncpy_text zero k src [] h e = refl
strncpy_text zero k src (d ∷ dest) h e = ground arith
strncpy_text (suc n) zero src dest h e = absurd (omega arith)
strncpy_text (suc n) (suc k) [] dest h e = refl
strncpy_text (suc n) (suc k) (zero ∷ src) dest h e = refl
strncpy_text (suc n) (suc k) (suc b ∷ src) [] h e = ground arith
strncpy_text (suc n) (suc k) (suc b ∷ src) (d ∷ dest) h e =
    let nonzero : (suc b == 0) ≡ false = ground arith in
    rw (nonzero, nonzero) (ap (◌∷◌ (suc b)) (strncpy_text n (suc k) src dest (omega arith) e))

pub c_str-strncpy :
    (n : ℕ) (src dest : List ℕ)
    → IsReason (n + 1) dest
    → c_str (strncpy n src dest) ≡ take n (c_str src)
unfolding strncpy
c_str-strncpy n src dest r =
    let e : n + 1 - 1 ≡ n = omega arith in
    strncpy_text n n src dest (omega arith) (ap (get_elem? dest) (sym e) ∙ r.ended)

-- A NUL put where one stands changes nothing.
put_nul_idle : (i : ℕ) (buf : List ℕ) → get_elem? buf i ≡ some 0 → put_nul i buf ≡ buf
unfolding put_nul
put_nul_idle i [] h = ground arith
put_nul_idle zero (b ∷ buf) h = ground arith
put_nul_idle (suc i) (b ∷ buf) h =
    let e : suc i + 1 ≡ suc (i + 1) = omega arith in rw e (ap (◌∷◌ b) (put_nul_idle i buf h))

pub store_engine_error_text :
    (message buf : List ℕ)
    → 0 < length message
    → IsReason reason_size buf
    → c_str (store_engine_error message buf)
      ≡ take (reason_size - 1) (c_str (readable_part (c_str (take (reason_size - 1) message))))
unfolding store_engine_error
store_engine_error_text message buf h r =
    let text = readable_part (c_str (take (reason_size - 1) message)) in
    let filled = strncpy-IsReason (reason_size - 1) reason_size text buf (omega arith) r in
    let some_left : (length message == 0) ≡ false = ground arith in
    rw some_left (
      ap c_str (put_nul_idle (reason_size - 1) (strncpy (reason_size - 1) text buf) filled.ended)
      ∙ c_str-strncpy (reason_size - 1) text buf r)
