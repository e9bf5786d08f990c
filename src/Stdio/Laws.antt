-- ===== src/Stdio/Laws.antt =====
-- Writes in a row are one write of the concatenation, also where the sink fails on the way.
use mathlib.Core.Path.{fun_ext}
use gengo.Prelude.{
  take_all, length-take, min, true, leb, ◌&&◌, not, ℕ, ◌-◌, ◌≤◌, ◌<◌, zero, suc, ◌≡◌, refl, ap,
  List, [], ◌∷◌, ◌++◌, append-nil, append_assoc, arith, length, take, length-append,
}
use gengo.Stdio.{fread, Sink, fflush, Writer, fwrite, skip, ◌>>◌}

pub fwrite-nil : fwrite [] ≡ skip
unfolding fwrite skip
fwrite-nil = fun_ext λ s. ground (arith, append-nil s.written)

-- The bytes that fit, when the first part alone is too long.
take-append_short :
    {A : Type 0} (n : ℕ) (xs ys : List A) → n < length xs → take n (xs ++ ys) ≡ take n xs
take-append_short n [] ys h = absurd (omega arith)
take-append_short zero (x ∷ xs) ys h = refl
take-append_short (suc n) (x ∷ xs) ys h = ap (λ l. x ∷ l) (take-append_short n xs ys (omega arith))

take-append_long :
    {A : Type 0} (n : ℕ) (xs ys : List A)
    → length xs ≤ n
    → take n (xs ++ ys) ≡ xs ++ take (n - length xs) ys
take-append_long n [] ys h = let e : n - 0 ≡ n = omega arith in rw e
take-append_long zero (x ∷ xs) ys h = absurd (omega arith)
take-append_long (suc n) (x ∷ xs) ys h =
    let e : suc n - suc (length xs) ≡ n - length xs = omega arith in
    rw e (ap (λ l. x ∷ l) (take-append_long n xs ys (omega arith)))

pub fwrite-append : (xs ys : List ℕ) → (fwrite xs >> fwrite ys) ≡ fwrite (xs ++ ys)
unfolding fwrite ◌>>◌
fwrite-append xs ys = fun_ext λ s. ground (
  arith,
  length-append xs ys,
  append_assoc s.written xs ys,
  append_assoc s.written xs (take (s.room - length xs) ys),
  take-append_short s.room xs ys,
  take-append_long s.room xs ys,
)

pub skip->> : (m : Writer) → (skip >> m) ≡ m
unfolding skip ◌>>◌
skip->> m = refl

-- A write that is flushed with no error has put out all of its bytes.
pub fwrite_flushed :
    (bytes : List ℕ) (s : Sink)
    → ((fwrite bytes >> fflush) s).0 ≡ true
    → ((fwrite bytes >> fflush) s).1.written ≡ s.written ++ bytes
unfolding fwrite fflush ◌>>◌
fwrite_flushed bytes s h = ground arith

-- It is answered exactly when there is room and no write failed before.
pub fwrite_flush_answer :
    (bytes : List ℕ) (s : Sink)
    → ((fwrite bytes >> fflush) s).0 ≡ (leb (length bytes) s.room && not s.failed)
unfolding fwrite fflush ◌>>◌
fwrite_flush_answer bytes s = ground arith

-- All of it, if the buffer is long enough.
pub fread_all : (n : ℕ) (bytes : List ℕ) → length bytes ≤ n → fread n bytes ≡ bytes
unfolding fread
fread_all n bytes h = take_all n bytes h

pub length-fread : (n : ℕ) (bytes : List ℕ) → length (fread n bytes) ≡ min n (length bytes)
unfolding fread
length-fread n bytes = length-take n bytes
