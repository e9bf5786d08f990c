-- ===== src/Fastcgi/Server/Loop.antt =====
-- The loop of `main`: its fuel, one round of it, and the induction rule for invariants.
use gengo.Prelude.{ℕ, zero, suc, ◌≤◌, ◌≡◌, refl, sym, ◌∙◌, List, [], ◌∷◌, arith, length}
use gengo.Engine.{Engine}
use gengo.Fastcgi.{RecordHeader}
use gengo.Fastcgi.Reader.{Incoming, finished, broken, incoming, next_record}
use gengo.Fastcgi.Reader.Exact.{next_record-nil}
use gengo.Fastcgi.Reader.Progress.{next_record_takes}
use gengo.Fastcgi.Server.{Server, on_record, serve_loop, serve}

-- To split on a computed record and keep the equation.
pub Incoming-cases {ℓ} :
    {P : Type ℓ} (i : Incoming)
    → (i ≡ finished → P)
    → (i ≡ broken → P)
    → ((h : RecordHeader) (content rest : List ℕ) → i ≡ incoming h content rest → P)
    → P
Incoming-cases finished f b k = f refl
Incoming-cases broken f b k = b refl
Incoming-cases (incoming h content rest) f b k = k h content rest refl

module _ (g : Engine) where
  serve_loop-nil : (n : ℕ) (sv : Server g) → serve_loop g n [] sv ≡ sv
  unfolding serve_loop
  serve_loop-nil zero sv = refl
  serve_loop-nil (suc n) sv = rw next_record-nil

  -- Any two amounts of fuel that reach the input's length give the same run.
  serve_loop_fuel :
      (n m : ℕ) (input : List ℕ) (sv : Server g)
      → length input ≤ n
      → length input ≤ m
      → serve_loop g n input sv ≡ serve_loop g m input sv
  unfolding serve_loop
  serve_loop_fuel zero m [] sv p q = sym (serve_loop-nil m sv)
  serve_loop_fuel zero m (b ∷ input) sv p q = absurd (omega arith)
  serve_loop_fuel (suc n) zero [] sv p q = serve_loop-nil (suc n) sv
  serve_loop_fuel (suc n) zero (b ∷ input) sv p q = absurd (omega arith)
  serve_loop_fuel (suc n) (suc m) input sv p q =
      Incoming-cases (next_record input) (λ e. rw e) (λ e. rw e)
        λ h content rest e.
          let shorter = next_record_takes input e in
          rw e (serve_loop_fuel n m rest (on_record g h content sv) (omega arith) (omega arith))

  -- One round where a record can be read.
  pub serve_record :
      (input : List ℕ) (sv : Server g) {h : RecordHeader} {content rest : List ℕ}
      → next_record input ≡ incoming h content rest
      → serve g input sv ≡ serve g rest (on_record g h content sv)
  unfolding serve
  serve_record [] sv e = absurd (omega (arith, next_record_takes [] e))
  serve_record (b ∷ input) sv {h} {content} {rest} e =
      let shorter = next_record_takes (b ∷ input) e in
      round_of e
      ∙ serve_loop_fuel (length input) (length rest) rest (on_record g h content sv) (omega arith)
          (omega arith)
    where
      round_of :
          next_record (b ∷ input) ≡ incoming h content rest
          → serve_loop g (suc (length input)) (b ∷ input) sv
            ≡ serve_loop g (length input) rest (on_record g h content sv)
      round_of e = unfold serve_loop in rw e

  pub serve-nil : (sv : Server g) → serve g [] sv ≡ sv
  unfolding serve serve_loop
  serve-nil sv = refl

  -- What every handled record keeps, the loop keeps.
  module _ {P : Server g → Type 0}
      (keep : (h : RecordHeader) (content : List ℕ) (sv : Server g)
        → h.content_len ≡ length content
        → P sv
        → P (on_record g h content sv)) where
    serve_loop_inv : (n : ℕ) (input : List ℕ) (sv : Server g) → P sv → P (serve_loop g n input sv)
    unfolding serve_loop
    serve_loop_inv zero input sv p = p
    serve_loop_inv (suc n) input sv p =
        Incoming-cases (next_record input) (λ e. rw e p) (λ e. rw e p)
          λ h content rest e. rw e (
            serve_loop_inv n rest (on_record g h content sv)
              (keep h content sv (next_record_takes input e).0 p))

    pub serve_inv : (input : List ℕ) (sv : Server g) → P sv → P (serve g input sv)
    unfolding serve
    serve_inv input sv p = serve_loop_inv (length input) input sv p
