-- ===== src/Sqlite/Fetch.antt =====
-- `fetch_reject_reason`: the copy of the reason that the host makes for itself.
use gengo.Prelude.{
  ℕ, zero, suc, ◌+◌, ◌-◌, ◌<◌, ◌≡◌, refl, ap, ◌∙◌, List, [], ◌∷◌, ◌++◌, false, ◌==◌, leb,
  if◌then◌else◌, length, take, drop, take_all, length-append, length-take, length-drop, arith,
}
use gengo.Prelude.Text.{c_str}
use gengo.Engine.{Engine}
use gengo.Sqlite.{Policy, fetch_reject_reason, reject_reason}

-- A text that was cut to `n` bytes and ended by a NUL.
c_str_cut : (n : ℕ) (xs ys : List ℕ) → c_str (take n (c_str xs) ++ 0 ∷ ys) ≡ take n (c_str xs)
unfolding c_str
c_str_cut zero xs ys = refl
c_str_cut (suc n) [] ys = refl
c_str_cut (suc n) (zero ∷ xs) ys = refl
c_str_cut (suc n) (suc b ∷ xs) ys =
    let nonzero : (suc b == 0) ≡ false = ground arith in
    rw (nonzero, nonzero) (ap (◌∷◌ (suc b)) (c_str_cut n xs ys))

-- On a buffer of one byte at least, `fetch_reject_reason` keeps its size, and the text in it is the
-- reason, cut to the room of the buffer.
pub fetch_reject_reason_lem :
    (g : Engine) (pol : Policy g) (buf : List ℕ)
    → 0 < length buf
    → (length (fetch_reject_reason g pol buf) ≡ length buf)
      × (c_str (fetch_reject_reason g pol buf) ≡ take (length buf - 1) (reject_reason g pol))
unfolding fetch_reject_reason reject_reason
fetch_reject_reason_lem g pol buf h =
    let text = c_str pol.last_reason in
    let n = if leb (length buf) (length text) then length buf - 1 else length text in
    (
      ground (
        arith,
        length-append (take n text) (0 ∷ drop (n + 1) buf),
        length-take n text,
        length-drop (n + 1) buf,
      ),
      c_str_cut n pol.last_reason (drop (n + 1) buf)
          ∙ ground
              (arith, take_all (length text) text (omega arith), take_all (length buf - 1) text),
    )
