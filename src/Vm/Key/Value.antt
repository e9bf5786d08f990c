-- ===== src/Vm/Key/Value.antt =====
-- An instance of `Keys`: keys whose equality is structural or by identity, namely integers, runes, booleans, the two
-- kinds of strings, errors, null, enumeration values, actors, named values of these, and objects that are compared by
-- their address. On these kinds the two functions compute what `mapKeyEquals` and `mapHashValue` do. They are no
-- model of these functions as a whole, which know floats, decimals, big integers and variants too: for a float that
-- equals an integer the hashes differ.
use gengo.Prelude.{ℕ, ◌+◌, ◌*◌, ◌%◌, ◌^◌, arith, ◌≡◌, refl, sym, ◌∙◌, ap}
use Prim.Native.Nat.{bit_xor}
use gengo.Prelude.{Bool, true, false, ◌&&◌, List, [], ◌∷◌, ◌==◌, if◌then◌else◌}
use gengo.Prelude.{==-refl}
use gengo.Prelude.Text.{bytes_eq, bytes_eq_refl, bytes_eq→eq}
use gengo.Vm.Key.{Keys}

-- An `int` is given by its 64 bits, a type and an object by its address.
pub data Value : Type 0 where
  int rune : ℕ → Value
  boolean : Bool → Value
  string dyn_string error_value : List ℕ → Value
  null : Value
  enum_value actor_ref : ℕ → ℕ → Value
  named_value : ℕ → Value → Value
  object : ℕ → Value

bool_eq : Bool → Bool → Bool
bool_eq true b = b
bool_eq false true = false
bool_eq false false = true

unfoldable pub plain_equals : Value → Value → Bool
unfolding bool_eq
plain_equals (int x) (int y) = x == y
plain_equals (rune x) (rune y) = x == y
plain_equals (boolean x) (boolean y) = bool_eq x y
plain_equals (string s) (string t) = bytes_eq s t
plain_equals (string s) (dyn_string t) = bytes_eq s t
plain_equals (dyn_string s) (string t) = bytes_eq s t
plain_equals (dyn_string s) (dyn_string t) = bytes_eq s t
plain_equals (error_value s) (error_value t) = bytes_eq s t
plain_equals null null = true
plain_equals (enum_value t n) (enum_value u m) = t == u && n == m
plain_equals (actor_ref i g) (actor_ref j h) = i == j && g == h
plain_equals (named_value t v) (named_value u w) = let inner = plain_equals v w in t == u && inner
plain_equals (object p) (object q) = p == q
plain_equals _ _ = false

unfoldable hash_bytes_from : ℕ → List ℕ → ℕ
hash_bytes_from h [] = h
hash_bytes_from h (b ∷ bs) = hash_bytes_from (bit_xor h b * 1099511628211 % 2 ^ 64) bs

-- FNV-1a over 64 bits
abbrev hash_bytes : List ℕ → ℕ
hash_bytes bs = hash_bytes_from 1469598103934665603 bs

unfoldable hash_mix64 : ℕ → ℕ → ℕ
hash_mix64 a b = (a * 0x9e3779b97f4a7c15 % 2 ^ 64 + b) % 2 ^ 64

unfoldable pub plain_hash : Value → ℕ
unfolding hash_bytes_from hash_mix64
plain_hash (int n) = n
plain_hash (rune r) = r * 11400714819323198485 % 2 ^ 64
plain_hash (boolean b) = if b then 0x9e3779b97f4a7c15 else 0x94d049bb133111eb
plain_hash (string s) = hash_bytes s
plain_hash (dyn_string s) = hash_bytes s
plain_hash (error_value s) = hash_bytes s
plain_hash null = 0xcbf29ce484222325
plain_hash (enum_value t n) = hash_mix64 t n
plain_hash (actor_ref i g) = hash_mix64 i g
plain_hash (named_value t v) = hash_mix64 t (plain_hash v)
plain_hash (object p) = p

-- The value with its strings in one representation.
unfoldable pub content : Value → Value
content (dyn_string s) = string s
content (named_value t v) = named_value t (content v)
content v = v

pub equals→content : (a b : Value) → plain_equals a b ≡ true → content a ≡ content b
unfolding plain_equals bool_eq content
equals→content (int x) (int y) h = ground arith
equals→content (rune x) (rune y) h = ground arith
equals→content (boolean true) (boolean true) h = refl
equals→content (boolean true) (boolean false) h = absurd (ground arith)
equals→content (boolean false) (boolean true) h = absurd (ground arith)
equals→content (boolean false) (boolean false) h = refl
equals→content (string s) (string t) h = ap string (bytes_eq→eq s t h)
equals→content (string s) (dyn_string t) h = ap string (bytes_eq→eq s t h)
equals→content (dyn_string s) (string t) h = ap string (bytes_eq→eq s t h)
equals→content (dyn_string s) (dyn_string t) h = ap string (bytes_eq→eq s t h)
equals→content (error_value s) (error_value t) h = ap error_value (bytes_eq→eq s t h)
equals→content null null h = refl
equals→content (enum_value t n) (enum_value u m) h = ground arith
equals→content (actor_ref i g) (actor_ref j k) h = ground arith
equals→content (named_value t v) (named_value u w) h = ground (arith, equals→content v w)
equals→content (object p) (object q) h = ground arith
equals→content _ _ h = absurd (ground arith)

equals_content_left : (a b : Value) → plain_equals a b ≡ plain_equals (content a) b
unfolding plain_equals content
equals_content_left (dyn_string s) (string t) = refl
equals_content_left (dyn_string s) (dyn_string t) = refl
equals_content_left (named_value t v) (named_value u w) = rw (equals_content_left v w) refl
equals_content_left _ _ = refl

equals_dyn_string :
    (a : Value) (t : List ℕ) → plain_equals a (dyn_string t) ≡ plain_equals a (string t)
unfolding plain_equals
equals_dyn_string (string s) t = refl
equals_dyn_string _ t = refl

equals_content_right : (a b : Value) → plain_equals a b ≡ plain_equals a (content b)
unfolding content plain_equals
equals_content_right a (dyn_string t) = equals_dyn_string a t
equals_content_right a (named_value u w) = in_named a (λ v. equals_content_right v w)
  where
    in_named :
        (v : Value)
        → ((x : Value) → plain_equals x w ≡ plain_equals x (content w))
        → plain_equals v (named_value u w) ≡ plain_equals v (named_value u (content w))
    in_named (named_value t v) inner = rw (inner v) refl
    in_named _ inner = refl
equals_content_right a _ = refl

pub equals_refl_lem : (a : Value) → plain_equals a a ≡ true
unfolding plain_equals bool_eq
equals_refl_lem (int x) = ==-refl x
equals_refl_lem (rune x) = ==-refl x
equals_refl_lem (boolean true) = refl
equals_refl_lem (boolean false) = refl
equals_refl_lem (string s) = bytes_eq_refl s
equals_refl_lem (dyn_string s) = bytes_eq_refl s
equals_refl_lem (error_value s) = bytes_eq_refl s
equals_refl_lem null = refl
equals_refl_lem (enum_value t n) = ground arith
equals_refl_lem (actor_ref i g) = ground arith
equals_refl_lem (named_value t v) = ground (arith, equals_refl_lem v)
equals_refl_lem (object p) = ==-refl p

pub content→equals : (a b : Value) → content a ≡ content b → plain_equals a b ≡ true
content→equals a b same =
    equals_content_left a b
    ∙ equals_content_right (content a) b
    ∙ ap (λ c. plain_equals c (content b)) same
    ∙ equals_refl_lem (content b)

equals_flip : (a b : Value) → plain_equals a b ≡ true → plain_equals b a ≡ true
equals_flip a b h = content→equals b a (sym (equals→content a b h))

pub equals_symm_lem : (a b : Value) → plain_equals a b ≡ plain_equals b a
equals_symm_lem a b = ground (arith, equals_flip a b, equals_flip b a)

pub hash_content : (a : Value) → plain_hash a ≡ plain_hash (content a)
unfolding plain_hash content
hash_content (named_value t v) = ap (hash_mix64 t) (hash_content v)
hash_content _ = refl

-- Among these keys, those that are equal hash alike, strings of the two representations included.
pub plain_hash-plain_equals : (a b : Value) → plain_equals a b ≡ true → plain_hash a ≡ plain_hash b
plain_hash-plain_equals a b h =
    hash_content a ∙ ap plain_hash (equals→content a b h) ∙ sym (hash_content b)

-- On these values the equality is an equivalence and equal keys hash alike.
instance abbrev pub value_keys : Keys Value
value_keys = record {
  equals = plain_equals;
  hash = plain_hash;
  equals_refl = equals_refl_lem;
  equals_symm = equals_symm_lem;
  equals_trans = λ a b c h k. content→equals a c (equals→content a b h ∙ equals→content b c k);
  hash-equals = plain_hash-plain_equals;
}
