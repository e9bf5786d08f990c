-- ===== src/Stdio.antt =====
-- The stdio calls of the C hosts, over lists of bytes. `stdin` is the list of bytes that are still
-- to come; a read error counts as the end of it. `stdout` takes `room` more bytes and then fails.
pub mod Laws
use gengo.Prelude.{
  Option, none, some, ℕ, ◌-◌, List, [], ◌++◌, Bool, true, false, not, leb, if◌then◌else◌, length,
  take,
}

pub record Sink : Type 0 where
  pub written : List ℕ
  pub room : ℕ
  pub failed : Bool

-- A writer answers whether it wrote everything.
abbrev pub Writer : Type 0
Writer = Sink → Bool × Sink

-- fwrite(bytes, 1, n, stdout) == n; a short write puts out what still fits.
pub fwrite : List ℕ → Writer
fwrite bytes s =
    if leb (length bytes) s.room
    then (true, record s { written = s.written ++ bytes; room = s.room - length bytes })
    else (false, record { written = s.written ++ take s.room bytes; room = 0; failed = true })

-- fflush(stdout) == 0
pub fflush : Writer
fflush s = (not s.failed, s)

pub skip : Writer
skip s = (true, s)

-- `if (!a) return 0; b`
abbrev continue : Bool → Writer → Writer
continue true k s = k s
continue false k s = (false, s)

infixl 5 ◌>>◌
unfoldable pub ◌>>◌ : Writer → Writer → Writer
◌>>◌ m k s = let (done, s') = m s in continue done k s'

-- fread(buf, 1, n, f): at most `n` bytes of what the file holds.
pub fread : ℕ → List ℕ → List ℕ
fread n bytes = take n bytes

-- What the script file is when a host opens it: missing, or its bytes, and whether `malloc`
-- gives the buffer.
pub record ScriptFile : Type 0 where
  pub content : Option (List ℕ)
  pub memory : Bool

-- `read_file` of the hosts: the whole file, behind the checks of `fopen` and `malloc`.
unfoldable pub read_file : ScriptFile → Option (List ℕ)
read_file file = if file.memory then file.content else none
