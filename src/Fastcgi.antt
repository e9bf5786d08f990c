-- ===== src/Fastcgi.antt =====
-- examples/fastcgi-host/main.c: the constants, the record header, and the children, one for each
-- part of the program.
mod Tests
pub mod Reader
pub mod Main
pub mod RoundTrip
pub mod Server
pub mod Params
pub mod Stream
pub mod Writer
use gengo.Prelude.{ℕ, ◌+◌, ◌-◌, ◌%◌, ◌*◌, ◌^◌, ◌<◌, bit_or}

abbrev pub fcgi_version_1 : ℕ
fcgi_version_1 = 1

abbrev pub fcgi_begin_request : ℕ
fcgi_begin_request = 1

abbrev pub fcgi_end_request : ℕ
fcgi_end_request = 3

abbrev pub fcgi_params : ℕ
fcgi_params = 4

abbrev pub fcgi_stdin : ℕ
fcgi_stdin = 5

abbrev pub fcgi_stdout : ℕ
fcgi_stdout = 6

abbrev pub fcgi_stderr : ℕ
fcgi_stderr = 7

abbrev pub fcgi_responder : ℕ
fcgi_responder = 1

abbrev pub max_params : ℕ
max_params = 16384

abbrev pub max_body : ℕ
max_body = 65536

abbrev pub max_method : ℕ
max_method = 32

abbrev pub max_path : ℕ
max_path = 4096

abbrev pub max_query : ℕ
max_query = 4096

abbrev pub uint16_max : ℕ
uint16_max = 65535

abbrev pub IsByte : ℕ → Type 0
IsByte b = b < 256

abbrev pub IsU16 : ℕ → Type 0
IsU16 n = n < 2 ^ 16

pub record RecordHeader : Type 0 where
  pub type : ℕ
  pub request_id : ℕ
  pub content_len : ℕ
  pub padding_len : ℕ

-- ((uint16_t)hi << 8) | lo
pub be16 : ℕ → ℕ → ℕ
be16 hi lo = bit_or (hi * 2 ^ 8) lo % 2 ^ 16

-- (8 - (chunk % 8)) % 8
pub pad_len : ℕ → ℕ
pad_len chunk = (8 - chunk % 8) % 8
