-- ===== src/DbUrl.antt =====
-- The URL of a database (src/db_url.cpp), as bytes. The byte behind the end of a text is the NUL that
-- ends it; a text is read no further, which is none here.
pub mod Escape
pub mod Parse
mod Tests
use kitchen_sync.Common.{
  ℕ, zero, suc, ◌+◌, ◌-◌, ◌*◌, ◌≡◌, Bool, true, false, ◌&&◌, ◌||◌, Option, none, some, List, [],
  ◌∷◌, ◌++◌, ◌==◌, leb, length, drop, if◌then◌else◌, ◌>>=◌,
}

-- None for -1.
unfoldable pub from_hex : ℕ → Option ℕ
from_hex ch =
    if leb b'0' ch && leb ch b'9'
    then some (ch - b'0')
    else if leb b'a' ch && leb ch b'f'
    then some (ch - b'a' + 10)
    else if leb b'A' ch && leb ch b'F'
    then some (ch - b'A' + 10)
    else none

abbrev pub percent : ℕ
percent = b'%'

abbrev after_digit : Option ℕ → Option (List ℕ) → (ℕ → Option (List ℕ)) → Option (List ℕ)
after_digit none copied second = copied
after_digit (some digit1) copied second = second digit1

abbrev after_digits : Option ℕ → ℕ → ℕ → Option (List ℕ) → Option (List ℕ) → Option (List ℕ)
after_digits none digit1 ch1 copied decoded = do rest ← copied; some (percent ∷ ch1 ∷ rest)
after_digits (some digit2) digit1 ch1 copied decoded = do
  rest ← decoded
  some ((digit1 * 16 + digit2) ∷ rest)

unfoldable mutual
  pub urldecode : List ℕ → Option (List ℕ)
  urldecode [] = some []
  urldecode (ch ∷ str) =
      let escaped = decode_escape str in
      let plain = urldecode str >>= λ rest. some (ch ∷ rest) in
      if ch == percent then escaped else plain

  -- What follows a percent sign.
  pub decode_escape : List ℕ → Option (List ℕ)
  decode_escape [] = none
  decode_escape (ch1 ∷ str) =
      let copied = urldecode str >>= λ rest. some (percent ∷ ch1 ∷ rest) in
      let second = λ (digit1 : ℕ). decode_second digit1 ch1 str in
      after_digit (from_hex ch1) copied second

  -- What follows a first digit; the byte at the end is NUL, which is no digit.
  pub decode_second : ℕ → ℕ → List ℕ → Option (List ℕ)
  decode_second digit1 ch1 [] = some (percent ∷ ch1 ∷ [])
  decode_second digit1 ch1 (ch2 ∷ str) =
      let escaped = decode_escape str in
      let plain = urldecode str >>= λ rest. some (ch2 ∷ rest) in
      let copied = if ch2 == percent then escaped else plain in
      let decoded = urldecode str in after_digits (from_hex ch2) digit1 ch1 copied decoded

abbrev is_prefix : List ℕ → List ℕ → Bool
is_prefix [] str = true
is_prefix (s ∷ separator) [] = false
is_prefix (s ∷ separator) (c ∷ str) = s == c && is_prefix separator str

-- The text before and behind the first place where the separator is.
pub find_pair : List ℕ → List ℕ → Option (List ℕ × List ℕ)
find_pair separator [] = if is_prefix separator [] then some ([], []) else none
find_pair separator (c ∷ str) =
    let later = find_pair separator str >>= λ (p : List ℕ × List ℕ). some (c ∷ p.0, p.1) in
    if is_prefix separator (c ∷ str) then some ([], drop (length separator) (c ∷ str)) else later

-- Which side a text without the separator is; without one it is an error.
pub data Side : Type 0 where
  left right neither : Side

abbrev whole_on : Side → List ℕ → Option (List ℕ × List ℕ)
whole_on left str = some (str, [])
whole_on right str = some ([], str)
whole_on neither str = none

abbrev found_or : Option (List ℕ × List ℕ) → Option (List ℕ × List ℕ) → Option (List ℕ × List ℕ)
found_or whole none = whole
found_or whole (some p) = some p

pub split_pair : List ℕ → List ℕ → Side → Option (List ℕ × List ℕ)
unfolding find_pair
split_pair str separator side = found_or (whole_on side str) (find_pair separator str)

abbrev bracketed : List ℕ × List ℕ → Option (List ℕ × List ℕ)
bracketed (host, []) = some (drop 1 host, [])
bracketed (host, c ∷ port) = if c == b':' then some (drop 1 host, port) else none

pub separate_bracketed_host_and_port : List ℕ → Option (List ℕ × List ℕ)
unfolding find_pair
separate_bracketed_host_and_port str = find_pair (b']' ∷ []) str >>= bracketed

pub record DatabaseUrl : Type 0 where
  pub protocol : List ℕ
  pub username : List ℕ
  pub password : List ℕ
  pub host : List ℕ
  pub port : List ℕ
  pub database : List ℕ
  pub schema : List ℕ

abbrev starts_with_bracket : List ℕ → Bool
starts_with_bracket [] = false
starts_with_bracket (c ∷ str) = c == b'['

pub split_host_and_port : List ℕ → Option (List ℕ × List ℕ)
unfolding split_pair separate_bracketed_host_and_port
split_host_and_port str =
    if starts_with_bracket str
    then separate_bracketed_host_and_port str
    else split_pair str (b':' ∷ []) left

-- None where the code throws invalid_argument, or reads behind an escape.
pub parse_url : List ℕ → Option DatabaseUrl
unfolding split_pair split_host_and_port
parse_url url = do
  protocol_and_rest ← split_pair url (b':' ∷ b'/' ∷ b'/' ∷ []) neither
  login_and_database ← split_pair protocol_and_rest.1 (b'/' ∷ []) neither
  login_and_host ← split_pair login_and_database.0 (b'@' ∷ []) right
  username_password ← split_pair login_and_host.0 (b':' ∷ []) left
  host_port ← split_host_and_port login_and_host.1
  database_and_schema ← split_pair login_and_database.1 (b'/' ∷ []) left
  protocol ← urldecode protocol_and_rest.0
  username ← urldecode username_password.0
  password ← urldecode username_password.1
  host ← urldecode host_port.0
  port ← urldecode host_port.1
  database ← urldecode database_and_schema.0
  schema ← urldecode database_and_schema.1
  some record {
    protocol = protocol;
    username = username;
    password = password;
    host = host;
    port = port;
    database = database;
    schema = schema;
  }
