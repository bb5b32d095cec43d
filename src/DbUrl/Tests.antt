-- ===== src/DbUrl/Tests.antt =====
-- A URL with a colon in its password.
use kitchen_sync.Common.{arith, ◌≡◌, refl, none, some, [], ◌∷◌}
use kitchen_sync.DbUrl.{from_hex, DatabaseUrl, parse_url, urldecode}
use kitchen_sync.DbUrl.Parse.{format_url, parse_url-format_url}

abbrev local_url : DatabaseUrl
local_url = record {
  protocol = b'm' ∷ b'y' ∷ [];
  username = b'u' ∷ [];
  password = b'p' ∷ b':' ∷ b'%' ∷ [];
  host = b'h' ∷ [];
  port = b'1' ∷ [];
  database = b'd' ∷ b'b' ∷ [];
  schema = [];
}

parse_url-format_url_example : parse_url (format_url local_url) ≡ some local_url
parse_url-format_url_example = parse_url-format_url local_url record {
  protocol = (omega arith, (omega arith, tt));
  username = (omega arith, tt);
  password = (omega arith, (omega arith, (omega arith, tt)));
  host = (omega arith, tt);
  port = (omega arith, tt);
  database = (omega arith, (omega arith, tt));
  schema = tt;
}

-- A percent sign at the end is read past; one digit behind it is not.
last_percent : urldecode (b'a' ∷ b'%' ∷ []) ≡ none
unfolding urldecode
last_percent = refl

last_digit : urldecode (b'%' ∷ b'4' ∷ []) ≡ some (b'%' ∷ b'4' ∷ [])
unfolding urldecode from_hex
last_digit = refl
