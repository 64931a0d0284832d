-- ===== src/Login/Passwords.antt =====
-- app/training_hub/core/session_auth_password.py: how a password is stored and compared. The key
-- derivation of `hashlib` and the reading of `int` are arguments; bytes are numbers below 256.
use scam_screener_api.Base.{
  ℕ, ◌+◌, ◌-◌, ◌*◌, ◌/◌, ◌%◌, Str, codes, str_beq, str_eq, Bool, false, not, ◌&&◌, ◌||◌, Option,
  none, some, List, [], ◌∷◌, ◌++◌, length, leb, ltb, if◌then◌else◌, ◌==◌,
}
use scam_screener_api.Base.Int.{ℤ, pos, negsuc}

-- `hashlib.pbkdf2_hmac("sha256", ...)` of a password, a salt and a number of rounds, and `int` of a
-- text, which is `none` where that raises a ValueError.
pub record Hashing : Type 0 where
  pub pbkdf2_hmac : Str → Str → ℕ → Str
  pub int : Str → Option ℤ

abbrev pub algorithm : Str
algorithm = codes "pbkdf2_sha256"

abbrev pub iterations : ℕ
iterations = 210_000

abbrev pub dollar : ℕ
dollar = b'$'

unfoldable pub hex_digit : ℕ → ℕ
hex_digit n = if ltb n 10 then b'0' + n else b'a' + (n - 10)

-- `bytes.hex`
unfoldable pub hex : Str → Str
unfolding hex_digit
hex [] = []
hex (b ∷ bytes) = hex_digit (b / 16) ∷ hex_digit (b % 16) ∷ hex bytes

unfoldable pub hex_value : ℕ → Option ℕ
hex_value c =
    if leb b'0' c && leb c b'9'
    then some (c - b'0')
    else if leb b'a' c && leb c b'f'
    then some (c - b'a' + 10)
    else if leb b'A' c && leb c b'F'
    then some (c - b'A' + 10)
    else none

-- A character of `bytes.fromhex`, behind the first digit of a byte or not: the digit that waits and
-- the byte that is read. Blanks may stand between bytes.
unfoldable pub hex_step : Option ℕ → ℕ → Option (Option ℕ × Option ℕ)
unfolding hex_value
hex_step none c =
    if leb 9 c && leb c 13 || c == 32
    then some (none, none)
    else elim (hex_value c) [ none ↦ none | some n ↦ some (some n, none) ]
hex_step (some n) c = elim (hex_value c) [ none ↦ none | some m ↦ some (none, some (n * 16 + m)) ]

unfoldable pub emit : Option ℕ → Option Str → Option Str
emit none rest = rest
emit (some byte) none = none
emit (some byte) (some bytes) = some (byte ∷ bytes)

unfoldable pub read_hex : Option ℕ → Str → Option Str
unfolding hex_step emit
read_hex none [] = some []
read_hex (some n) [] = none
read_hex waiting (c ∷ s) = elim (hex_step waiting c) [
  | none ↦ none
  | some (waiting', byte) ↦ emit byte (read_hex waiting' s)
]

-- `bytes.fromhex`, which is `none` where it raises a ValueError.
unfoldable pub fromhex : Str → Option Str
unfolding read_hex
fromhex s = read_hex none s

unfoldable pub prefixed : ℕ → List Str → List Str
prefixed c [] = (c ∷ []) ∷ []
prefixed c (part ∷ parts) = (c ∷ part) ∷ parts

-- `s.split("$")`
unfoldable pub split : Str → List Str
unfolding prefixed
split [] = [] ∷ []
split (c ∷ s) = let rest = split s in if c == dollar then [] ∷ rest else prefixed c rest

module _ (hashing : Hashing) where
  -- `_hash_password`
  unfoldable pub hash_password : Str → Str → Str
  unfolding hex
  hash_password salt password =
      algorithm
      ++ dollar ∷ codes "210000"
      ++ dollar ∷ hex salt
      ++ dollar ∷ hex (hashing.pbkdf2_hmac password salt iterations)

  -- The key derivation raises for no round, and for more than fit in an `int` of C.
  unfoldable pub compare : Str → ℤ → Str → Str → Option Bool
  compare password (negsuc n) salt expected_digest = none
  compare password (pos n) salt expected_digest =
      if leb 1 n && leb n 2147483647
      then some (str_beq (hashing.pbkdf2_hmac password salt n) expected_digest)
      else none

  unfoldable pub check_digest : Str → Option ℤ → Option Str → Option Str → Option Bool
  unfolding compare
  check_digest password (some n) (some salt) (some expected_digest) =
      compare password n salt expected_digest
  check_digest password _ _ _ = some false

  unfoldable pub check_parts : Str → List Str → Option Bool
  unfolding check_digest fromhex
  check_parts password (name ∷ rounds ∷ salt ∷ digest ∷ []) =
      if not (str_beq name algorithm)
      then some false
      else check_digest password (hashing.int rounds) (fromhex salt) (fromhex digest)
  check_parts password _ = some false

  -- `_verify_password`; `none` where the key derivation raises.
  unfoldable pub verify_password : Str → Str → Option Bool
  unfolding check_parts split
  verify_password password encoded = check_parts password (split encoded)

-- `_validate_password` of a text: the error, or an empty text.
unfoldable pub validate_password : Str → Str
validate_password password =
    if ltb (length password) 10
    then codes "Password must have at least 10 characters."
    else if ltb 128 (length password)
    then codes "Password must be at most 128 characters."
    else []
