-- ===== src/Mfa/Totp.antt =====
-- app/training_hub/core/mfa.py: the codes of an authenticator app. Base 32, HMAC-SHA-1, Fernet and
-- `str.upper` are arguments; bytes are numbers below 256, and a time is a number of seconds.
use scam_screener_api.Base.{
  ℕ, zero, suc, ◌+◌, ◌-◌, ◌*◌, ◌/◌, ◌%◌, Str, str_beq, Bool, true, false, not, ◌&&◌, ◌||◌, Option,
  none, some, [], ◌∷◌, ◌++◌, map, select, take, drop, length, leb, ltb, if◌then◌else◌, ◌==◌,
}
use scam_screener_api.Base.Text.{strip, is_space}
use scam_screener_api.ItemKeys.{digits}
use scam_screener_api.Sessions.{is_filled}

-- `base64.b32decode` and the decryption of a text by the secret key, which are `none` where they
-- raise, `hmac.new(..., hashlib.sha1)` of a key and a message, and `str.upper`.
pub record Codes : Type 0 where
  pub b32decode : Str → Option Str
  pub decrypt_value : Str → Str → Option Str
  pub hmac_sha1 : Str → Str → Str
  pub upper : Str → Str

abbrev pub totp_period_seconds : ℕ
totp_period_seconds = 30

unfoldable pub is_digit : ℕ → Bool
is_digit c = leb b'0' c && leb c b'9'

unfoldable pub all_digits : Str → Bool
unfolding is_digit
all_digits [] = true
all_digits (c ∷ s) = is_digit c && all_digits s

-- `_normalize_totp_code`
unfoldable pub normalize_totp_code : Str → Str
unfolding strip is_space all_digits
normalize_totp_code code =
    let normalized = select (λ c. not (is_space c)) (strip code) in
    if all_digits normalized && length normalized == 6 then normalized else []

unfoldable pub is_alphanumeric : ℕ → Bool
unfolding is_digit
is_alphanumeric c = is_digit c || ((leb b'a' c && leb c b'z') || (leb b'A' c && leb c b'Z'))

unfoldable pub upper_letter : ℕ → ℕ
upper_letter c = if leb b'a' c && leb c b'z' then c - 32 else c

-- `_normalize_backup_code`
unfoldable pub normalize_backup_code : Str → Str
unfolding strip is_alphanumeric upper_letter
normalize_backup_code code =
    let normalized = map upper_letter (select is_alphanumeric (strip code)) in
    if ltb (length normalized) 6 then [] else normalized

-- `[A-Z2-7]`
unfoldable pub is_base32 : ℕ → Bool
is_base32 c = (leb b'A' c && leb c b'Z') || (leb b'2' c && leb c b'7')

unfoldable pub repeated : ℕ → ℕ → Str
repeated zero c = []
repeated (suc n) c = c ∷ repeated n c

-- `counter.to_bytes(8, byteorder="big")`, from the last byte on; larger counters are not reached.
unfoldable pub counter_bytes : ℕ → ℕ → Str → Str
counter_bytes zero counter bytes = bytes
counter_bytes (suc n) counter bytes = counter_bytes n (counter / 256) (counter % 256 ∷ bytes)

-- `digest[-1]`; a digest is not empty.
unfoldable pub last_byte : Str → ℕ
last_byte [] = 0
last_byte (b ∷ []) = b
last_byte (b ∷ c ∷ bytes) = last_byte (c ∷ bytes)

-- `int.from_bytes(..., byteorder="big")`, from what has been read.
unfoldable pub from_bytes : ℕ → Str → ℕ
from_bytes n [] = n
from_bytes n (b ∷ bytes) = from_bytes (n * 256 + b) bytes

-- `s.zfill(6)` of digits.
unfoldable pub zfill : Str → Str
unfolding repeated
zfill s = repeated (6 - length s) b'0' ++ s

-- `digest[-1] & 0x0F`, the four bytes there, and their last six digits.
unfoldable pub code_of : Str → Str
unfolding last_byte from_bytes zfill digits
code_of digest =
    let offset = last_byte digest % 16 in
    let code = from_bytes 0 (take 4 (drop offset digest)) % 2147483648 % 1000000 in
    zfill (digits (code + 1) code)

module _ (codes : Codes) where
  -- `_base32_decode`
  unfoldable pub base32_decode : Str → Option Str
  unfolding strip is_base32 repeated
  base32_decode secret =
      let normalized = select is_base32 (codes.upper (strip secret)) in
      if is_filled normalized
      then codes.b32decode (normalized ++ repeated ((8 - length normalized % 8) % 8) b'=')
      else none

  unfoldable pub totp_of : Option Str → ℕ → Option Str
  unfolding code_of counter_bytes
  totp_of none counter = none
  totp_of (some key) counter = some (code_of (codes.hmac_sha1 key (counter_bytes 8 counter [])))

  -- `_totp_at`
  unfoldable pub totp_at : Str → ℕ → Option Str
  unfolding base32_decode totp_of
  totp_at secret timestamp = totp_of (base32_decode secret) (timestamp / totp_period_seconds)

  -- The loop over the steps, from one step on and with the rounds that are left; a step before the
  -- epoch raises.
  unfoldable pub first_step : Str → Str → ℕ → ℕ → ℕ → ℕ → Option Bool
  unfolding totp_at
  first_step secret normalized_code timestamp skew zero step = some false
  first_step secret normalized_code timestamp skew (suc rounds) step =
      let rest = first_step secret normalized_code timestamp skew rounds (step + 1) in
      let instant = timestamp + step * totp_period_seconds in
      if ltb instant (skew * totp_period_seconds)
      then none
      else elim (totp_at secret (instant - skew * totp_period_seconds)) [
        | none ↦ none
        | some code ↦ if str_beq code normalized_code then some true else rest
      ]

  -- `_verify_totp_secret`; `none` where it raises.
  unfoldable pub verify_totp_secret : Str → Str → ℕ → ℕ → Option Bool
  unfolding normalize_totp_code first_step
  verify_totp_secret secret submitted_code timestamp skew_steps =
      let normalized_code = normalize_totp_code submitted_code in
      if is_filled normalized_code
      then first_step secret normalized_code timestamp skew_steps (skew_steps * 2 + 1) 0
      else some false
