-- ===== src/Login/Stored.antt =====
-- A password that is stored is read back by its comparison.
use scam_screener_api.Base.{
  ℕ, ◌+◌, ◌*◌, ◌/◌, ◌%◌, ◌<◌, ◌≡◌, refl, ap, ◌∙◌, Str, codes, str_beq, str_eq, false, ◌&&◌, ◌||◌,
  none, some, [], ◌∷◌, ◌++◌, All, leb, ◌==◌, arith,
}
use scam_screener_api.Base.Int.{pos}
use scam_screener_api.Login.Passwords.{
  Hashing, iterations, dollar, algorithm, hex_digit, hex, hex_value, hex_step, emit, read_hex,
  fromhex, prefixed, split, hash_password, compare, check_digest, check_parts, verify_password,
}

abbrev pub IsByte : ℕ → Type 0
IsByte b = b < 256

hex_value-digit : (n : ℕ) → n < 16 → hex_value (hex_digit n) ≡ some n
unfolding hex_value hex_digit
hex_value-digit n h = ground arith

hex_digit_plain :
    (n : ℕ) → n < 16 → (leb 9 (hex_digit n) && leb (hex_digit n) 13 || hex_digit n == 32) ≡ false
unfolding hex_digit
hex_digit_plain n h = ground arith

hex_digit-dollar : (n : ℕ) → n < 16 → (hex_digit n == dollar) ≡ false
unfolding hex_digit
hex_digit-dollar n h = ground arith

hex_step-first : (n : ℕ) → n < 16 → hex_step none (hex_digit n) ≡ some (some n, none)
unfolding hex_step
hex_step-first n h = rw (hex_digit_plain n h, hex_value-digit n h) refl

hex_step-second :
    (n m : ℕ) → m < 16 → hex_step (some n) (hex_digit m) ≡ some (none, some (n * 16 + m))
unfolding hex_step
hex_step-second n m h = rw (hex_step, hex_value-digit m h) refl

read_hex_pair :
    (n m : ℕ) (s : Str)
    → n < 16
    → m < 16
    → read_hex none (hex_digit n ∷ hex_digit m ∷ s) ≡ emit (some (n * 16 + m)) (read_hex none s)
unfolding read_hex
read_hex_pair n m s h h' =
    rw (read_hex, hex_step-first n h) (rw (read_hex, hex_step-second n m h') refl)

pub fromhex-hex : (bytes : Str) → All IsByte bytes → fromhex (hex bytes) ≡ some bytes
unfolding fromhex hex emit
fromhex-hex [] h = unfold read_hex in refl
fromhex-hex (b ∷ bytes) (small, h) =
    read_hex_pair (b / 16) (b % 16) (hex bytes) (omega arith) (omega arith)
    ∙ ap (emit (some (b / 16 * 16 + b % 16))) (fromhex-hex bytes h)
    ∙ ap (λ c. some (c ∷ bytes)) (omega arith)

abbrev HasNoDollar : Str → Type 0
HasNoDollar s = All (λ c. (c == dollar) ≡ false) s

hex-HasNoDollar : (bytes : Str) → All IsByte bytes → HasNoDollar (hex bytes)
unfolding hex
hex-HasNoDollar [] h = tt
hex-HasNoDollar (b ∷ bytes) (small, h) = (
  hex_digit-dollar (b / 16) (omega arith),
  (hex_digit-dollar (b % 16) (omega arith), hex-HasNoDollar bytes h),
)

split_last : (s : Str) → HasNoDollar s → split s ≡ s ∷ []
unfolding split prefixed
split_last [] h = refl
split_last (c ∷ s) (plain, h) = rw (plain, split_last s h) refl

split-append : (s rest : Str) → HasNoDollar s → split (s ++ dollar ∷ rest) ≡ s ∷ split rest
unfolding split prefixed
split-append [] rest h = refl
split-append (c ∷ s) rest (plain, h) = rw (plain, split-append s rest h) refl

-- A password is compared with a stored one by its derived key: the password that was stored is
-- accepted, and another one just if its key is the same.
pub verify-hash_password :
    (hashing : Hashing) (salt password submitted : Str)
    → All IsByte salt
    → All IsByte (hashing.pbkdf2_hmac password salt iterations)
    → hashing.int (codes "210000") ≡ some (pos 210_000)
    → verify_password hashing submitted (hash_password hashing salt password)
      ≡ some (
          str_beq
            (hashing.pbkdf2_hmac submitted salt iterations)
            (hashing.pbkdf2_hmac password salt iterations))
unfolding verify_password hash_password check_parts check_digest compare
verify-hash_password hashing salt password submitted s d reads =
    rw
      (
        split-append algorithm _ (
          refl,
          (
            refl,
            (
              refl,
              (refl, (refl, (refl, (refl, (refl, (refl, (refl, (refl, (refl, (refl, tt)))))))))),
            ),
          ),
        ),
        split-append (codes "210000")
            (hex salt ++ dollar ∷ hex (hashing.pbkdf2_hmac password salt iterations))
            (refl, (refl, (refl, (refl, (refl, (refl, tt)))))),
        split-append (hex salt) (hex (hashing.pbkdf2_hmac password salt iterations))
            (hex-HasNoDollar salt s),
        split_last (hex (hashing.pbkdf2_hmac password salt iterations)) (hex-HasNoDollar _ d),
        reads,
        fromhex-hex salt s,
        fromhex-hex (hashing.pbkdf2_hmac password salt iterations) d,
      )
      (unfold str_beq in refl)
