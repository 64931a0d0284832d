-- ===== src/Base/Instants.antt =====
-- The times of the training hub: `datetime.now(timezone.utc)` as microseconds, and the order of
-- the texts that `isoformat().replace("+00:00", "Z")` makes of them, which is what SQL compares.
use scam_screener_api.Base.{
  ℕ, ◌+◌, ◌*◌, ◌%◌, ◌<◌, ◌≤◌, ◌≡◌, Bool, true, ltb, ◌==◌, if◌then◌else◌, arith,
}

abbrev pub Instant : Type 0
Instant = ℕ

-- `timedelta(minutes=n)`
abbrev pub minutes : ℕ → ℕ
minutes n = n * 60000000

-- `isoformat` leaves the fraction out where it is zero, so of the texts of one second the one
-- without a fraction is the greatest: `Z` comes after the point. All other digits compare as the
-- times do, for years of four digits.
unfoldable pub text_order : Instant → ℕ
text_order t = if t % 1000000 == 0 then t + 1000000 else t

-- `a < b` for the texts of two times.
unfoldable pub iso_ltb : Instant → Instant → Bool
unfolding text_order
iso_ltb a b = ltb (text_order a) (text_order b)

-- A text that is less belongs to a time that is less than a second later.
pub iso_ltb-slack : (a b : Instant) → iso_ltb a b ≡ true → a < b + 1000000
unfolding iso_ltb
iso_ltb-slack a b h = ground arith

pub lt-iso_ltb : (a b : Instant) → a + 1000000 ≤ b → iso_ltb a b ≡ true
unfolding iso_ltb
lt-iso_ltb a b h = ground arith
