-- ===== src/Tests/RateLimits.antt =====
-- The rate limiters on concrete calls.
use scam_screener_api.Base.{
  str_beq, ◌≡◌, refl, min, Str, codes, true, List, [], ◌∷◌, arith, str_eq, nat_eq, pair_eq,
}
use scam_screener_api.Base.Int.{pos, pos_part}
use scam_screener_api.Base.Dict.{lookup, insert}
use scam_screener_api.RateLimit.{bucket_start, safe_window, retry_after, stale_before}
use scam_screener_api.RateLimit.Memory
use scam_screener_api.RateLimit.Memory.{bucket_count, answer_iff_below}
use scam_screener_api.RateLimit.Quota.{Call, asked, granted, is_in, granted_exactly}
use scam_screener_api.RateLimit.Database
use scam_screener_api.RateLimit.Database.{
  Others, sqlite, mariadb, allow_mariadb, attempts, attempt, update_row, no_update, after_select,
  insert_row, not_stale,
}
use scam_screener_api.RateLimit.Agreement.{counts, counts_of, quiet, allow-sqlite-agrees}
use scam_screener_api.RateLimit.Races.{IsWithin, granted-IsWithin}

abbrev ip : Str
ip = codes "ip:1"

abbrev burst : List Call
burst = (600, ip) ∷ (601, codes "ip:2") ∷ (602, ip) ∷ (659, ip) ∷ (660, ip) ∷ []

granted_exactly_example :
    granted (pos 2) (pos 60) ip 600 burst []
    ≡ min (asked (pos 2) (pos 60) ip 600 burst) (pos_part (pos 2))
granted_exactly_example = granted_exactly (pos 2) (pos 60) ip 600 burst (omega arith)

third_refused : granted (pos 2) (pos 60) ip 600 burst [] ≡ 2
unfolding granted is_in Memory.allow Memory.charge Memory.stored_count Memory.fresh lookup insert
    safe_window bucket_start retry_after stale_before str_beq
third_refused = refl

allow-sqlite-agrees_example :
    Memory.allow 605 ip (pos 2) (pos 60) (counts [])
    ≡ counts_of (Database.allow sqlite 605 ip (pos 2) (pos 60) [])
allow-sqlite-agrees_example = allow-sqlite-agrees 605 ip (pos 2) (pos 60) [] (omega arith)

-- Another connection takes the first place of the window before the INSERT.
abbrev racing : Others
racing = record quiet { before_insert = insert (ip, 600) (record { count = 1; updated_at = 605 }) }

-- The first attempt meets the duplicate key, the second finds the row and adds to it.
raced : (Database.allow (mariadb racing quiet quiet) 605 ip (pos 2) (pos 60) []).0.0 ≡ true
unfolding Database.allow allow_mariadb attempts attempt update_row no_update after_select insert_row
    not_stale lookup insert safe_window bucket_start retry_after stale_before str_beq
raced = refl

granted-IsWithin_example :
    IsWithin
      (ip, bucket_start 605 (safe_window (pos 60)))
      (pos 2)
      (Database.allow (mariadb racing quiet quiet) 605 ip (pos 2) (pos 60) []).1
granted-IsWithin_example =
    granted-IsWithin racing quiet quiet 605 ip (pos 2) (pos 60) [] (omega arith) raced
