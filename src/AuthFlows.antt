-- ===== src/AuthFlows.antt =====
-- app/training_hub/core/mfa.py: the table `auth_flow_tokens`, which carries a flow of several requests
-- from one to the next. The payload is JSON that is read as it was written, and of any type here.
pub mod Loaded
pub mod Calls
pub mod Attempts
use scam_screener_api.Base.{
  ℕ, ◌+◌, Str, codes, str_beq, str_eq, nat_eq, Bool, true, false, not, ◌&&◌, ◌||◌, Option, none,
  some, List, [], ◌∷◌, take, max, leb, if◌then◌else◌, ◌==◌,
}
use scam_screener_api.Base.Text.{strip}
use scam_screener_api.Base.Instants.{Instant, minutes, iso_ltb}
use scam_screener_api.Base.Sql.{Table, find_row, update_table}
use scam_screener_api.Base.Sql.Unique.{insert_unique}
use scam_screener_api.Sessions.{Hashes, is_filled, is_null, one_of}
use scam_screener_api.Sessions.Resolve.{normalize_user_agent_for_binding, mismatch}
use scam_screener_api.ExternalAuth.{Outcome, ok, refused}

-- A row of the table behind its id.
pub record AuthFlow (Payload : Type 0) : Type 0 where
  pub created_at : Instant
  pub user_id : ℕ
  pub flow_type : Str
  pub token_sha256 : Str
  pub payload : Payload
  pub expires_at : Instant
  pub consumed_at : Option Instant
  pub failed_attempts : ℕ
  pub source_ip : Str
  pub user_agent : Str

-- What `_load_auth_flow` returns where it is ok.
pub record LoadedFlow (Payload : Type 0) : Type 0 where
  pub id : ℕ
  pub user_id : ℕ
  pub flow_type : Str
  pub payload : Payload
  pub expires_at : Instant
  pub failed_attempts : ℕ

abbrev pub token_key : {Payload : Type 0} → AuthFlow Payload → Str
token_key f = f.token_sha256

-- `_mfa_hash`
unfoldable pub mfa_hash : Hashes → Str → Str → Str
mfa_hash hashes value secret_key =
    if is_filled secret_key then hashes.hmac_sha256 secret_key value else hashes.sha256 value

-- `_candidate_hashes`
unfoldable pub candidate_hashes : Hashes → Str → Str → List Str
unfolding mfa_hash
candidate_hashes hashes value secret_key =
    let preferred = mfa_hash hashes value secret_key in
    let legacy = mfa_hash hashes value [] in
    if str_beq preferred legacy then preferred ∷ [] else preferred ∷ legacy ∷ []

module _ {Payload : Type 0} where
  -- The row that `_create_auth_flow` inserts; `later` is the time of `_challenge_expiry`.
  unfoldable pub new_flow :
      Hashes → Str → Str → ℕ → Str → Payload → ℕ → Str → Str → Instant → Instant → AuthFlow Payload
  unfolding mfa_hash strip
  new_flow hashes secret_key token user_id flow_type payload ttl_minutes source_ip user_agent now
        later =
      record {
        created_at = now;
        user_id = user_id;
        flow_type = strip flow_type;
        token_sha256 = mfa_hash hashes token secret_key;
        payload = payload;
        expires_at = later + minutes (max 1 ttl_minutes);
        consumed_at = none;
        failed_attempts = 0;
        source_ip = take 80 (strip source_ip);
        user_agent = take 300 (strip user_agent);
      }

  -- `_create_auth_flow`; `none` for the IntegrityError of a token that there is.
  unfoldable pub create_auth_flow :
      Hashes
      → Str
      → Str
      → ℕ
      → Str
      → Payload
      → ℕ
      → Str
      → Str
      → Instant
      → Instant
      → Table (AuthFlow Payload)
      → Option (Table (AuthFlow Payload))
  unfolding insert_unique new_flow
  create_auth_flow hashes secret_key token user_id flow_type payload ttl_minutes source_ip
        user_agent now later t =
      insert_unique token_key
        (new_flow hashes secret_key token user_id flow_type payload ttl_minutes source_ip user_agent
          now later)
        t

  -- `id = ? AND consumed_at IS NULL`
  abbrev pub is_open : ℕ → ℕ → AuthFlow Payload → Bool
  is_open id i f = i == id && is_null f.consumed_at

  abbrev pub consumed : Instant → AuthFlow Payload → AuthFlow Payload
  consumed now f = record f { consumed_at = some now }

  abbrev pub failed : AuthFlow Payload → AuthFlow Payload
  failed f = record f { failed_attempts = f.failed_attempts + 1 }

  -- `_consume_auth_flow_by_id`
  unfoldable pub consume_auth_flow_by_id :
      ℕ → Instant → Table (AuthFlow Payload) → Table (AuthFlow Payload)
  consume_auth_flow_by_id flow_id now t = update_table (is_open flow_id) (consumed now) t

  -- `_increment_auth_flow_failures`
  unfoldable pub increment_auth_flow_failures :
      ℕ → Table (AuthFlow Payload) → Table (AuthFlow Payload)
  increment_auth_flow_failures flow_id t = update_table (is_open flow_id) failed t

  abbrev pub loaded : ℕ → AuthFlow Payload → LoadedFlow Payload
  loaded i f = record {
    id = i;
    user_id = f.user_id;
    flow_type = f.flow_type;
    payload = f.payload;
    expires_at = f.expires_at;
    failed_attempts = f.failed_attempts;
  }

-- `flow_type and ... != str(flow_type)`
unfoldable pub other_type : Option Str → Str → Bool
unfolding strip
other_type none actual = false
other_type (some expected) actual = is_filled expected && not (str_beq (strip actual) expected)

-- `max_attempts is not None and ... >= int(max_attempts)`
unfoldable pub is_exhausted : Option ℕ → ℕ → Bool
is_exhausted none failed_attempts = false
is_exhausted (some max_attempts) failed_attempts = leb max_attempts failed_attempts

-- `token_sha256 IN (...)`
abbrev pub has_token : {Payload : Type 0} → List Str → ℕ → AuthFlow Payload → Bool
has_token texts i f = one_of f.token_sha256 texts

abbrev invalid : Str
invalid = codes "Authentication flow is invalid or expired."

abbrev expired : Str
expired = codes "Authentication flow has expired."

abbrev other_client : Str
other_client = codes "Authentication flow is invalid for this client."

module _ {Payload : Type 0} (lower : Str → Str) (flow_type : Option Str)
    (source_ip user_agent : Str) (max_attempts : Option ℕ) (now : Instant) where
  -- What follows the SELECT by the hashes of the token.
  unfoldable pub check_flow :
      Option (ℕ × AuthFlow Payload)
      → Table (AuthFlow Payload)
      → Outcome (LoadedFlow Payload) × Table (AuthFlow Payload)
  unfolding is_null strip other_type is_exhausted consume_auth_flow_by_id
      normalize_user_agent_for_binding
  check_flow none t = (refused invalid 400, t)
  check_flow (some (i, f)) t =
      if not (is_null f.consumed_at)
      then (refused invalid 400, t)
      else if other_type flow_type f.flow_type
      then (refused invalid 400, t)
      else if not (iso_ltb now f.expires_at)
      then (refused expired 400, consume_auth_flow_by_id i now t)
      else if is_exhausted max_attempts f.failed_attempts
      then (refused expired 400, consume_auth_flow_by_id i now t)
      else if mismatch lower (strip f.source_ip) source_ip
      then (refused other_client 400, consume_auth_flow_by_id i now t)
      else if mismatch lower (normalize_user_agent_for_binding lower f.user_agent)
          (normalize_user_agent_for_binding lower user_agent)
      then (refused other_client 400, consume_auth_flow_by_id i now t)
      else (ok (loaded i f), t)

-- `_load_auth_flow`
unfoldable pub load_auth_flow :
    {Payload : Type 0}
    → Hashes
    → (Str → Str)
    → Str
    → Str
    → Option Str
    → Str
    → Str
    → Option ℕ
    → Instant
    → Table (AuthFlow Payload)
    → Outcome (LoadedFlow Payload) × Table (AuthFlow Payload)
unfolding strip candidate_hashes check_flow one_of
load_auth_flow hashes lower secret_key token flow_type source_ip user_agent max_attempts now t =
    let normalized_token = strip token in
    if is_filled normalized_token
    then check_flow lower flow_type source_ip user_agent max_attempts now
        (find_row (has_token (candidate_hashes hashes normalized_token secret_key)) t.rows) t
    else (refused (codes "Missing authentication flow.") 400, t)
