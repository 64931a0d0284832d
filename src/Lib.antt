-- ===== src/Lib.antt =====
-- A verification library for the ScamScreener platform: the market API (app/marketguard_api) and
-- the training hub (app/training_hub). Clients ask the market API for the lowest buy-it-now
-- prices; a request passes the rate limiter, is answered from the response cache where that has
-- an answer, and else from a snapshot that the service builds from the auction house. The
-- training hub limits its requests by a table of its database, and signs its users in by
-- sessions, of which one way to get one is an account at GitHub or Authelia.
--
-- RateLimit models both rate limiters: RateLimit/Memory is InMemoryRateLimiter of
-- app/marketguard_api/rate_limit.py, RateLimit/Database is _DatabaseRateLimiter of
-- app/training_hub/http/rate_limit.py with its SQLite and its MariaDB path, and RateLimit.antt
-- holds the arithmetic of the windows that all of them begin with. The three attempts of the
-- MariaDB path take what other connections commit between their statements as functions on the
-- table.
--
-- Cache models app/marketguard_api/cache.py: Cache/Local is LocalResponseCache with its
-- OrderedDict as an association list, oldest use first, Cache/Chain is ResponseCacheChain over
-- any backends. The payload is a type of the caller's. Redis is not modelled: it is another
-- backend of the chain, known by its laws.
--
-- LowestBin models the index that app/marketguard_api/service.py builds: LowestBin/Index is
-- LowestBinIndexBuilder with fold_auctions_into_index and the page consumer; a price is a value
-- of the record Floats, and what proofs need of the order of floats is IsOrder, which holds where
-- no price is NaN.
--
-- Nbt models app/marketguard_api/nbt.py: Nbt/Reader is _NbtReader, Nbt/Decompress is
-- _bounded_decompress and _decode_item_bytes over zlib and base64, which are arguments, and
-- Nbt/Inventory is the parsing of items. A compound is read on fuel of a round for every byte
-- left and one more; a payload takes the number of levels of nested calls that Python's limit of
-- recursion leaves room for, an argument, behind which a RecursionError leaves the reader. Which
-- of the last calls at the limit raises, a level or a read inside it, depends on the interpreter:
-- all the room that a level and its reads need counts as one.
--
-- ItemKeys models app/marketguard_api/item_keys.py: ItemKeys/Names the internal names,
-- ItemKeys/Attributes the attribute keys and the level of pets, ItemKeys/Resolve is
-- resolve_auction_item over a parser of item bytes, which Nbt/Inventory is. The functions of
-- Python that it needs are the record Python of ItemKeys.antt, json.loads with the exceptions
-- that are not caught among them; the digits of a number take fuel of one more than the number.
--
-- Market models the two snapshot services of app/marketguard_api/service.py and the background
-- refresher of app/marketguard_api/refresher.py. Market.antt holds the rules of freshness,
-- Market/Service the read path (_load_snapshot and get_bazaar, which take the same steps) and
-- refresh, over an interface of the storage; Market/Refresher is the refresher as a state
-- machine, whose steps Market/Running orders in every way; Market/Config is the part of
-- app/marketguard_api/config.py that reads their numbers. What a call meets outside (the clock,
-- the database, Hypixel, other calls that write while it waits) is a record that the call takes.
--
-- MarketStorage models app/marketguard_api/storage.py, without the averages, on tables by their
-- primary keys: MarketStorage/Insert is _insert_many, MarketStorage/Rows are the rows and the
-- other statements, MarketStorage/Write is write_lowestbin_snapshot and read_lowestbin_snapshot,
-- MarketStorage/Bazaar are write_bazaar_snapshot and read_bazaar_snapshot, and
-- MarketStorage/Interface is the storage that Market takes, filled with them. The order of ORDER
-- BY, which the collation of the database decides, is the record RowOrder, an argument of the
-- reads. A key of the tables is compared by its characters, so that a collation that takes
-- different characters for the same is not covered. MarketStorage/Refill and MarketStorage/Listed
-- are about what is read behind a write. The batches of rows are made on fuel of one for every
-- row.
--
-- AccessPolicies models app/training_hub/core/access_policies.py of the training hub on the rows
-- of its table: AccessPolicies.antt holds the functions, AccessPolicies/Effective and
-- AccessPolicies/Setting their proofs.
--
-- Sessions models app/training_hub/core/session_auth_session.py, session_auth_revoke.py and what
-- recovery_retention.py deletes of their table: Sessions.antt holds the rows, their creation and
-- their revocation, Sessions/Resolve is _resolve_user_from_session and
-- _current_user_from_request, and Sessions/Steps orders the calls in every way. A table is the
-- list of its rows by their ids with the next id (Base/Sql). A time is a number of microseconds,
-- and Base/Instants compares two of them as the texts that the code stores.
--
-- ExternalAuth models app/training_hub/core/external_auth.py: ExternalAuth.antt holds the
-- settings and the allow lists, ExternalAuth/States the states that tie a callback to its
-- sign-in, ExternalAuth/Identities the users and their external identities with
-- _upsert_external_identity_user, and ExternalAuth/Usernames the free user names; the loop over
-- the suffixes takes fuel of its 999 rounds, and the digits of a suffix fuel of one more than it.
-- Requests to a provider, random tokens and hashes are arguments.
--
-- AuthFlows models the table auth_flow_tokens of app/training_hub/core/mfa.py, which carries a
-- flow from one request to the next.
--
-- Mfa models the second factor of the same file: Mfa/Totp are the codes of an app and the form of
-- a backup code, with base 32, HMAC-SHA-1 and the decryption of a secret as arguments, Mfa.antt
-- how a code is looked at, and Mfa/Challenges the login challenge from its creation to its
-- completion. Mfa/Managed removes factors, makes backup codes anew and turns the factors off.
-- Passkeys, beside their removal, and the enrollment of an app are not modelled.
--
-- Login models app/training_hub/core/session_auth_login.py and session_auth_password.py:
-- Login/Passwords is how a password is stored and compared, with bytes as numbers and the key
-- derivation as an argument, and Login.antt the login with its lockout and the two changes of a
-- password, on the columns of the table users that they use.
--
-- Callback models external_auth_callback of app/training_hub/routes/public_auth_external.py over
-- all of these and the access policies; Callback/Exchange is complete_external_auth_exchange. The
-- audit log and cookies beside the token are not modelled. The calls of a callback are taken as
-- not interleaved with others.
--
-- PlayerMetrics models app/marketguard_api/player_metrics.py, each method as a step of its
-- counters.
--
-- Locks are the order of the calls; logging, metrics and the event loop are not modelled. A time
-- is a natural number: of seconds for the limiters, of nanoseconds for the cache, of microseconds
-- for the snapshots and the sessions, and of milliseconds in their tables.
pub mod Base
pub mod RateLimit
pub mod Cache
pub mod LowestBin
pub mod Nbt
pub mod ItemKeys
pub mod Market
pub mod MarketStorage
pub mod AccessPolicies
pub mod PlayerMetrics
pub mod Sessions
pub mod ExternalAuth
pub mod AuthFlows
pub mod Mfa
pub mod Login
pub mod Callback
pub mod Tests
