-- ===== src/Lib.antt =====
-- The RCQ island server (app/), its message delivery core.
--
-- An island is a FastAPI application over Postgres and Redis. A deposit writes a sealed row for
-- each recipient; a device drains its account's rows over HTTP and acks what it stored, and the
-- island deletes what every device of the account has passed.
--
-- Queue models the offline queue of 1:1 and legacy group rows:
--  - Queue/Tables: the tables of app/models/message.py, app/models/group.py and
--    app/models/queue_cursor.py, and `_cls_for` of app/routers/messages.py.
--  - Queue/Drain: app/services/queue_drain.py, `account_watermark`, `drain_floor` and
--    `upsert_cursor` (its returned marks are `upsert_returning`).
--  - Queue/Ack: `_acked_prefix`; Queue/Reap: `_reap_below_min` and `_advance_cursor`;
--    Queue/Endpoints: `fetch_queue` and `ack_queue`, all of app/routers/messages.py.
--  - Queue/Prefix, Cursors, Survivors, Advance, NoLoss, Liveness, Races, Stale, NewDevice: the
--    proofs. Queue/Tests: runs and the theorems at concrete inputs.
--
-- Uin models app/services/uin.py:
--  - Uin/Digits: `str(uin)`; Uin/Shape: `_PATTERNS`, `_RUN`, `price_length` and `is_reserved_uin`.
--  - Uin/Taken: `invite_is_live`, `uin_is_taken` and `allocate_uin`, whose hundred iterations are
--    its own bound; the draws are an argument. Uin/SpokenFor, Allocate, Scarce: the proofs.
--    Uin/Tests: runs.
--
-- RateLimit models app/core/rate_limit.py:
--  - RateLimit/Buckets: `_LIMITER_SCRIPT` and `_COST_SCRIPT`, one step on what Redis has under a
--    key, its expiry included; RateLimit/Local: `_local_allow`.
--  - RateLimit/Limits: `enforce_rate_limit`, `rate_limit`, `enforce_cost_budget`,
--    `island_ceiling`, `allow_ws_connect`, `reset_buckets`. The HMAC of `bucket_name` and the
--    subnet of an address are parameters, and a bearer token comes decoded. Without Redis a rule
--    lets every call through, except the ceilings and the rules with `fail_closed`, which count in
--    the process.
--  - RateLimit/Window, Retry, LocalWindow, Cost, Ceiling: the proofs. RateLimit/Tests: runs.
--
-- RoomLog models the log of a room:
--  - RoomLog/Counters: `_next_mailbox_seq`, `_next_group_seq` and `_next_group_seqs` of
--    app/routers/messages.py and `room_head`; RoomLog/Cursors: `upsert_log_cursor` and
--    `seed_cursors_on_join`; RoomLog/Readers: `log_readers` and `mark_reader`, of
--    app/services/group_log.py; RoomLog/Ack: `ack_group_log` of app/routers/messages.py.
--  - RoomLog/Rows and RoomLog/Page: `_fair_log_page` of app/routers/messages.py; a heap of turns
--    is the set of rooms that wait, of which the least is popped. RoomLog/Fetch:
--    `fetch_group_log`.
--  - RoomLog/Numbers, Forward, Acked, Joined, Legacy, and the modules under RoomLog/Page and
--    RoomLog/Fetch: the proofs. RoomLog/Tests, PageTests, FetchTests: runs.
--
-- Posting models the rules of app/routers/messages.py for a post into a room:
--  - Posting/Keep: `_queueable` and `_keep_for`; Posting/AgeGate: `_enforce_account_age_gate`.
--    Posting/Kept, Waited: the proofs. Posting/Tests: runs.
--  - Posting/SlowKeys: `_slowmode_identity`, `_slowmode_free_key`, and the commands on the keys;
--    Posting/SlowMode: `_enforce_group_slowmode` over the limiter of RateLimit/Limits, with which
--    calls of Redis answer as an argument; a call that does not answer changes nothing.
--    Posting/SlowCount, SlowSpent, SlowTracks, SlowSold, SlowRun, SlowAlbum, SlowWhole: the
--    proofs. Posting/SlowTests: runs.
--
-- Voucher models app/services/uin_voucher.py: the documents that the till signs, and each check of
-- the island. What the module calls of base64, json, str and cryptography is the record `Codec`, a
-- parameter; a proof names what it relies on. A number in a document is taken to be at least 0,
-- and finite.
--  - Voucher/Verify: `verify`, `verify_resale`, `verify_entry`, `verify_payout`,
--    `verify_entry_payout`, `verify_hold`. Voucher/Docs, Checked, Signed, Refusals, Carried: the
--    proofs. Voucher/Tests: a codec and runs.
--
-- Shop models app/routers/uin_shop.py on the tables of Uin/Taken, and the moves of
-- app/routers/migrate.py:
--  - Shop/Tables: app/models/uin_listing.py, `spent_vouchers`, and the rows that a key finds.
--    Shop/Hold: `till_hold`; Shop/Exclusive: its proofs.
--  - Shop/Session: the errors of the handlers, as values; a handler that raises writes nothing.
--    Shop/Collection: `_owned_uins`, `_take`, and `_perform_migration` with `rekey_uin_rows`;
--    Shop/Redeem: `redeem`, `_redeem_resale`, `claim`; Shop/Market: `create_listing`,
--    `delete_listing`, `release`, `activate`; Shop/Account: `migrate`; Shop/Door: `register` of
--    app/routers/auth.py, from the code that the caller brings to the new row; Shop/Requests: all
--    of these, one after the other. Of the requests that overlap, Shop/Overlap has `activate` and
--    the first listing of a number by `create_listing`, and Shop/Simultaneous has `redeem`: what
--    the handler has read is an argument, so anything may have been committed since, and its
--    writes are one step, in which the keys of the tables and the condition of the UPDATE decide.
--  - Shop/Register is what the shop promises without its tables: who answers as a number, who
--    holds it, what it is offered for, which nonces are spent, and the deals that may change
--    these. Shop/View: the register that the tables stand for.
--  - Shop/Moved, Sound, Moving, Bought, Sold, Resold, Drawn, Chosen, Entered, Kept, Refined, Once,
--    Later, Overtaken, Undivided, SpentOnce, Overlapping, Gates, Uses, Asked: the proofs.
--    Shop/Tests, SaleTests, DoorTests, OverlapTests: runs.
--
-- Guest models app/core/guest_policy.py, with `ensure` and `prime` of app/core/single_flight.py:
--  - Guest/Mirror: the guest set in Redis, `mark_guest`, `unmark_guest`, `_rebuild`, `is_guest`;
--    Guest/Admission: `admission_open`, the markers of routes, `enforce`.
--  - Guest/Steps: requests, the two halves of a rebuild, and a loss of Redis, in any order; times
--    are bounded as the comments on the pending set say. Guest/Marked, Kept, Closed: the proofs.
--    Guest/Tests: runs.
--
-- DepositAuth models app/core/deposit_auth_store.py: `issuer_key`, `sign_blinded`,
-- `verify_and_consume_token`. RSA, hashing, the proof of work and base64 are the record `Crypto`,
-- a parameter. DepositAuth/Spent: the proofs. DepositAuth/Tests: runs.
--
-- Not modelled: the rest of the deposit handlers, the quotes and pages of the shop, the accounts
-- of guests, and the deletion of an account; the other doors to an account than `register`, which
-- are `guest_join` of app/routers/auth.py and the seat that an owner gives a guest in
-- app/routers/groups.py; and the operator pages, push, media and the application shell, which are
-- mostly I/O over third-party libraries.
--
-- Fuel. `str` has one step for each unit of the number and one more, and each step divides it by
-- ten; a block is looked for as often as the rest has digits, and each copy takes one at least.
-- The loop over the turns of a page has the limit and the number of rooms together: each pass
-- takes a row or takes a room off the heap.
--
-- Conventions. A table is a list of rows in any order, and a SQL statement is one function on it.
-- Times are whole seconds (in RateLimit and the slow mode whole microseconds, since the limiter
-- compares fractions) and are an argument; a request reads the clock once. `ORDER BY` and `sorted`
-- are a stable insertion sort (Base/Sort). Text is the native String.
pub mod Base
pub mod Queue
pub mod Uin
pub mod RateLimit
pub mod RoomLog
pub mod Posting
pub mod Voucher
pub mod Shop
pub mod DepositAuth
pub mod Guest
