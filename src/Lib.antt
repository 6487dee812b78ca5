-- ===== src/Lib.antt =====
-- Verification of the building-controls service (bms/): a gateway between the thermostats of a building
-- and its managers and tenants. The development models the code that decides and remembers, and leaves
-- out what formats pages or talks to a network.
--
-- * Value is what a point reads as (bms/points.py `is_valid`).
-- * Cache is the poll cache (bms/cache.py): one record for each device, the operations as functions on
--   it; Cache/Online and Cache/Records hold its theorems.
-- * Database is the SQLite schema of bms/store.py as one record of tables. A statement of SQL becomes
--   one of the operations of Prelude/Table: select, delete, update, count.
-- * Auth is bms/auth.py: User (ranks and zones), Throttle (`LoginThrottle`), Password (the stored
--   hashes) and Accounts (`AuthStore`, the accounts and the sessions).
-- * Passkeys is bms/passkeys.py: challenges, credentials, and the window of a step-up verification.
-- * Store is `Store` of bms/store.py: Intent (zones of devices, set-points), Week (groups, overrides),
--   Calendar (holidays, exceptions) and Readings (the history); Precedence and Reach hold its theorems.
-- * Zones is bms/zones.py, over the store: the zone of a device, and which zones can be granted.
-- * Config is bms/config.py: what a configuration needs to be accepted.
-- * Schedules is bms/schedules.py: the check of a day, the week of a device, and its form on the wire;
--   Events are the special events of an exception.
-- * Holidays is bms/holidays.py: the calendar entry of a rule, and the dates it is listed for. The
--   calendar of Prelude/Dates is the Gregorian one.
-- * Bacnet is bms/bacnet.py: Gate is `BacnetClient._request`, whose tasks interleave, as a step relation
--   on the locks, the semaphore and the tasks, with reachability; Client is what the reads make of the
--   answers of a device.
-- * Poller is bms/poller.py: one poll of a device, over the cache and the audit log, and the sampled
--   history, with Notes and Occupants on the rows it logs.
-- * Reconciler is `_reconcile_setpoints` of bms/reconciler.py, over Points (bms/points.py), with
--   Returns, InPlace, Distinct and Convergence, its theorems. Its Weekly, Clock and Calendar are
--   `_reconcile_weekly`, `_reconcile_clock` and `_reconcile_holidays` with the dated exceptions; its
--   Drift compares the entries of two calendars (`_same`), and its Outdoor shares the outdoor
--   conditions. The device behind the BACnet client is a state with reads and writes.
-- * TruPortal is bms/truportal.py: the durations of the panel and their wording, the inventory that is
--   kept for a time, and the calls that are sent.
-- * Weather is bms/weather.py: one source with its memory, over the answers of two web services.
-- * Api is bms/api.py: Caller (`current_user`, `require`, `require_device`), Doors
--   (`unlock_door` and the lights) and Unlock, its theorem, Buttons (what a page offers, over
--   the inventory of TruPortal), Writes (`write_point`) and Limits, its theorem, Login (`login`)
--   with Login/Entry, its theorem, Account (the routes of one's own account), Commands
--   (`override`, `bypass`), Seeds (the holidays and groups that come with the service), and
--   Requests, the routes of managers and administrators that change the database, with Refusals and
--   Ranks. The panel and the thermostats are lists of what was sent to them, and answer by parameters.
-- * UserAdmin is bms/useradmin.py: Rows checks a file of accounts, with Lines and Checked, its theorem;
--   Commands are the commands.
--
-- Auth, Passkeys, Store, Zones, Api and UserAdmin work on the same Database; an operation returns what
-- the method returns or raises, beside the database after it. Times are milliseconds, and a real value
-- of a point is a whole number of thousandths. `hashlib.scrypt`, the digest of tokens, `str.lower`,
-- `str.upper`, `float` of a text, `date.fromisoformat`, the contents of a bacpypes entry and the WebAuthn
-- library are parameters; random bytes, readings of the clock, and what is typed at a prompt are
-- arguments. Only the writing of a number in decimal takes fuel, its value and one, and it has fewer
-- digits; every loop is by recursion on a list. White space is that of `str.isspace`, and the digits that
-- `int` reads are those of ASCII.
--
-- Not modelled: pages and scripts (bms/ui, bms/tenant_page.py, bms/passkey_js.py), which are text; the
-- loops that wait between polls and their start (bms/__main__.py); the SOAP text of the panel and the
-- patterns that search it; the protocol of BACnet itself; the tools.
pub mod Prelude
pub mod TruPortal
pub mod UserAdmin
pub mod Weather
pub mod Config
pub mod Value
pub mod Cache
pub mod Database
pub mod Store
pub mod Zones
pub mod Schedules
pub mod Bacnet
pub mod Holidays
pub mod Poller
pub mod Points
pub mod Reconciler
pub mod Api
pub mod Auth
pub mod Passkeys
