-- ===== src/Lib.antt =====
-- The EdgeX device service SDK for Python (src/device_sdk_py).
--
-- A device service keeps three caches of Core Metadata objects (devices, device profiles and provision
-- watchers). A request to read or write a device is validated against the caches, resolved to resources
-- of the device's profile, handed to the protocol driver, and the values that the driver returns, or
-- that were written, are transformed and put into an event of readings.
--
-- Which module models what:
--   Base         helpers: integers over the native numbers, bits, dicts as association lists, tests
--   Raise        exceptions as values, and the error kinds of internal/common/utils.py and
--                internal/cache/providers.py; a method returns its result beside the new object
--   Floats       Python's float: a record of operations that the model takes as a parameter
--   Model        models/command_value.py, and the records of internal/cache/providers.py
--   Cache        internal/cache/devices.py, profiles.py and provisionwatchers.py: one record for each
--                cache, one function for each method
--   Transformer  internal/transformer: Words, Numbers and ReadResult are transformresult.py and
--                transformvaluechecker.py, WriteParameter is transformparam.py, Origin, Reading and
--                Event are transform.py
--   Command      internal/application/command.py: State is what a command works on, Failures the
--                tracker of failures, Validation the check of the service and the device, Parse the
--                coercion of write values, Requests and Parameters what a read and a write hand to the
--                driver, Frame what command_read and command_write share, Read and Write the commands,
--                and Pump the return pump of service/device_service.py
--   AutoEvent    internal/autoevent: Duration parses intervals, Executor compares and sends readings,
--                Manager schedules the executors of each device, Source reads for them
--   Callback     internal/application/callback.py: State is what a callback works on, Handlers the
--                callbacks, Keeps and Ensures the rules by which they are put together
--   Service      service/device_service.py: Metadata writes to the caches and to Core Metadata,
--                Entities are the public methods on devices, profiles and watchers, AutoEvents those
--                that change the auto events of a device, SystemEvents the
--                callbacks for system events, Discovered the matching of discovered devices; State is
--                what they work on, Slot, Slots and Restores say what a restore brings back
--   Scan         internal/application/profilescan.py: Locker, Wrapper, and Threads that run the wrapper
--                at the same time
--   Tests        a small service with one device, and the theorems at it
--
-- Modelling. Functions and methods keep their names. A pure function that may raise returns a
-- Result; a method that changes an object returns the new object beside its Result, because what
-- was written before a raise stays written. The commands are actions on a State: the device cache,
-- the map of allowed failures, and the list of the calls that went out. The callbacks and the
-- methods of the service are actions on states of their own, which hold all three caches; a
-- callback also works on the auto event manager, where an executor is an object with an identity,
-- and a thread that has been started belongs to one and has its stop event set or not. The driver,
-- the client of Core Metadata and the client of profiles are functions of all calls made before,
-- so one with a state of its own is covered. The clock, the uuids and the functions of Python's
-- json, base64, struct, re, zlib and str are parameters. Values are immutable: a transformation
-- that Python does in place returns the new value; a cache hands out clones, so an object that a
-- method changes is its own. Integers are unbounded as in Python, and the widths 8 to 64 of the
-- value types are written out. Loops are structural recursion on the list that they run over, but
-- for the loop of parse_duration, whose fuel is the length of the text and 1 more: each round
-- takes a character away.
--
-- Not modelled: threads, but for the profile scan (each method of a cache holds its mutex, so it
-- is one step; of the thread of an auto event there is only its start, its stop event and one
-- execution, not its loop, which ends at a check after the event is set), log messages and the
-- texts of errors, the HTTP and messaging controllers, the start of the service, the clients,
-- configuration and security. An exception of a client that is no MetadataError, and a driver
-- without the optional methods, are not covered by Service; nor are its callbacks
-- _on_watcher_updated and _on_service_updated, which set attributes by name.
pub mod Base
pub mod Raise
pub mod Model
pub mod Cache
pub mod Floats
pub mod Transformer
pub mod Command
pub mod AutoEvent
pub mod Callback
pub mod Service
pub mod Scan
pub mod Tests
