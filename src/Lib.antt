-- ===== src/Lib.antt =====
-- node-gemfire is a Node.js addon around the Geode (GemFire) C++ client. This library models its C++
-- code and proves properties of it.
--
-- The parts and how they interact
--
-- JavaScript calls the methods of a region (src/region.cpp). A method checks its arguments,
-- converts them (src/conversions.cpp), and queues a worker; the worker calls Geode on another
-- thread (src/gemfire_worker.cpp), and the event loop gives the result or the error to a callback.
-- The methods whose names end in Sync call Geode on the event loop. A function execution
-- (src/functions.cpp) streams its results: Geode's threads put them into a buffer
-- (src/result_stream.cpp, src/streaming_result_collector.cpp), and the event loop empties it and
-- tells an emitter (src/events.cpp). executeFunction itself checks its arguments and starts the
-- execution, or gives its results at once. The cache object (src/cache.cpp) creates and finds
-- regions and runs queries, whose results are read through src/select_results.cpp. Events of a
-- region come from Geode's listener (src/region_event_listener.cpp) through another buffer
-- (src/event_stream.cpp) to the registry (src/region_event_registry.cpp), which tells every
-- JavaScript wrapper of that region. src/cache_factory.cpp sets up the connection, and
-- lib/binding.js keeps the one cache that it makes.
--
-- Which file models what
--
-- Base: Boolean tests, lists and integers over the native numbers.
-- Functions/Stream: src/result_stream.cpp (add, end, resultsProcessed, nextResults). Functions/Worker:
-- the class ExecuteFunctionWorker of src/functions.cpp (Data, End, ExecuteComplete,
-- teardownIfReady). Functions/System: the threads as a step relation. Functions/Channel: what the
-- emitter is promised, without threads. Functions/Emitter: src/events.cpp, with the calls of it.
-- Functions/Launch: the start of Execute. Log, Invariant, Safety, Progress, Termination and Refinement
-- hold the proofs.
-- Events/Stream: src/event_stream.cpp. Events/Registry: src/region_event_registry.cpp and
-- src/region_event_listener.cpp. Events/Publication: publishEvents turn by turn, between which
-- callbacks change the set of wrappers. Events/System: the threads, with these turns. Events/Payload:
-- Event::v8Object, and what JavaScript hears. WrapperSet, Delivery, Safety, Loops, Progress and
-- Settle hold the proofs.
-- Conversions/Data: JavaScript values and Geode's cacheables. Conversions/ClassName: getClassName.
-- Conversions/Strings: wstringFromV8String and v8StringFromWstring. Conversions/ToGemfire:
-- gemfireValue, gemfireKey, gemfireKeys, gemfireVector, gemfireHashMap. Conversions/ToV8: v8Value,
-- v8Array, v8Object. Conversions/Errors: src/exceptions.cpp. Conversions/Effects: the texts of errors
-- and warnings. The proofs are in ClassName/*, RoundTrip/*, Keys, Laws, Types and Stored, which say
-- which values can come out, and Refused and Complaints, which say what is thrown.
-- Region/Geode: the interface of Geode's region. Region/Work: the workers and their callbacks.
-- Region/Call: checks and errors that the methods share. Region/Methods: the methods that queue a
-- worker. Region/Sync: the others. Region/Accessors: Name, Inspect, Attributes. Region/Results: what
-- callbacks are given. Region/Callbacks: what JavaScript is called with when a worker has run.
-- Region/Pool: workers side by side, with what Nan documents of AsyncQueueWorker. The
-- proofs are in Laws, whose child Signatures says which arguments each method takes,
-- Callbacks/Laws, Pool/Laws, Pool/Drain and Pool/Settle.
-- Functions/Request: executeFunction of src/functions.cpp and Region::ExecuteFunction of
-- src/region.cpp. Cache: src/cache.cpp. Cache/Query: Cache::ExecuteQuery,
-- with its worker in Cache/Query/Worker and what it accepts in Cache/Query/Signature. Cache/Wrapping:
-- Region::NewInstance, with which a returned region is registered for events. RegionShortcuts:
-- src/region_shortcuts.cpp. SelectResults: src/select_results.cpp.
-- CacheFactory: src/cache_factory.cpp, with the setters as one dispatch in CacheFactory/Setters.
-- Entry: lib/binding.js, the one cache of the module, with its count in Entry/Count. Entry/Load: what
-- loading lib/binding.js makes of the native module and of Region's prototype.
-- Binding: src/binding.cpp and src/dependencies.cpp, and the Init functions, which give the methods
-- their names; Binding/Properties: properties of objects, with their attributes.
-- The Examples modules run the code on concrete values and apply the theorems to them.
--
-- How state and code correspond
--
-- A C++ object is a record, a method a function from the record to the record, and a NAN_METHOD a
-- function from its arguments to a reply: what it throws, what it queues, what it returns. Where
-- threads meet, a step of the relation is what one thread does without releasing a mutex, and every
-- interleaving of steps is a run. A `uv_async_t` is the flag "a call of the callback is due", since
-- libuv merges the calls of `uv_async_send` that come before the callback runs. A conversion that
-- throws to V8 goes on in C++, so it gives a value and the list of what it threw.
--
-- Geode, V8 and libuv are not in the repository. They are parameters: the record GeodeRegion for a
-- region, with any state and any answers; the record Platform for what V8 and Geode do inside a
-- conversion; the records GeodeExecution and GeodeCache, and the function types GeodeQuery and
-- Maker, for Geode's function service, cache and cache factory; the record Coercions for V8's
-- conversions of arguments; the types of results, exceptions and payloads. Of Geode's function
-- execution is assumed that endResults is called once, after all results, and that execute throws
-- only while no result is being added; of libuv that a callback runs only after it was asked for.
-- Strings are lists of code units, or of bytes where the code uses UTF-8. Doubles are values of a
-- parameter type. Every loop runs over a list, and every recursion over a value; only the digits of
-- a type id, in Conversions/Effects, are made on fuel, one more than the number, which
-- number_of-decimal shows to be enough.
--
-- Geode's maps are listed in the order in which they are walked, and HashMapOfCacheable::insert is a
-- parameter of Platform, as is the compiler's order for the two conversions in one call of v8Object.
-- The replies of executeQuery, getRegion, create and the setters say where an exception of Geode or a
-- failed FromJust ends the process.
--
-- Not modelled
--
-- A value of Geode with a type id above CacheableStringHuge that is no PDX instance, whose cast in
-- v8Value throws: Cacheable has no such value. Exceptions of Geode's close, isClosed and rootRegions.
--
-- The internal fields and the constructors of the templates that V8 makes the classes from; the memory
-- of wrapped C++ objects other than the wrappers of regions; the search for the native binding on the
-- disk in lib; and the specs.
pub mod Base
pub mod Functions
pub mod Events
pub mod Conversions
pub mod Region
pub mod CacheFactory
pub mod Binding
pub mod Entry
pub mod RegionShortcuts
pub mod Cache
pub mod SelectResults
