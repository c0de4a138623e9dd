-- ===== src/Cache/Query.antt =====
-- src/cache.cpp, Cache::ExecuteQuery and its worker.
pub mod Worker
pub mod Signature
use Prim.Native.String.{String}
use node_gemfire.Base.{
  ◌⊎◌, inl, inr, ℕ, not, ◌||◌, ◌&&◌, List, [], ◌∷◌, Option, none, some, if◌then◌else◌, length, ltb,
  ◌==◌, map,
}
use node_gemfire.Conversions.Data.{V8Value, Cacheable, Exception, Platform, undefined, is_array}
use node_gemfire.Region.Call.{
  Thrown, error, in_conversion, gemfire, invalid_pool, arg, is_object, is_undefined, is_function,
}
use node_gemfire.Functions.Request.{GeodeExecution, is_string, convert_filter}
use node_gemfire.Cache.{GeodeCache, pool_name_text}

-- Where executeQuery found its callback: the value of poolName, and the parameters if they were set.
pub data QueryArguments (D : Type 0) : Type 0 where
  bad_query : String → QueryArguments D
  good_query : V8Value D → Option (V8Value D) → QueryArguments D

-- The ExecuteQueryWorker, with the pool of its query service.
pub record QueryJob (D : Type 0) : Type 0 where
  pub query_string : List ℕ
  pub pool : Option (List ℕ)
  pub query_params : Cacheable D

pub record QueryReply (D : Type 0) : Type 0 where
  pub uncaught : Option Exception  -- leaves the method, which ends the process
  pub thrown : List Thrown
  pub queued : Option (QueryJob D)

module _ {D S R L X : Type 0} (P : Platform D) (G : GeodeExecution D X)
    (C : GeodeCache S R L X) where
  abbrev pub options_pool : V8Value D → V8Value D
  options_pool v =
      if is_object v && not (is_function v) then G.get_property pool_name_text v else undefined

  -- The checks of executeQuery.
  unfoldable pub check_query : List (V8Value D) → QueryArguments D
  check_query info =
      if length info == 0 || not (is_string (arg info 0))
      then bad_query "You must pass a query string and callback to executeQuery()."
      else if ltb (length info) 2
      then bad_query "You must pass a callback to executeQuery()."
      else if is_function (arg info 1)
      then good_query undefined none
      else if ltb 2 (length info) && is_function (arg info 2)
      then good_query (options_pool (arg info 1)) none
      else if ltb 3 (length info) && is_function (arg info 3)
      then good_query (options_pool (arg info 2)) (
          if is_array (arg info 1) && not (is_function (arg info 1))
          then some (arg info 1)
          else none)
      else bad_query "You must pass a function as the callback to executeQuery()."

  -- The `try` of executeQuery: what is thrown, or the pool of the query service.
  unfoldable pub find_service : V8Value D → QueryReply D ⊎ Option (List ℕ)
  find_service pool_name =
      if is_undefined pool_name
      then elim (C.query_service none) [
        | none ↦ inr none
        | some e ↦ inl (record { uncaught = none; thrown = gemfire e ∷ []; queued = none })
      ]
      else elim (C.find_pool (P.utf8_of_value pool_name)) [
        | none ↦ inl (record {
          uncaught = none;
          thrown = invalid_pool (P.utf8_of_value pool_name) ∷ [];
          queued = none;
        })
        | some l ↦ elim (C.query_service (some (P.utf8_of_value pool_name))) [
          | none ↦ inr (some (P.utf8_of_value pool_name))
          | some e ↦ inl (record { uncaught = none; thrown = gemfire e ∷ []; queued = none })
        ]
      ]

  -- Parameters that were not set, or are undefined, are NULLPTR. newQuery stands outside the `try`.
  unfoldable pub queue_query :
      List ℕ → Option (V8Value D) → QueryReply D ⊎ Option (List ℕ) → QueryReply D
  unfolding convert_filter
  queue_query q params (inl reply) = reply
  queue_query q params (inr pool) =
      let converted = convert_filter P params in
      let job : QueryJob D = record {
        query_string = q;
        pool = pool;
        query_params = converted.value;
      } in
      elim (C.new_query pool q) [
        | none ↦ record {
          uncaught = none;
          thrown = map in_conversion converted.log;
          queued = some job;
        }
        | some e ↦ record {
          uncaught = some e;
          thrown = map in_conversion converted.log;
          queued = none;
        }
      ]

  -- executeQuery after the checks.
  unfoldable pub run_query : List ℕ → QueryArguments D → S → QueryReply D
  unfolding find_service queue_query
  run_query q (bad_query m) s = record { uncaught = none; thrown = error m ∷ []; queued = none }
  run_query q (good_query pool_name params) s =
      if C.is_closed s
      then record {
        uncaught = none;
        thrown = error "Cannot execute query; cache is closed." ∷ [];
        queued = none;
      }
      else queue_query q params (find_service pool_name)

  unfoldable pub execute_query : List (V8Value D) → S → QueryReply D
  unfolding check_query run_query
  execute_query info s = run_query (P.utf8_of_value (arg info 0)) (check_query info) s
