-- ===== src/Cache/Query/Signature.antt =====
-- Which calls of Cache::ExecuteQuery in src/cache.cpp are accepted, and what their callbacks are told.
use node_gemfire.Base.{
  ℕ, ◌≡◌, ◌⊎◌, inl, inr, Bool, true, false, not, ◌&&◌, List, [], ◌∷◌, Option, none, some, length,
  map, if◌then◌else◌,
}
use node_gemfire.Conversions.Data.{
  Effect, V8Value, Cacheable, Exception, null_ptr, Platform, undefined, is_array,
}
use node_gemfire.Conversions.ToGemfire.{gemfire_vector}
use node_gemfire.Region.Call.{in_conversion, arg, is_function, is_undefined}
use node_gemfire.Region.Methods.{elements}
use node_gemfire.Region.Laws.Signatures.{is_some}
use node_gemfire.Functions.Request.{GeodeExecution, is_string}
use node_gemfire.Cache.{GeodeCache}
use node_gemfire.Cache.Query.{
  QueryArguments, bad_query, good_query, QueryJob, QueryReply, options_pool,
}
use node_gemfire.Cache.Query.Worker.{GeodeQuery, run_query_job, query_call}

-- What a call asks for besides its text: the value that may name a pool, and an array of parameters.
pub record Asked (D : Type 0) : Type 0 where
  pub options : V8Value D
  pub params : Option (V8Value D)

module _ {D S R L X : Type 0} (P : Platform D) (G : GeodeExecution D X)
    (C : GeodeCache S R L X) where
  -- The first function among the second, third and fourth arguments is the callback, the options stand
  -- right before it, and an array right before them are the parameters.
  abbrev pub asked : List (V8Value D) → Option (Asked D)
  asked info =
      if not (is_string (arg info 0))
      then none
      else if is_function (arg info 1)
      then some (record { options = undefined; params = none })
      else if is_function (arg info 2)
      then some (record { options = arg info 1; params = none })
      else if is_function (arg info 3)
      then some (record {
        options = arg info 2;
        params = if is_array (arg info 1) then some (arg info 1) else none;
      })
      else none

  abbrev pub named_pool : V8Value D → Option (List ℕ)
  named_pool options =
      let name = options_pool P G C options in
      if is_undefined name then none else some (P.utf8_of_value name)

  abbrev pub is_known : Option (List ℕ) → Bool
  is_known none = true
  is_known (some n) = is_some (C.find_pool n)

  -- The cache is open, and Geode has a query service for the pool.
  abbrev pub is_served : Option (List ℕ) → S → Bool
  is_served pool s = not (C.is_closed s) && (is_known pool && not (is_some (C.query_service pool)))

  abbrev pub params_of : Option (V8Value D) → Cacheable D
  params_of none = null_ptr
  params_of (some v) = (gemfire_vector P (elements P v)).value

  -- What the conversion of the parameters logs.
  abbrev pub expected_log : Option (Asked D) → List Effect
  expected_log none = []
  expected_log (some a) = elim a.params [
    | none ↦ []
    | some v ↦ (gemfire_vector P (elements P v)).log
  ]

  -- The query that a call asks for, if it can be served.
  abbrev pub expected_job : List ℕ → Option (Asked D) → S → Option (QueryJob D)
  expected_job q none s = none
  expected_job q (some a) s =
      if is_served (named_pool a.options) s
      then some (record {
        query_string = q;
        pool = named_pool a.options;
        query_params = params_of a.params;
      })
      else none

  abbrev is_defined : Option (V8Value D) → Bool
  is_defined none = true
  is_defined (some v) = not (is_undefined v)

  abbrev Reads : Option (Asked D) → QueryArguments D → Type 0
  Reads none (bad_query m) = Unit {0}
  Reads (some a) (good_query name params) =
      (name ≡ options_pool P G C a.options) × (params ≡ a.params) × (is_defined a.params ≡ true)
  Reads _ _ = ⊥

  -- What the conversion logs is thrown, and the expected query is queued, or newQuery throws and its
  -- exception leaves the method.
  abbrev pub made_query : Option Exception → QueryJob D → List Effect → QueryReply D
  made_query none j log = record {
    uncaught = none;
    thrown = map in_conversion log;
    queued = some j;
  }
  made_query (some e) j log = record {
    uncaught = some e;
    thrown = map in_conversion log;
    queued = none;
  }

  -- What is expected of a query that can be served, or nothing is queued and one error is thrown.
  abbrev pub Queues : Option (QueryJob D) → List Effect → QueryReply D → Type 0
  Queues none log r = (r.queued ≡ none) × (length r.thrown ≡ 1) × (r.uncaught ≡ none)
  Queues (some j) log r = r ≡ made_query (C.new_query j.pool j.query_string) j log

  -- What find_service comes to, for whether Geode has a query service for the pool.
  abbrev Found : Bool → Option (List ℕ) → QueryReply D ⊎ Option (List ℕ) → Type 0
  Found true pool o = o ≡ inr pool
  Found false pool (inl r) = (r.queued ≡ none) × (length r.thrown ≡ 1) × (r.uncaught ≡ none)
  Found false pool (inr p) = ⊥

  -- The query that is expected on an open cache.
  abbrev served_job : List ℕ → Asked D → Option (QueryJob D)
  served_job q a =
      if is_known (named_pool a.options) && not (is_some (C.query_service (named_pool a.options)))
      then some (record {
        query_string = q;
        pool = named_pool a.options;
        query_params = params_of a.params;
      })
      else none

module _ {D S T R L X : Type 0} (P : Platform D) (G : GeodeExecution D X) (C : GeodeCache S R L X)
    (Q : GeodeQuery D T) where
  -- The callback of a query is called exactly once: with undefined and the results, or the error.
  abbrev pub Tells : Option (QueryJob D) → T → Type 0
  Tells none t = Unit {0}
  Tells (some j) t =
      (run_query_job P Q j t).js_calls
      ≡ query_call P G C Q (Q j.query_string j.pool j.query_params t) ∷ []
