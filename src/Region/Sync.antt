-- ===== src/Region/Sync.antt =====
-- src/region.cpp, the methods that call Geode on the event loop.
use node_gemfire.Base.{
  not, ◌||◌, List, [], ◌∷◌, ◌++◌, Option, none, some, map, if◌then◌else◌, length, ◌==◌, is_empty,
}
use node_gemfire.Conversions.Data.{V8Value, Platform, Out, Effect, is_array, is_null, null_ptr, end}
use node_gemfire.Conversions.ToGemfire.{gemfire_value, gemfire_key, gemfire_keys, gemfire_hash_map}
use node_gemfire.Conversions.ToV8.{v8_value}
use node_gemfire.Region.Geode.{Answer, answered, threw, GeodeRegion, Instance}
use node_gemfire.Region.Call.{
  Thrown, Returned, error, in_conversion, gemfire, nothing, holder, js_value, arg, is_object,
  get_cache_from_region,
}
use node_gemfire.Region.Results.{v8_table}
use node_gemfire.Region.Methods.{own_fields, elements}

pub record SyncReply (D S : Type 0) : Type 0 where
  pub thrown : List Thrown
  pub returned : Returned D
  pub state : S

module _ {D S : Type 0} where
  abbrev pub refuse : List Effect → Thrown → S → SyncReply D S
  refuse log t s = record {
    thrown = map in_conversion log ++ t ∷ [];
    returned = nothing;
    state = s;
  }

  -- The value that a conversion gives, after the effects so far.
  abbrev pub give : List Effect → Out (V8Value D) → S → SyncReply D S
  give log v s = record {
    thrown = map in_conversion (log ++ v.log);
    returned = js_value v.value;
    state = s;
  }

  -- The holder is returned, or the exception is thrown.
  abbrev pub finish : List Effect → Answer S (Unit {0}) → SyncReply D S
  finish log (answered _ t) = record {
    thrown = map in_conversion log;
    returned = holder;
    state = t;
  }
  finish log (threw e t) = refuse log (gemfire e) t

  abbrev pub need_cache : Option Thrown → S → SyncReply D S → SyncReply D S
  need_cache none s r = r
  need_cache (some t) s r = refuse [] t s

module _ {D S : Type 0} (P : Platform D) (g : GeodeRegion D S) (cache : Instance) where
  unfoldable pub put_sync : List (V8Value D) → S → SyncReply D S
  unfolding get_cache_from_region
  put_sync info s =
      if not (length info == 2)
      then refuse [] (error "You must pass a key and value to putSync().") s
      else need_cache (get_cache_from_region g.name cache) s (
          let key = gemfire_key P (arg info 0) in
          let value = gemfire_value P (arg info 1) in
          if is_null key.value
          then refuse key.log (error "Invalid GemFire key.") s
          else if is_null value.value
          then refuse (key.log ++ value.log) (error "Invalid GemFire value.") s
          else finish (key.log ++ value.log) (g.put key.value value.value s))

  -- After an exception the value is still NULLPTR, and null is returned.
  unfoldable pub get_sync : List (V8Value D) → S → SyncReply D S
  unfolding get_cache_from_region
  get_sync info s =
      if length info == 0
      then refuse [] (error "You must pass a key to getSync().") s
      else need_cache (get_cache_from_region g.name cache) s (
          let key = gemfire_key P (arg info 0) in
          elim (g.get key.value s) [
            | answered c t ↦ give key.log (v8_value P c) t
            | threw e t ↦ record {
              thrown = map in_conversion key.log ++ gemfire e ∷ [];
              returned = js_value (v8_value P null_ptr).value;
              state = t;
            }
          ])

  unfoldable pub get_all_sync : List (V8Value D) → S → SyncReply D S
  unfolding get_cache_from_region
  get_all_sync info s =
      if not (length info == 1) || not (is_array (arg info 0))
      then refuse [] (error "You must pass an array of keys to getAllSync().") s
      else need_cache (get_cache_from_region g.name cache) s (
          let keys = gemfire_keys P (elements P (arg info 0)) in
          elim (keys.value) [
            | none ↦ refuse keys.log (error "Invalid GemFire key.") s
            | some ks ↦
                if is_empty ks then give keys.log (v8_table P [] end) s else elim (g.get_all ks s) [
                  | answered table t ↦ give keys.log (v8_table P table end) t
                  | threw e t ↦ refuse keys.log (gemfire e) t
                ]
          ])

  unfoldable pub put_all_sync : List (V8Value D) → S → SyncReply D S
  unfolding get_cache_from_region
  put_all_sync info s =
      if not (length info == 1) || not (is_object (arg info 0))
      then refuse [] (error "You must pass an object to putAllSync().") s
      else need_cache (get_cache_from_region g.name cache) s (
          let entries = gemfire_hash_map P (own_fields P (arg info 0)) in
          elim (entries.value) [
            | none ↦ refuse entries.log (error "Invalid GemFire value.") s
            | some m ↦ finish entries.log (g.put_all m s)
          ])

-- `catch` around one call that returns nothing.
abbrev pub run_void : {D S : Type 0} → Answer S (Unit {0}) → SyncReply D S
run_void (answered _ t) = record { thrown = []; returned = nothing; state = t }
run_void (threw e t) = refuse [] (gemfire e) t

module _ {D S : Type 0} (g : GeodeRegion D S) where
  unfoldable pub register_all_keys : S → SyncReply D S
  register_all_keys s = run_void (g.register_all_keys s)

  unfoldable pub unregister_all_keys : S → SyncReply D S
  unregister_all_keys s = run_void (g.unregister_all_keys s)
