-- ===== src/Region/Call.antt =====
-- What a NAN_METHOD of src/region.cpp sees and does: its arguments, what it throws, the worker that
-- it queues, and what it returns. The callback of a call is a function value or undefined.
use Prim.Native.String.{String}
use node_gemfire.Base.{
  ℕ, zero, suc, Bool, true, false, not, ◌||◌, List, [], ◌∷◌, Option, none, some, map,
}
use node_gemfire.Conversions.Data.{
  V8Value, Effect, Exception, function, undefined, string, boolean, number, null, other,
}
use node_gemfire.Region.Work.{Job, Work}
use node_gemfire.Region.Geode.{
  Instance, no_instance, closed_instance, open_instance, region_destroyed,
}

pub data Thrown : Type 0 where
  error : String → Thrown
  region_closed : List ℕ → Thrown  -- Region name … is invalid because the Cache is Closed.
  in_conversion : Effect → Thrown  -- logged by a conversion; a warning throws nothing
  gemfire : Exception → Thrown
  invalid_pool : List ℕ → Thrown  -- `…` is not a valid pool name

pub data Returned (D : Type 0) : Type 0 where
  nothing : Returned D  -- undefined
  holder : Returned D
  js_value : V8Value D → Returned D

pub record Reply (D : Type 0) : Type 0 where
  pub thrown : List Thrown
  pub queued : Option (Job D)
  pub returned : Returned D

module _ {D : Type 0} where
  -- info[i], which is undefined past the end.
  abbrev pub arg : List (V8Value D) → ℕ → V8Value D
  arg [] i = undefined
  arg (v ∷ vs) zero = v
  arg (v ∷ vs) (suc i) = arg vs i

  abbrev pub is_function : V8Value D → Bool
  is_function function = true
  is_function _ = false

  abbrev pub is_undefined : V8Value D → Bool
  is_undefined undefined = true
  is_undefined _ = false

  abbrev pub is_function_or_undefined : V8Value D → Bool
  is_function_or_undefined v = is_undefined v || is_function v

  -- getCallback: not NULL.
  abbrev pub get_callback : V8Value D → Bool
  get_callback v = not (is_undefined v)

  -- IsObject
  abbrev pub is_object : V8Value D → Bool
  is_object (string s) = false
  is_object (boolean b) = false
  is_object (number d) = false
  is_object undefined = false
  is_object null = false
  is_object (other s) = false
  is_object _ = true

  -- The code throws, queues nothing and returns nothing.
  abbrev pub reject : Thrown → Reply D
  reject t = record { thrown = t ∷ []; queued = none; returned = nothing }

  abbrev pub queue : List Effect → Work D → Bool → Returned D → Reply D
  queue log w cb r = record {
    thrown = map in_conversion log;
    queued = some (record { work = w; has_callback = cb });
    returned = r;
  }

-- getCacheFromRegion: nothing, or what it throws instead of returning a cache.
unfoldable pub get_cache_from_region : List ℕ → Instance → Option Thrown
get_cache_from_region name no_instance = some (region_closed name)
get_cache_from_region name closed_instance = some (region_closed name)
get_cache_from_region name open_instance = none
get_cache_from_region name (region_destroyed e) = some (gemfire e)

-- `if (cachePtr == NULLPTR) return;`
abbrev pub with_cache : {D : Type 0} → Option Thrown → Reply D → Reply D
with_cache none r = r
with_cache (some t) r = reject t
