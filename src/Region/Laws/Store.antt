-- ===== src/Region/Laws/Store.antt =====
-- Storing and reading through src/region.cpp.
use node_gemfire.Base.{ℕ, codes, ◌≡◌, refl, false, List, [], ◌∷◌, ◌++◌, some, arith, map}
use node_gemfire.Conversions.Data.{
  V8Value, V8Items, Platform, Cacheable, Effect, array, is_null, array_list,
}
use node_gemfire.Conversions.ToGemfire.{gemfire_value, gemfire_key, gemfire_items}
use node_gemfire.Conversions.RoundTrip.{normal, Storable}
use node_gemfire.Conversions.RoundTrip.Laws.{IsWilling, v8_value-gemfire_value}
use node_gemfire.Region.Geode.{answered, GeodeRegion, open_instance}
use node_gemfire.Region.Work.{
  Work, WorkError, put_work, Outcome, succeeded, errored, from_exception, invalid_key,
  invalid_value, execute, key_not_found,
}
use node_gemfire.Region.Call.{Thrown, error, in_conversion, gemfire, nothing, holder, js_value}
use node_gemfire.Region.Callbacks.{set_error}
use node_gemfire.Region.Methods.{put}
use node_gemfire.Region.Sync.{SyncReply, put_sync, get_sync}

-- Geode's promise for an entry that was just stored.
abbrev pub Reads : {D S : Type 0} → GeodeRegion D S → Cacheable D → Cacheable D → S → Type 0
Reads {D} {S} g k c t = (u : S) × (g.get k t ≡ answered c u)

-- What `putSync` throws where the worker of `put` ends with an error: a plain Error, or Geode's
-- exception.
abbrev pub thrown_for : WorkError → Thrown
thrown_for invalid_key = error "Invalid GemFire key."
thrown_for invalid_value = error "Invalid GemFire value."
thrown_for key_not_found = error "Key not found in region."
thrown_for (from_exception e) = gemfire e

abbrev pub message_of : Thrown → List ℕ
message_of (error m) = codes m
message_of (gemfire e) = e.message
message_of _ = []

module _ {D S : Type 0} (P : Platform D) (g : GeodeRegion D S) where
  -- What `putSync` throws and returns, for the end of the worker that `put` queues.
  unfoldable pub sync_of : List Effect → Outcome D S → SyncReply D S
  sync_of log (succeeded r t) = record {
    thrown = map in_conversion log;
    returned = holder;
    state = t;
  }
  sync_of log (errored e t) = record {
    thrown = map in_conversion log ++ thrown_for e ∷ [];
    returned = nothing;
    state = t;
  }

  -- The errors of `putSync` and of the worker have the same messages.
  message_of-thrown_for : (e : WorkError) → message_of (thrown_for e) ≡ (set_error e).message
  unfolding set_error
  message_of-thrown_for invalid_key = refl
  message_of-thrown_for invalid_value = refl
  message_of-thrown_for key_not_found = refl
  message_of-thrown_for (from_exception e) = refl

  -- With an open cache and a key that does not convert to null, `putSync` does to the region what the
  -- worker of `put` does, and throws where that worker reports an error: Geode's exception, or a plain
  -- Error with the same message where the worker has an error of its own with a name.
  pub put_sync-put :
      (k v : V8Value D) (s : S)
      → is_null (gemfire_key P k).value ≡ false
      → (w : Work D) × ((put P g.name open_instance (k ∷ v ∷ [])).queued
          ≡ some (record { work = w; has_callback = false }))
        × (put_sync P g open_instance (k ∷ v ∷ []) s
            ≡ sync_of ((gemfire_key P k).log ++ (gemfire_value P v).log) (execute g w s))
        × ((e : WorkError) → message_of (thrown_for e) ≡ (set_error e).message)
  unfolding put put_sync execute sync_of
  put_sync-put k v s h = (
    put_work (gemfire_key P k).value (gemfire_value P v).value,
    refl,
    ground arith,
    message_of-thrown_for,
  )

  -- With an open cache, `putSync` of a storable value under a key that converts to a valid one without
  -- an entry in the log returns the region and throws nothing, and `getSync` of that key then returns
  -- the normal form of the value and throws nothing: where Geode accepts the value, takes the entry,
  -- and reads back the entry that it took.
  pub get_sync-put_sync :
      (k v : V8Value D) (s t : S)
      → IsWilling P
      → Storable v
      → (gemfire_key P k).log ≡ []
      → is_null (gemfire_key P k).value ≡ false
      → is_null (gemfire_value P v).value ≡ false
      → g.put (gemfire_key P k).value (gemfire_value P v).value s ≡ answered tt t
      → Reads g (gemfire_key P k).value (gemfire_value P v).value t
      → (put_sync P g open_instance (k ∷ v ∷ []) s
          ≡ record { thrown = []; returned = holder; state = t })
        × ((get_sync P g open_instance (k ∷ []) t).thrown ≡ [])
        × ((get_sync P g open_instance (k ∷ []) t).returned ≡ js_value (normal v))
  unfolding put_sync get_sync
  get_sync-put_sync k v s t w h l kn vn p (u, q) =
      let (quiet, back) = v8_value-gemfire_value P w v h in
      (ground arith, ground arith, ground arith)

  -- An array is stored whatever its elements are: `put` queues the worker even if the conversion of
  -- an element has thrown.
  pub put-array_queued :
      (k : V8Value D) (vs : V8Items D)
      → (put P g.name open_instance (k ∷ array vs ∷ [])).queued
        ≡ some (record {
          work = put_work (gemfire_key P k).value (array_list (gemfire_items P vs).value);
          has_callback = false;
        })
  unfolding put gemfire_value
  put-array_queued k vs = refl
