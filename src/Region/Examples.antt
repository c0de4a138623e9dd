-- ===== src/Region/Examples.antt =====
-- The theorems about src/region.cpp for a region that is a list of entries, the newest first.
use node_gemfire.Base.{
  true, ◌≡◌, refl, ℤ, pos, Bool, false, List, [], ◌∷◌, ◌++◌, some, map, if◌then◌else◌,
}
use node_gemfire.Conversions.Data.{
  V8Value, V8Fields, field, end, Cacheable, Exception, same_key, wide_string, string, number,
  null_ptr, cacheable_double,
}
use node_gemfire.Conversions.ToGemfire.{gemfire_key, gemfire_value}
use node_gemfire.Conversions.RoundTrip.{normal}
use node_gemfire.Conversions.Examples.{plain, plain-IsWilling, sample, sample-Storable}
use node_gemfire.Region.Geode.{closed_instance, answered, threw, GeodeRegion, open_instance}
use node_gemfire.Region.Work.{
  Work, WorkError, Job, put_work, errored, from_exception, execute, Outcome, complete, error_event,
}
use node_gemfire.Region.Call.{holder, js_value}
use node_gemfire.Region.Methods.{put, put_method, call}
use node_gemfire.Region.Sync.{put_sync, get_sync}
use node_gemfire.Region.Laws.Calls.{complete-call}
use node_gemfire.Region.Laws.Signatures.{Answers, call-signature}
use node_gemfire.Region.Laws.Bulk.{entries_of}
use node_gemfire.Region.Laws.Store.{
  put_sync-put, get_sync-put_sync, sync_of, message_of, thrown_for,
}
use node_gemfire.Region.Callbacks.{set_error}

abbrev pub Entries : Type 0
Entries = List (Cacheable ℤ × Cacheable ℤ)

abbrev same : Cacheable ℤ → Cacheable ℤ → Bool
same (wide_string s) (wide_string t) = same_key s t
same _ _ = false

abbrev find : Cacheable ℤ → Entries → Cacheable ℤ
find k [] = null_ptr
find k ((j, c) ∷ s) = if same j k then c else find k s

abbrev refusal : Exception
refusal = record { exception_name = b'E' ∷ []; message = b'n' ∷ b'o' ∷ [] }

abbrev pub shelf : GeodeRegion ℤ Entries
shelf = record {
  name = b'r' ∷ [];
  is_entry_not_found = λ e. false;
  check_open = λ s. answered tt s;
  clear = λ s. answered tt [];
  put = λ k c s. answered tt ((k, c) ∷ s);
  get = λ k s. answered (find k s) s;
  get_all = λ ks s. answered (map (λ k. (k, find k s)) ks) s;
  put_all = λ m s. answered tt (m ++ s);
  destroy = λ k s. threw refusal s;
  query = λ q s. threw refusal s;
  select_value = λ q s. threw refusal s;
  exists_value = λ q s. threw refusal s;
  server_keys = λ s. answered (map (λ e. e.0) s) s;
  keys = λ s. answered (map (λ e. e.0) s) s;
  values = λ s. answered (map (λ e. e.1) s) s;
  entries = λ r s. answered s s;
  destroy_region = λ s. answered tt [];
  local_destroy_region = λ s. answered tt [];
  register_all_keys = λ s. answered tt s;
  unregister_all_keys = λ s. answered tt s;
}

abbrev pub a_key : V8Value ℤ
a_key = string (b'k' ∷ [])

call-signature_example :
    Answers true (call plain (b'r' ∷ []) open_instance put_method (a_key ∷ sample ∷ []))
call-signature_example =
    call-signature plain (b'r' ∷ []) open_instance put_method (a_key ∷ sample ∷ [])

-- A key alone, or a closed cache.
put_refused :
    Answers false (call plain (b'r' ∷ []) open_instance put_method (a_key ∷ []))
    × Answers false (call plain (b'r' ∷ []) closed_instance put_method (a_key ∷ sample ∷ []))
put_refused = (
  call-signature plain (b'r' ∷ []) open_instance put_method (a_key ∷ []),
  call-signature plain (b'r' ∷ []) closed_instance put_method (a_key ∷ sample ∷ []),
)

abbrev put_job : Job ℤ
put_job = record {
  work = put_work (wide_string (b'k' ∷ [])) (cacheable_double (pos 3));
  has_callback = false;
}

abbrev refused_put : Outcome ℤ Entries
refused_put = errored (from_exception refusal) []

-- A `put` with no callback fails on the worker thread: the region tells of the error.
complete-call_example : complete put_job refused_put ≡ error_event (from_exception refusal) ∷ []
unfolding call put gemfire_key gemfire_value
complete-call_example =
    complete-call plain (b'r' ∷ []) open_instance put_method (a_key ∷ number (pos 3) ∷ []) put_job
      refused_put refl

put_sync-put_example :
    (w : Work ℤ) × ((put plain (b'r' ∷ []) open_instance (a_key ∷ sample ∷ [])).queued
      ≡ some (record { work = w; has_callback = false }))
    × (put_sync plain shelf open_instance (a_key ∷ sample ∷ []) []
        ≡ sync_of plain shelf
            ((gemfire_key plain a_key).log ++ (gemfire_value plain sample).log)
            (execute shelf w []))
    × ((e : WorkError) → message_of (thrown_for e) ≡ (set_error e).message)
unfolding gemfire_key
put_sync-put_example = put_sync-put plain shelf a_key sample [] refl

abbrev pub stored : Entries
stored = ((gemfire_key plain a_key).value, (gemfire_value plain sample).value) ∷ []

get_sync-put_sync_example :
    (put_sync plain shelf open_instance (a_key ∷ sample ∷ []) []
      ≡ record { thrown = []; returned = holder; state = stored })
    × ((get_sync plain shelf open_instance (a_key ∷ []) stored).thrown ≡ [])
    × ((get_sync plain shelf open_instance (a_key ∷ []) stored).returned ≡ js_value (normal sample))
unfolding gemfire_key gemfire_value
get_sync-put_sync_example =
    get_sync-put_sync plain shelf a_key sample [] stored plain-IsWilling sample-Storable refl refl
      refl refl (stored, refl)

-- Two properties, one of them an object.
abbrev two_fields : V8Fields ℤ
two_fields = field (b'a' ∷ []) (number (pos 3)) (field (b'b' ∷ []) sample end)

abbrev two_back : V8Fields ℤ
two_back = field (b'b' ∷ []) sample (field (b'a' ∷ []) (number (pos 3)) end)

-- A region whose maps are walked from the last key to the first.
abbrev backward : GeodeRegion ℤ Entries
backward = record shelf { get_all = λ ks s. answered (entries_of plain two_back) s }

abbrev two_stored : Entries
two_stored = entries_of plain two_fields
