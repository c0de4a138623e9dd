-- ===== src/Entry/Count.antt =====
-- How many caches the calls of lib/binding.js make.
use Prim.Native.String.{String}
use node_gemfire.Base.{
  length-append_one, true, false, ℕ, suc, ◌+◌, ◌≤◌, ◌≡◌, refl, List, [], ◌∷◌, Option, none, some,
  arith, length, get_elem?, if◌then◌else◌, ◌==◌,
}
use node_gemfire.Conversions.Data.{V8Value}
use node_gemfire.CacheFactory.{
  Factory, FactoryReply, Coercions, new_factory, set, add_locator, add_server,
}
use node_gemfire.CacheFactory.Setters.{call_setter}
use node_gemfire.Binding.{
  FactoryMethod, setting, add_locator_slot, add_server_slot, create_slot, set_slot,
}
use node_gemfire.Entry.{
  keep_setting, Made, Entry, EntryCall, configure, create_cache_factory, call_factory, get_cache,
  EntryReply, nothing, threw, a_cache, new_entry, Maker, made_of, process_ended, call_running,
  make_cache, unless_made, create_set, configured, factory_made, on_factory, call_entry, run_calls,
}
use node_gemfire.Entry.Laws.{Kept, newest, call_entry-Kept}

-- Whether a call is `create` of a factory.
abbrev pub is_create : {D : Type 0} → EntryCall D → ℕ
is_create (call_factory n create_slot info) = 1
is_create _ = 0

-- The calls of `create`.
abbrev pub creates : {D : Type 0} → List (EntryCall D) → ℕ
creates [] = 0
creates (c ∷ cs) = is_create c + creates cs

-- The caches, counted as one if there is none yet.
abbrev counted : Entry → ℕ
counted s = if length s.caches == 0 then 1 else length s.caches

newest-none : (cs : List Made) → none ≡ newest cs → length cs ≡ 0
newest-none [] h = refl
newest-none (c ∷ cs) h = cc

length-make_cache :
    (makes : Maker) (f : Factory) (s : Entry)
    → length (make_cache makes f s).0.caches ≤ suc (length s.caches)
unfolding make_cache
length-make_cache makes f s = ground (arith, length-append_one s.caches (made_of f))

length-keep_setting :
    (n : ℕ) (s : Entry) (r : FactoryReply) → length (keep_setting n s r).0.caches ≡ length s.caches
length-keep_setting n s r = ground arith

module _ {D : Type 0} (C : Coercions D) (makes : Maker) where
  length-on_factory :
      (n : ℕ) (m : FactoryMethod) (info : List (V8Value D)) (f : Factory) (s : Entry)
      → length (on_factory C makes n m info f s).0.caches
        ≤ is_create (call_factory n m info) + length s.caches
  unfolding on_factory
  length-on_factory n (setting k) info f s =
      omega (arith, length-keep_setting n s (call_setter C k info f))
  length-on_factory n add_locator_slot info f s =
      omega (arith, length-keep_setting n s (add_locator C info f))
  length-on_factory n add_server_slot info f s =
      omega (arith, length-keep_setting n s (add_server C info f))
  length-on_factory n set_slot info f s = omega (arith, length-keep_setting n s (set C info f))
  length-on_factory n create_slot info f s = omega (arith, length-make_cache makes f s)

  length-configured :
      (xml props : V8Value D) (s : Entry)
      → length (configured C makes xml props s).0.caches ≤ suc (length s.caches)
  unfolding configured new_factory set create_set
  length-configured xml props s = search (length-make_cache)

  length-factory_made :
      (props : V8Value D) (s : Entry)
      → length (factory_made C makes props s).0.caches ≤ suc (length s.caches)
  unfolding factory_made new_factory
  length-factory_made props s = omega arith

  unless_made-counted :
      (o : Option ℕ) (m : String) (s : Entry) (r : Entry × EntryReply)
      → o ≡ newest s.caches
      → length r.0.caches ≤ suc (length s.caches)
      → counted (unless_made o m s r).0 ≤ 0 + counted s
  unless_made-counted none m s r e h = ground (arith, newest-none s.caches)
  unless_made-counted (some k) m s r e h = omega arith

  counted-found :
      (n : ℕ) (m : FactoryMethod) (info : List (V8Value D)) (s : Entry) (o : Option Factory)
      → counted
          (elim o as (λ k. Entry × EntryReply) [
            | none ↦ (s, nothing)
            | some f ↦ on_factory C makes n m info f s
          ]).0
        ≤ is_create (call_factory n m info) + counted s
  counted-found n m info s none = omega arith
  counted-found n m info s (some f) = ground (arith, length-on_factory n m info f s)

  counted-asked :
      (s : Entry) (o : Option ℕ)
      → counted
          (elim o as (λ k. Entry × EntryReply) [
            | none ↦ (s, threw "gemfire: You must call configure() before calling getCache().")
            | some k ↦ (s, a_cache k)
          ]).0
        ≤ 0 + counted s
  counted-asked s none = omega arith
  counted-asked s (some k) = omega arith

  counted-call_running :
      (c : EntryCall D) (s : Entry)
      → Kept s
      → counted (call_running C makes c s).0 ≤ is_create c + counted s
  unfolding call_running
  counted-call_running (configure xml props) s k =
      unless_made-counted s.cache_singleton _ s (configured C makes xml props s) k.newest_kept
        (length-configured xml props s)
  counted-call_running (create_cache_factory props) s k =
      unless_made-counted s.cache_singleton _ s (factory_made C makes props s) k.newest_kept
        (length-factory_made props s)
  counted-call_running (call_factory n m info) s k =
      counted-found n m info s (get_elem? s.factories n)
  counted-call_running get_cache s k = counted-asked s s.cache_singleton

  counted-call_entry :
      (c : EntryCall D) (s : Entry)
      → Kept s
      → counted (call_entry C makes c s).0 ≤ is_create c + counted s
  unfolding call_entry
  counted-call_entry c s k =
      elim (s.running)
        as (λ b.
          counted (if b then call_running C makes c s else (s, process_ended)).0
          ≤ is_create c + counted s) [ true ↦ counted-call_running c s k | false ↦ omega arith ]

  counted-run_calls :
      (cs : List (EntryCall D)) (s : Entry)
      → Kept s
      → counted (run_calls C makes cs s) ≤ creates cs + counted s
  unfolding run_calls
  counted-run_calls [] s k = omega arith
  counted-run_calls (c ∷ cs) s k = omega (
    arith,
    counted-call_entry c s k,
    counted-run_calls cs (call_entry C makes c s).0 (call_entry-Kept C makes c s k),
  )

  -- After any calls from the start on, there is at most one cache more than there were calls of
  -- `create` of a factory: configure makes one at most.
  pub length-run_calls :
      (cs : List (EntryCall D)) (s : Entry)
      → run_calls C makes cs new_entry ≡ s
      → length s.caches ≤ suc (creates cs)
  length-run_calls cs s e =
      let start : Kept new_entry = record { newest_kept = refl; callbacks = tt } in
      ground (arith, counted-run_calls cs new_entry start)
