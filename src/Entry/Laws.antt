-- ===== src/Entry/Laws.antt =====
-- Properties of lib/binding.js.
use Prim.Native.String.{String}
use node_gemfire.Base.{
  length-append_one, Bool-cases, ◌⊎◌, inl, inr, sym, ℕ, zero, suc, ◌≡◌, ◌≢◌, refl, ap, ◌∙◌, subst,
  Bool, true, false, not, List, [], ◌∷◌, ◌++◌, Option, none, some, arith, length, get_elem?,
  is_empty, All, codes, if◌then◌else◌,
}
use node_gemfire.Conversions.Data.{V8Value, string}
use node_gemfire.CacheFactory.{
  Factory, FactoryReply, Coercions, is_string, new_factory, add_locator, add_server, set, create,
}
use node_gemfire.CacheFactory.Setters.{Setter, call_setter}
use node_gemfire.Binding.{
  FactoryMethod, setting, add_locator_slot, add_server_slot, create_slot, set_slot,
}
use node_gemfire.Entry.{
  Made, Entry, EntryCall, configure, create_cache_factory, call_factory, get_cache, EntryReply,
  a_cache, nothing, threw, process_ended, new_entry, replace, Maker, make_cache, made_of,
  returned_of, keep_setting, unless_made, create_set, configured, factory_made, on_factory,
  call_running, call_entry, run_calls,
}

abbrev pub newest : List Made → Option ℕ
newest [] = none
newest (c ∷ cs) = some (length cs)

newest_old : (cs : List Made) → newest cs ≢ some (length cs)
newest_old [] h = cc
newest_old (c ∷ cs) h = ground arith

newest-append : (cs : List Made) (c : Made) → newest (cs ++ c ∷ []) ≡ some (length cs)
newest-append [] c = refl
newest-append (b ∷ cs) c = ap some (length-append_one cs c)

abbrev pub is_threw : EntryReply → Bool
is_threw (threw m) = true
is_threw _ = false

module _ {D : Type 0} (C : Coercions D) where
  -- No setter takes the callback away.
  call_setter-has_callback :
      (k : Setter) (info : List (V8Value D)) (f : Factory)
      → (call_setter C k info f).factory.has_callback ≡ f.has_callback
  unfolding call_setter
  call_setter-has_callback _ info f = ground arith

-- `cacheSingleton` is the newest cache, and every factory has its callback.
pub record Kept (s : Entry) : Type 0 where
  pub newest_kept : s.cache_singleton ≡ newest s.caches
  pub callbacks : All (λ f. f.has_callback ≡ true) s.factories

callback_at :
    (fs : List Factory) (n : ℕ) (f : Factory)
    → All (λ f. f.has_callback ≡ true) fs
    → get_elem? fs n ≡ some f
    → f.has_callback ≡ true
callback_at [] n f h e = cc
callback_at (g ∷ fs) zero f h e = ground arith
callback_at (g ∷ fs) (suc n) f h e = callback_at fs n f h.1 e

callbacks-replace :
    (fs : List Factory) (n : ℕ) (f : Factory)
    → All (λ f. f.has_callback ≡ true) fs
    → f.has_callback ≡ true
    → All (λ f. f.has_callback ≡ true) (replace fs n f)
callbacks-replace [] n f h e = tt
callbacks-replace (g ∷ fs) zero f h e = (e, h.1)
callbacks-replace (g ∷ fs) (suc n) f h e = (h.0, callbacks-replace fs n f h.1 e)

callbacks-append :
    (fs : List Factory) (f : Factory)
    → All (λ f. f.has_callback ≡ true) fs
    → f.has_callback ≡ true
    → All (λ f. f.has_callback ≡ true) (fs ++ f ∷ [])
callbacks-append [] f h e = (e, tt)
callbacks-append (g ∷ fs) f h e = (h.0, callbacks-append fs f h.1 e)

make_cache-Kept :
    (makes : Maker) (f : Factory) (s : Entry)
    → f.has_callback ≡ true
    → Kept s
    → Kept (make_cache makes f s).0
unfolding make_cache create
make_cache-Kept makes f s h k = elim (Bool-cases (makes s.caches (made_of f))) [
  | inl yes_made ↦ rw yes_made (record {
    newest_kept = rw h (sym (newest-append s.caches (made_of f)));
    callbacks = k.callbacks;
  })
  | inr not_made ↦ rw not_made (record { newest_kept = k.newest_kept; callbacks = k.callbacks })
]

set_case :
    (makes : Maker) (thrown : Option String) (f : Factory) (s : Entry)
    → f.has_callback ≡ true
    → Kept s
    → Kept
        (elim thrown as (λ o. Entry × EntryReply) [
          | some m ↦ (s, threw m)
          | none ↦ ((make_cache makes f s).0, returned_of (make_cache makes f s).1)
        ]).0
set_case makes none f s h k = make_cache-Kept makes f s h k
set_case makes (some m) f s h k = k

create_set-Kept :
    (makes : Maker) (r : FactoryReply) (s : Entry)
    → r.factory.has_callback ≡ true
    → Kept s
    → Kept (create_set makes r s).0
unfolding create_set
create_set-Kept makes r s h k = set_case makes r.thrown r.factory s h k

keep_setting-Kept :
    (n : ℕ) (s : Entry) (r : FactoryReply)
    → r.factory.has_callback ≡ true
    → Kept s
    → Kept (keep_setting n s r).0
keep_setting-Kept n s r h k = elim (Bool-cases r.aborts) [
  | inl y ↦ rw y (record { newest_kept = k.newest_kept; callbacks = k.callbacks })
  | inr y ↦ rw y (record {
    newest_kept = k.newest_kept;
    callbacks = callbacks-replace s.factories n r.factory k.callbacks h;
  })
]

module _ {D : Type 0} (C : Coercions D) (makes : Maker) where
  on_factory-Kept :
      (n : ℕ) (m : FactoryMethod) (info : List (V8Value D)) (f : Factory) (s : Entry)
      → f.has_callback ≡ true
      → Kept s
      → Kept (on_factory C makes n m info f s).0
  unfolding on_factory
  on_factory-Kept n (setting j) info f s h k =
      keep_setting-Kept n s (call_setter C j info f) (call_setter-has_callback C j info f ∙ h) k
  on_factory-Kept n add_locator_slot info f s h k =
      keep_setting-Kept n s (add_locator C info f) (ground arith) k
  on_factory-Kept n add_server_slot info f s h k =
      keep_setting-Kept n s (add_server C info f) (ground arith) k
  on_factory-Kept n set_slot info f s h k = keep_setting-Kept n s (set C info f) (ground arith) k
  on_factory-Kept n create_slot info f s h k = make_cache-Kept makes f s h k

  unless_made-Kept :
      (o : Option ℕ) (m : String) (s : Entry) (r : Entry × EntryReply)
      → Kept s
      → Kept r.0
      → Kept (unless_made o m s r).0
  unless_made-Kept none m s r p q = q
  unless_made-Kept (some k) m s r p q = p

  configured-Kept :
      (xml props : V8Value D) (s : Entry) → Kept s → Kept (configured C makes xml props s).0
  unfolding configured new_factory set
  configured-Kept xml props s k =
      let f : Factory = record {
        properties = if is_string props then some (C.to_utf8 props) else none;
        settings = [];
        has_callback = true;
      } in
      create_set-Kept makes (set C (string (codes "cache-xml-file") ∷ xml ∷ []) f) s refl k

  factory_made-Kept :
      (props : V8Value D) (s : Entry) → Kept s → Kept (factory_made C makes props s).0
  unfolding factory_made new_factory
  factory_made-Kept props s k = record {
    newest_kept = k.newest_kept;
    callbacks = callbacks-append s.factories _ k.callbacks refl;
  }

  factory-Kept :
      (n : ℕ) (m : FactoryMethod) (info : List (V8Value D)) (s : Entry) (o : Option Factory)
      → Kept s
      → ((f : Factory)
          → All (λ f. f.has_callback ≡ true) s.factories
          → o ≡ some f
          → f.has_callback ≡ true)
      → Kept
          (elim o as (λ k. Entry × EntryReply) [
            | none ↦ (s, nothing)
            | some f ↦ on_factory C makes n m info f s
          ]).0
  factory-Kept n m info s none k h = k
  factory-Kept n m info s (some f) k h = on_factory-Kept n m info f s (h f k.callbacks refl) k

  asked-Kept :
      (s : Entry) (o : Option ℕ)
      → Kept s
      → Kept
          (elim o as (λ k. Entry × EntryReply) [
            | none ↦ (s, threw "gemfire: You must call configure() before calling getCache().")
            | some k ↦ (s, a_cache k)
          ]).0
  asked-Kept s none k = k
  asked-Kept s (some j) k = k

  call_running-Kept : (c : EntryCall D) (s : Entry) → Kept s → Kept (call_running C makes c s).0
  unfolding call_running new_factory set
  call_running-Kept (configure xml props) s k =
      unless_made-Kept s.cache_singleton _ s (configured C makes xml props s) k
        (configured-Kept xml props s k)
  call_running-Kept (create_cache_factory props) s k =
      unless_made-Kept s.cache_singleton _ s (factory_made C makes props s) k
        (factory_made-Kept props s k)
  call_running-Kept (call_factory n m info) s k =
      factory-Kept n m info s (get_elem? s.factories n) k (callback_at s.factories n)
  call_running-Kept get_cache s k = asked-Kept s s.cache_singleton k

  pub call_entry-Kept : (c : EntryCall D) (s : Entry) → Kept s → Kept (call_entry C makes c s).0
  unfolding call_entry
  call_entry-Kept c s k =
      elim (s.running)
        as (λ b. Kept (if b then call_running C makes c s else (s, process_ended)).0) [
          | true ↦ call_running-Kept c s k
          | false ↦ k
        ]

  run_calls-Kept : (cs : List (EntryCall D)) (s : Entry) → Kept s → Kept (run_calls C makes cs s)
  unfolding run_calls
  run_calls-Kept [] s k = k
  run_calls-Kept (c ∷ cs) s k = run_calls-Kept cs (call_entry C makes c s).0 (call_entry-Kept c s k)

  pub reached-Kept :
      (cs : List (EntryCall D)) (s : Entry) → run_calls C makes cs new_entry ≡ s → Kept s
  unfolding run_calls
  reached-Kept cs s e =
      let start : Kept new_entry = record { newest_kept = refl; callbacks = tt } in
      subst Kept e (run_calls-Kept cs new_entry start)

  -- After any calls from the start on, while the process runs, getCache returns the newest cache, or
  -- throws if there is none, and configure and createCacheFactory throw an error exactly if there is a
  -- cache.
  pub get_cache-run_calls :
      (cs : List (EntryCall D)) (xml props : V8Value D) (s : Entry)
      → run_calls C makes cs new_entry ≡ s
      → s.running ≡ true
      → (call_entry C makes get_cache s ≡ (elim (newest s.caches) [
        | none ↦ (s, threw "gemfire: You must call configure() before calling getCache().")
        | some k ↦ (s, a_cache k)
      ]))
        × (is_threw (call_entry C makes (configure xml props) s).1 ≡ not (is_empty s.caches))
        × (is_threw (call_entry C makes (create_cache_factory props) s).1 ≡ not (is_empty s.caches))
  unfolding call_entry new_factory set
  get_cache-run_calls cs xml props s e running =
      let e : s.cache_singleton ≡ newest s.caches = (reached-Kept cs s e).newest_kept in
      (ground arith, ground arith, ground arith)

  -- After any calls from the start on, while the process runs, a call of `create` of any factory that
  -- was made before makes getCache return a new cache, also if it returned another one; or, if Geode
  -- throws, it ends the process, and no call does anything from then on.
  pub create-replaces :
      (cs : List (EntryCall D)) (n : ℕ) (f : Factory) (info : List (V8Value D)) (s t : Entry)
      → run_calls C makes cs new_entry ≡ s
      → s.running ≡ true
      → get_elem? s.factories n ≡ some f
      → (call_entry C makes (call_factory n create_slot info) s).0 ≡ t
      → ((makes s.caches (made_of f) ≡ true)
          × ((call_entry C makes get_cache t).1 ≡ a_cache (length s.caches))
          × ((call_entry C makes get_cache s).1 ≢ a_cache (length s.caches)))
        ⊎ ((makes s.caches (made_of f) ≡ false)
            × ((c : EntryCall D) → call_entry C makes c t ≡ (t, process_ended)))
  unfolding call_entry on_factory
  create-replaces cs n f info s t e running h r =
      let k : Kept s = reached-Kept cs s e in
      let calls_back : f.has_callback ≡ true = callback_at s.factories n f k.callbacks h in
      let kept : s.cache_singleton ≡ newest s.caches = k.newest_kept in
      elim (Bool-cases (makes s.caches (made_of f))) [
        | inl yes_made ↦ inl (yes_made, ground arith, ground (arith, newest_old s.caches))
        | inr not_made ↦ inr (not_made, λ c. ground arith)
      ]
