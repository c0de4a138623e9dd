-- ===== src/Entry/Load/Examples.antt =====
-- Loading with an EventEmitter of two methods.
use node_gemfire.Base.{ℕ, List, [], ◌∷◌, none, some, ◌≡◌, refl, codes}
use node_gemfire.Region.Methods.{put_method}
use node_gemfire.Binding.{
  queueing, Export, text, connected_function, class, select_results_class, get_cache_function,
  region_prototype,
}
use node_gemfire.Binding.Properties.{Property, Change, assign, delete, read, change_all}
use node_gemfire.Entry.Load.{
  native, inherited, Loaded, load_binding, emitter_method, load_binding-reaches, load_binding-keeps,
}

-- `on` and `emit`, numbered.
abbrev emitter_prototype : List (List ℕ × ℕ)
emitter_prototype = (codes "on", 1) ∷ (codes "emit", 2) ∷ []

abbrev loaded : Loaded ℕ
loaded = load_binding (codes "9") emitter_prototype

abbrev changes : List (Change Export)
changes =
    assign (codes "version") get_cache_function
    ∷ delete (codes "connected")
    ∷ delete (codes "configure")
    ∷ []

-- What is left for JavaScript when the module is loaded.
classes_hidden : read (codes "Cache") loaded.initialized.gemfire ≡ none
unfolding load_binding read
classes_hidden = refl

results_exported :
    read (codes "SelectResults") loaded.initialized.gemfire ≡ some (class select_results_class)
unfolding load_binding read
results_exported = refl

configure_deleted : read (codes "configure") (change_all changes loaded.initialized.gemfire) ≡ none
unfolding load_binding change_all read
configure_deleted = refl

load_binding-reaches_example :
    (read (codes "put") loaded.region_methods ≡ some (native (queueing put_method)))
    × (emitter_method (codes "put") emitter_prototype loaded.initialized ≡ none)
unfolding region_prototype
load_binding-reaches_example = load_binding-reaches (codes "9") (codes "put") emitter_prototype

emit_reached :
    (read (codes "emit") loaded.region_methods ≡ some (inherited 2))
    × (emitter_method (codes "emit") emitter_prototype loaded.initialized ≡ some 2)
unfolding region_prototype
emit_reached = load_binding-reaches (codes "9") (codes "emit") emitter_prototype

unfoldable changed : List (Property Export)
unfolding load_binding change_all
changed = change_all changes loaded.initialized.gemfire

load_binding-keeps_example :
    (read (codes "version") changed ≡ some (text (codes "1.0.1")))
    × (read (codes "gemfireVersion") changed ≡ some (text (codes "9")))
    × (read (codes "connected") changed ≡ some connected_function)
unfolding changed
load_binding-keeps_example = load_binding-keeps (codes "9") emitter_prototype changes changed refl
