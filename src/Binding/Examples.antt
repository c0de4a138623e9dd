-- ===== src/Binding/Examples.antt =====
-- Names of src/binding.cpp and of the classes.
use node_gemfire.Base.{◌≡◌, refl, some, codes}
use node_gemfire.Region.Methods.{query_method, select_value_kind}
use node_gemfire.CacheFactory.Setters.{ping_interval_setter}
use node_gemfire.Binding.{region_prototype, cache_factory_prototype, queueing, setting}
use node_gemfire.Binding.Properties.{under}

select_value_reached :
    under (codes "selectValue") region_prototype ≡ some (queueing (query_method select_value_kind))
unfolding region_prototype
select_value_reached = refl

ping_interval_reached :
    under (codes "setPingInterval") cache_factory_prototype ≡ some (setting ping_interval_setter)
unfolding cache_factory_prototype
ping_interval_reached = refl
