-- ===== src/Region/Geode.antt =====
-- Code that is not in the repository and that src/region.cpp calls: Geode's region, as a state with
-- operations that answer or throw, and the cache that `CacheFactory::getAnyInstance` finds.
use node_gemfire.Base.{ℕ, Bool, List}
use node_gemfire.Conversions.Data.{Cacheable, Exception}

-- What a call of Geode comes to; an exception too may leave another state behind.
pub data Answer (S A : Type 0) : Type 0 where
  answered : A → S → Answer S A
  threw : Exception → S → Answer S A

pub record GeodeRegion (D S : Type 0) : Type 0 where
  pub name : List ℕ
  pub is_entry_not_found : Exception → Bool  -- the exception is an EntryNotFoundException
  pub check_open : S → Answer S (Unit {0})  -- getRegionService()->isClosed(), for its exception
  pub clear : S → Answer S (Unit {0})
  pub put : Cacheable D → Cacheable D → S → Answer S (Unit {0})
  pub get : Cacheable D → S → Answer S (Cacheable D)
  pub get_all : List (Cacheable D) → S → Answer S (List (Cacheable D × Cacheable D))
  pub put_all : List (Cacheable D × Cacheable D) → S → Answer S (Unit {0})
  pub destroy : Cacheable D → S → Answer S (Unit {0})
  pub query : List ℕ → S → Answer S (List (Cacheable D))
  pub select_value : List ℕ → S → Answer S (Cacheable D)
  pub exists_value : List ℕ → S → Answer S Bool
  pub server_keys : S → Answer S (List (Cacheable D))
  pub keys : S → Answer S (List (Cacheable D))
  pub values : S → Answer S (List (Cacheable D))
  pub entries : Bool → S → Answer S (List (Cacheable D × Cacheable D))
  pub destroy_region : S → Answer S (Unit {0})
  pub local_destroy_region : S → Answer S (Unit {0})
  pub register_all_keys : S → Answer S (Unit {0})
  pub unregister_all_keys : S → Answer S (Unit {0})

pub data Instance : Type 0 where
  no_instance : Instance
  closed_instance : Instance
  open_instance : Instance
  region_destroyed : Exception → Instance  -- asking throws a RegionDestroyedException
