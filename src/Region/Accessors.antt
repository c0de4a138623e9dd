-- ===== src/Region/Accessors.antt =====
-- src/region.cpp: Name, Inspect and Attributes, which only read.
use node_gemfire.Base.{ℕ, ℤ, Bool, List, ◌++◌, Option, none, some, codes}
use node_gemfire.Conversions.Data.{
  V8Value, Platform, string, boolean, number, null, object, end, field,
}

-- Geode's RegionAttributes; policies and actions are ordinals.
pub record RegionAttributes (D : Type 0) : Type 0 where
  pub caching_enabled : Bool
  pub client_notification_enabled : Bool
  pub concurrency_checks_enabled : Bool
  pub concurrency_level : ℤ
  pub disk_policy : ℕ
  pub entry_idle_timeout : ℤ
  pub entry_time_to_live : ℤ
  pub initial_capacity : ℤ
  pub load_factor : D
  pub lru_entries_limit : ℤ
  pub lru_eviction_action : ℕ
  pub pool_name : Option (List ℕ)  -- nothing is NULL
  pub region_idle_timeout : ℤ
  pub region_time_to_live : ℤ

-- Geode's names of ordinals.
pub record GeodeNames : Type 0 where
  pub disk_policy_name : ℕ → List ℕ  -- DiskPolicyType::fromOrdinal
  pub expiration_action_name : ℕ → List ℕ  -- ExpirationAction::fromOrdinal

module _ {D : Type 0} (P : Platform D) where
  abbrev text : List ℕ → V8Value D
  text s = string (P.utf8_decode s)

  abbrev int : ℤ → V8Value D
  int n = number (P.double_of_int n)

  abbrev pool : Option (List ℕ) → V8Value D
  pool none = null
  pool (some s) = text s

  unfoldable pub name : List ℕ → V8Value D
  name s = text s

  unfoldable pub inspect : List ℕ → V8Value D
  inspect s = text (codes "[Region name=\"" ++ s ++ codes "\"]")

  unfoldable pub attributes : GeodeNames → RegionAttributes D → V8Value D
  attributes N A = object (
      field (codes "cachingEnabled") (boolean A.caching_enabled) (
        field (codes "clientNotificationEnabled") (boolean A.client_notification_enabled) (
          field (codes "concurrencyChecksEnabled") (boolean A.concurrency_checks_enabled) (
            field (codes "concurrencyLevel") (int A.concurrency_level) (
              field (codes "diskPolicy") (text (N.disk_policy_name A.disk_policy)) (
                field (codes "entryIdleTimeout") (int A.entry_idle_timeout) (
                  field (codes "entryTimeToLive") (int A.entry_time_to_live) (
                    field (codes "initialCapacity") (int A.initial_capacity) (
                      field (codes "loadFactor") (number A.load_factor) (
                        field (codes "lruEntriesLimit") (int A.lru_entries_limit) (
                          field (codes "lruEvicationAction")
                            (text (N.expiration_action_name A.lru_eviction_action))
                            (field (codes "poolName") (pool A.pool_name) (
                              field (codes "regionIdleTimeout") (int A.region_idle_timeout) (
                                field (codes "regionTimeToLive") (int A.region_time_to_live)
                                  end))))))))))))))
