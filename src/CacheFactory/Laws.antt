-- ===== src/CacheFactory/Laws.antt =====
-- What the setters of src/cache_factory.cpp do with their arguments.
use mathlib.Core.Option
use node_gemfire.Base.{◌≡◌, ◌≢◌, refl, Option, some, [], ◌∷◌, arith}
use node_gemfire.Conversions.Data.{V8Value, undefined}
use node_gemfire.CacheFactory.{
  Factory, Coercions, Setting, FactoryReply, apply_just, server_group, int_setting, long_setting,
  bool_setting, free_connection_timeout, idle_timeout, load_conditioning_interval, max_connections,
  min_connections, pdx_ignore_unread_fields, ping_interval, pr_single_hop_enabled, read_timeout,
  retry_attempts, socket_buffer_size, statistic_interval, subscription_ack_interval,
  subscription_enabled, subscription_message_tracking_timeout, subscription_redundancy,
  thread_local_connections, update_locator_list_interval,
}
use node_gemfire.CacheFactory.Setters.{
  Setter, call_setter, server_group_setter, free_connection_timeout_setter, idle_timeout_setter,
  load_conditioning_interval_setter, max_connections_setter, min_connections_setter,
  pdx_ignore_unread_fields_setter, ping_interval_setter, pr_single_hop_enabled_setter,
  read_timeout_setter, retry_attempts_setter, socket_buffer_size_setter, statistic_interval_setter,
  subscription_ack_interval_setter, subscription_enabled_setter,
  subscription_message_tracking_timeout_setter, subscription_redundancy_setter,
  thread_local_connections_setter, update_locator_list_interval_setter,
}

-- The setting that a setter is there for, from a value that V8 converts.
unfoldable pub setting_of : {D : Type 0} → Coercions D → Setter → V8Value D → Option Setting
setting_of C free_connection_timeout_setter v =
    Option.map (int_setting free_connection_timeout) (C.to_int v)
setting_of C idle_timeout_setter v = Option.map (int_setting idle_timeout) (C.to_int v)
setting_of C load_conditioning_interval_setter v =
    Option.map (int_setting load_conditioning_interval) (C.to_int v)
setting_of C max_connections_setter v = Option.map (int_setting max_connections) (C.to_int v)
setting_of C min_connections_setter v = Option.map (int_setting min_connections) (C.to_int v)
setting_of C pdx_ignore_unread_fields_setter v =
    Option.map (bool_setting pdx_ignore_unread_fields) (C.to_bool v)
setting_of C ping_interval_setter v = Option.map (long_setting ping_interval) (C.to_long v)
setting_of C pr_single_hop_enabled_setter v =
    Option.map (bool_setting pr_single_hop_enabled) (C.to_bool v)
setting_of C read_timeout_setter v = Option.map (int_setting read_timeout) (C.to_int v)
setting_of C retry_attempts_setter v = Option.map (int_setting retry_attempts) (C.to_int v)
setting_of C socket_buffer_size_setter v = Option.map (int_setting socket_buffer_size) (C.to_int v)
setting_of C statistic_interval_setter v = Option.map (int_setting statistic_interval) (C.to_int v)
setting_of C subscription_ack_interval_setter v =
    Option.map (int_setting subscription_ack_interval) (C.to_int v)
setting_of C subscription_enabled_setter v =
    Option.map (bool_setting subscription_enabled) (C.to_bool v)
setting_of C subscription_message_tracking_timeout_setter v =
    Option.map (int_setting subscription_message_tracking_timeout) (C.to_int v)
setting_of C subscription_redundancy_setter v =
    Option.map (int_setting subscription_redundancy) (C.to_int v)
setting_of C thread_local_connections_setter v =
    Option.map (bool_setting thread_local_connections) (C.to_bool v)
setting_of C update_locator_list_interval_setter v =
    Option.map (long_setting update_locator_list_interval) (C.to_long v)
setting_of C server_group_setter v = some (server_group (C.to_utf8 v))

-- What a call comes to that makes a setting: none if the conversion fails, which ends the process.
abbrev pub set_or_abort : Option Setting → Factory → FactoryReply
set_or_abort o f = apply_just o (λ s. s) f

module _ {D : Type 0} (C : Coercions D) where
  -- Called with one argument, every setter but `setServerGroup` throws nothing, ignores the argument
  -- and makes its setting from undefined, or ends the process if V8 does not convert undefined.
  pub call_setter_one :
      (s : Setter) (v : V8Value D) (f : Factory)
      → s ≢ server_group_setter
      → call_setter C s (v ∷ []) f ≡ set_or_abort (setting_of C s undefined) f
  unfolding call_setter setting_of
  call_setter_one server_group_setter v f h = absurd (h refl)
  call_setter_one _ v f h = ground arith
