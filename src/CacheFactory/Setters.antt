-- ===== src/CacheFactory/Setters.antt =====
-- src/cache_factory.cpp, CacheFactory::Init: the setters by the methods that reach them.
use node_gemfire.Base.{List}
use node_gemfire.Conversions.Data.{V8Value}
use node_gemfire.CacheFactory.{
  Factory, FactoryReply, Coercions, set_free_connection_timeout, set_idle_timeout,
  set_load_conditioning_interval, set_max_connections, set_min_connections,
  set_pdx_ignore_unread_fields, set_ping_interval, set_pr_single_hop_enabled, set_read_timeout,
  set_retry_attempts, set_socket_buffer_size, set_statistic_interval, set_subscription_ack_interval,
  set_subscription_enabled, set_subscription_message_tracking_timeout, set_subscription_redundancy,
  set_thread_local_connections, set_update_locator_list_interval, set_server_group,
}

-- The setters that take one value, by their JavaScript names.
pub data Setter : Type 0 where
  free_connection_timeout_setter : Setter
  idle_timeout_setter : Setter
  load_conditioning_interval_setter : Setter
  max_connections_setter : Setter
  min_connections_setter : Setter
  pdx_ignore_unread_fields_setter : Setter
  ping_interval_setter : Setter
  pr_single_hop_enabled_setter : Setter
  read_timeout_setter : Setter
  retry_attempts_setter : Setter
  socket_buffer_size_setter : Setter
  statistic_interval_setter : Setter
  subscription_ack_interval_setter : Setter
  subscription_enabled_setter : Setter
  subscription_message_tracking_timeout_setter : Setter
  subscription_redundancy_setter : Setter
  thread_local_connections_setter : Setter
  update_locator_list_interval_setter : Setter
  server_group_setter : Setter

unfoldable pub call_setter :
    {D : Type 0} → Coercions D → Setter → List (V8Value D) → Factory → FactoryReply
unfolding set_free_connection_timeout set_idle_timeout set_load_conditioning_interval
    set_max_connections set_min_connections set_pdx_ignore_unread_fields set_ping_interval
    set_pr_single_hop_enabled set_read_timeout set_retry_attempts set_socket_buffer_size
    set_statistic_interval set_subscription_ack_interval set_subscription_enabled
    set_subscription_message_tracking_timeout set_subscription_redundancy
    set_thread_local_connections set_update_locator_list_interval set_server_group
call_setter C free_connection_timeout_setter = set_free_connection_timeout C
call_setter C idle_timeout_setter = set_idle_timeout C
call_setter C load_conditioning_interval_setter = set_load_conditioning_interval C
call_setter C max_connections_setter = set_max_connections C
call_setter C min_connections_setter = set_min_connections C
call_setter C pdx_ignore_unread_fields_setter = set_pdx_ignore_unread_fields C
call_setter C ping_interval_setter = set_ping_interval C
call_setter C pr_single_hop_enabled_setter = set_pr_single_hop_enabled C
call_setter C read_timeout_setter = set_read_timeout C
call_setter C retry_attempts_setter = set_retry_attempts C
call_setter C socket_buffer_size_setter = set_socket_buffer_size C
call_setter C statistic_interval_setter = set_statistic_interval C
call_setter C subscription_ack_interval_setter = set_subscription_ack_interval C
call_setter C subscription_enabled_setter = set_subscription_enabled C
call_setter C subscription_message_tracking_timeout_setter =
    set_subscription_message_tracking_timeout C
call_setter C subscription_redundancy_setter = set_subscription_redundancy C
call_setter C thread_local_connections_setter = set_thread_local_connections C
call_setter C update_locator_list_interval_setter = set_update_locator_list_interval C
call_setter C server_group_setter = set_server_group C
