-- ===== src/CacheFactory.antt =====
-- src/cache_factory.cpp and src/cache_factory.hpp: the JavaScript class around Geode's CacheFactory.
-- A call of Geode's factory is recorded as a setting.
pub mod Setters
pub mod Laws
pub mod Examples
use Prim.Native.String.{String}
use node_gemfire.Base.{
  ℕ, ℤ, Bool, true, false, not, ◌&&◌, List, [], ◌∷◌, ◌++◌, Option, none, some, if◌then◌else◌,
  length, ◌==◌,
}
use node_gemfire.Conversions.Data.{
  V8Value, Platform, string, number, boolean, number_object, undefined,
}
use node_gemfire.Region.Call.{arg}

pub data IntSetting : Type 0 where
  free_connection_timeout load_conditioning_interval max_connections min_connections : IntSetting
  read_timeout retry_attempts socket_buffer_size statistic_interval : IntSetting
  subscription_ack_interval subscription_message_tracking_timeout : IntSetting
  subscription_redundancy idle_timeout : IntSetting

pub data LongSetting : Type 0 where
  ping_interval update_locator_list_interval : LongSetting

pub data BoolSetting : Type 0 where
  pdx_ignore_unread_fields pr_single_hop_enabled : BoolSetting
  subscription_enabled thread_local_connections : BoolSetting

pub data Setting : Type 0 where
  locator : List ℕ → ℤ → Setting
  server : List ℕ → ℤ → Setting
  property : List ℕ → List ℕ → Setting
  int_setting : IntSetting → ℤ → Setting
  long_setting : LongSetting → ℤ → Setting
  bool_setting : BoolSetting → Bool → Setting
  server_group : List ℕ → Setting
  pdx_read_serialized : Bool → Setting

-- `CacheFactory`: what its Geode factory was told, with the properties file that it was made from,
-- and whether the callback is not NULL.
pub record Factory : Type 0 where
  pub properties : Option (List ℕ)
  pub settings : List Setting
  pub has_callback : Bool

pub record FactoryReply : Type 0 where
  pub aborts : Bool  -- FromJust of a conversion that failed ends the process
  pub thrown : Option String
  pub factory : Factory

-- V8's conversions of arguments; those to numbers and Booleans may fail, as that of a symbol does.
pub record Coercions (D : Type 0) : Type 0 where
  pub to_int : V8Value D → Option ℤ  -- Nan::To<int>
  pub to_long : V8Value D → Option ℤ  -- Nan::To<long>
  pub to_bool : V8Value D → Option Bool  -- Nan::To<bool>
  pub to_utf8 : V8Value D → List ℕ  -- Nan::Utf8String

abbrev pub refuse : String → Factory → FactoryReply
refuse m f = record { aborts = false; thrown = some m; factory = f }

abbrev pub apply : Setting → Factory → FactoryReply
apply s f = record {
  aborts = false;
  thrown = none;
  factory = record f { settings = f.settings ++ s ∷ [] };
}

-- `FromJust`, and the call of Geode's factory.
abbrev pub apply_just : {A : Type 0} → Option A → (A → Setting) → Factory → FactoryReply
apply_just none make f = record { aborts = true; thrown = none; factory = f }
apply_just (some a) make f = apply (make a) f

module _ {D : Type 0} where
  abbrev pub is_string : V8Value D → Bool
  is_string (string s) = true
  is_string _ = false

  abbrev pub is_number : V8Value D → Bool
  is_number (number d) = true
  is_number _ = false

  abbrev pub is_boolean : V8Value D → Bool
  is_boolean (boolean b) = true
  is_boolean _ = false

module _ {D : Type 0} (C : Coercions D) where
  -- `New`: the error, or the factory.
  unfoldable pub new_factory : List (V8Value D) → Option Factory
  new_factory info =
      if not (length info == 2)
      then none
      else some (record {
        properties = if is_string (arg info 0) then some (C.to_utf8 (arg info 0)) else none;
        settings = [];
        has_callback = true;
      })

  unfoldable pub add_locator : List (V8Value D) → Factory → FactoryReply
  add_locator info f =
      if not (length info == 2) && (is_string (arg info 0) && is_number (arg info 1))
      then refuse "You must pass the address and the port of the locator." f
      else apply_just (C.to_int (arg info 1)) (locator (C.to_utf8 (arg info 0))) f

  unfoldable pub add_server : List (V8Value D) → Factory → FactoryReply
  add_server info f =
      if not (length info == 2) && (is_string (arg info 0) && is_number (arg info 1))
      then refuse "You must pass the address and the port of the server." f
      else apply_just (C.to_int (arg info 1)) (server (C.to_utf8 (arg info 0))) f

  unfoldable pub set : List (V8Value D) → Factory → FactoryReply
  set info f =
      if not (length info == 2) && (is_string (arg info 0) && is_string (arg info 1))
      then refuse "You must pass the property name and the property value." f
      else apply (property (C.to_utf8 (arg info 0)) (C.to_utf8 (arg info 1))) f

  -- The setters of one shape: the check looks at info[0], and the value is read from info[1].
  abbrev pub int_setter : IntSetting → List (V8Value D) → Factory → FactoryReply
  int_setter k info f =
      if not (length info == 1) && is_number (arg info 0)
      then refuse "You must pass an integer value." f
      else apply_just (C.to_int (arg info 1)) (int_setting k) f

  abbrev pub long_setter : LongSetting → List (V8Value D) → Factory → FactoryReply
  long_setter k info f =
      if not (length info == 1) && is_number (arg info 0)
      then refuse "You must pass an long value." f
      else apply_just (C.to_long (arg info 1)) (long_setting k) f

  abbrev pub bool_setter : BoolSetting → List (V8Value D) → Factory → FactoryReply
  bool_setter k info f =
      if not (length info == 1) && is_boolean (arg info 0)
      then refuse "You must pass an bool value." f
      else apply_just (C.to_bool (arg info 1)) (bool_setting k) f

  unfoldable pub set_free_connection_timeout : List (V8Value D) → Factory → FactoryReply
  set_free_connection_timeout = int_setter free_connection_timeout

  unfoldable pub set_idle_timeout : List (V8Value D) → Factory → FactoryReply
  set_idle_timeout = int_setter idle_timeout

  unfoldable pub set_load_conditioning_interval : List (V8Value D) → Factory → FactoryReply
  set_load_conditioning_interval = int_setter load_conditioning_interval

  unfoldable pub set_max_connections : List (V8Value D) → Factory → FactoryReply
  set_max_connections = int_setter max_connections

  unfoldable pub set_min_connections : List (V8Value D) → Factory → FactoryReply
  set_min_connections = int_setter min_connections

  unfoldable pub set_pdx_ignore_unread_fields : List (V8Value D) → Factory → FactoryReply
  set_pdx_ignore_unread_fields = bool_setter pdx_ignore_unread_fields

  unfoldable pub set_ping_interval : List (V8Value D) → Factory → FactoryReply
  set_ping_interval = long_setter ping_interval

  unfoldable pub set_pr_single_hop_enabled : List (V8Value D) → Factory → FactoryReply
  set_pr_single_hop_enabled = bool_setter pr_single_hop_enabled

  unfoldable pub set_read_timeout : List (V8Value D) → Factory → FactoryReply
  set_read_timeout = int_setter read_timeout

  unfoldable pub set_retry_attempts : List (V8Value D) → Factory → FactoryReply
  set_retry_attempts = int_setter retry_attempts

  unfoldable pub set_server_group : List (V8Value D) → Factory → FactoryReply
  set_server_group info f =
      if not (length info == 1) && is_string (arg info 0)
      then refuse "You must pass the server group name as a string." f
      else apply (server_group (C.to_utf8 (arg info 0))) f

  unfoldable pub set_socket_buffer_size : List (V8Value D) → Factory → FactoryReply
  set_socket_buffer_size = int_setter socket_buffer_size

  unfoldable pub set_statistic_interval : List (V8Value D) → Factory → FactoryReply
  set_statistic_interval = int_setter statistic_interval

  unfoldable pub set_subscription_ack_interval : List (V8Value D) → Factory → FactoryReply
  set_subscription_ack_interval = int_setter subscription_ack_interval

  unfoldable pub set_subscription_enabled : List (V8Value D) → Factory → FactoryReply
  set_subscription_enabled = bool_setter subscription_enabled

  unfoldable pub set_subscription_message_tracking_timeout :
      List (V8Value D) → Factory → FactoryReply
  set_subscription_message_tracking_timeout = int_setter subscription_message_tracking_timeout

  unfoldable pub set_subscription_redundancy : List (V8Value D) → Factory → FactoryReply
  set_subscription_redundancy = int_setter subscription_redundancy

  unfoldable pub set_thread_local_connections : List (V8Value D) → Factory → FactoryReply
  set_thread_local_connections = bool_setter thread_local_connections

  unfoldable pub set_update_locator_list_interval : List (V8Value D) → Factory → FactoryReply
  set_update_locator_list_interval = long_setter update_locator_list_interval

-- `Create`: the settings that Geode's factory creates the cache with, and whether the callback is
-- called with the cache.
unfoldable pub create : Factory → List Setting × Bool
create f = (f.settings ++ pdx_read_serialized true ∷ [], f.has_callback)
