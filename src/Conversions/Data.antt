-- ===== src/Conversions/Data.antt =====
-- The values of both sides of src/conversions.cpp. `D` stands for IEEE doubles. Of a Geode value the
-- model keeps what the code reads: its type and its contents. v8Value assumes that a value with a type
-- id above CacheableStringHuge is a PDX instance, and casts it; the values here are those for which
-- this is so.
use node_gemfire.Base.{
  ℕ, ℤ, Bool, true, false, List, [], ◌∷◌, ◌++◌, Option, ◌==◌, ◌&&◌, if◌then◌else◌,
}
use node_gemfire.Conversions.ClassName.{Field}

mutual
  -- A JavaScript value, by the first test of gemfireValue that it passes.
  pub data V8Value (D : Type 0) : Type 0 where
    string : List ℕ → V8Value D
    string_object : List ℕ → V8Value D
    boolean : Bool → V8Value D
    number : D → V8Value D
    number_object : D → V8Value D
    date : ℤ → V8Value D  -- milliseconds; a valid date
    array : V8Items D → V8Value D
    boolean_object : Bool → V8Value D
    function : V8Value D
    object : V8Fields D → V8Value D
    native_error : List ℕ → V8Fields D → V8Value D  -- an Error with its own enumerable fields
    undefined : V8Value D
    null : V8Value D
    other : List ℕ → V8Value D  -- a symbol, with its detail string

  pub data V8Items (D : Type 0) : Type 0 where
    nil : V8Items D
    cons : V8Value D → V8Items D → V8Items D

  -- Own properties in the order of GetOwnPropertyNames, the keys in UTF-8.
  pub data V8Fields (D : Type 0) : Type 0 where
    end : V8Fields D
    field : List ℕ → V8Value D → V8Fields D → V8Fields D

mutual
  -- A `CacheablePtr`.
  pub data Cacheable (D : Type 0) : Type 0 where
    null_ptr : Cacheable D
    wide_string : List ℕ → Cacheable D  -- isWideString()
    narrow_string : List ℕ → Cacheable D
    cacheable_boolean : Bool → Cacheable D
    cacheable_double : D → Cacheable D
    cacheable_float : D → Cacheable D
    cacheable_int16 : ℤ → Cacheable D
    cacheable_int32 : ℤ → Cacheable D
    cacheable_int64 : ℤ → Cacheable D
    cacheable_date : ℤ → Cacheable D
    cacheable_undefined : Cacheable D
    struct : CacheableFields D → Cacheable D
    object_array : Cacheables D → Cacheable D
    array_list : Cacheables D → Cacheable D
    vector : Cacheables D → Cacheable D
    hash_map : CacheableEntries D → Cacheable D
    hash_set : Cacheables D → Cacheable D
    function_exception : List ℕ → Cacheable D  -- UserFunctionExecutionException
    pdx_instance : List ℕ → CacheableFields D → Cacheable D
    unknown : ℕ → Cacheable D  -- a type id up to CacheableStringHuge with no case

  pub data Cacheables (D : Type 0) : Type 0 where
    none_left : Cacheables D
    item : Cacheable D → Cacheables D → Cacheables D

  pub data CacheableFields (D : Type 0) : Type 0 where
    no_fields : CacheableFields D
    named : List ℕ → Cacheable D → CacheableFields D → CacheableFields D

  pub data CacheableEntries (D : Type 0) : Type 0 where
    no_entries : CacheableEntries D
    entry : Cacheable D → Cacheable D → CacheableEntries D → CacheableEntries D

-- `apache::geode::client::Exception`
pub record Exception : Type 0 where
  pub exception_name : List ℕ
  pub message : List ℕ

-- What a conversion does besides its result, in order.
pub data Effect : Type 0 where
  throw_function : Effect  -- functions are not supported
  throw_unknown_object : List ℕ → Effect
  throw_unknown_type : ℕ → Effect
  throw_gemfire : Exception → Effect  -- ThrowGemfireException
  warn_above warn_below : Effect  -- ConsoleWarn in the conversion of 64-bit integers

pub record Out (A : Type 0) : Type 0 where
  pub value : A
  pub log : List Effect

abbrev pub ret : {A : Type 0} → A → Out A
ret a = record { value = a; log = [] }

abbrev pub emit : {A : Type 0} → Effect → A → Out A
emit e a = record { value = a; log = e ∷ [] }

infixl 5 ◌>>=◌
abbrev pub ◌>>=◌ : {A B : Type 0} → Out A → (A → Out B) → Out B
m >>= f = record { value = (f m.value).value; log = m.log ++ (f m.value).log }

-- Code that is not in the repository: V8's and Geode's part of the conversions.
pub record Platform (D : Type 0) : Type 0 where
  pub utf8_decode : List ℕ → List ℕ  -- Nan::New(const char *)
  pub utf8_of_value : V8Value D → List ℕ  -- Nan::Utf8String
  pub own_properties : V8Value D → V8Fields D  -- of an object that is no plain object
  pub double_of_int : ℤ → D
  pub key_first : Bool  -- the compiler's order for the arguments of Set in v8Object
  pub property_key : V8Value D → List ℕ  -- the key of Object::Set
  pub is_key : Cacheable D → Bool  -- the cast to CacheableKeyPtr does not throw
  -- HashMapOfCacheable::insert, on the entries in the order in which the map is walked
  pub map_insert :
      Cacheable D
      → Cacheable D
      → List (Cacheable D × Cacheable D)
      → List (Cacheable D × Cacheable D)
  pub pdx_factory : List ℕ → Option Exception  -- what createPdxInstanceFactory throws
  pub pdx_write : List ℕ → Cacheable D → Option Exception  -- what writeObject throws
  pub pdx_create : List ℕ → CacheableFields D → Option Exception  -- what create throws
  pub pdx_names : List ℕ → Option Exception  -- what getFieldNames throws
  pub pdx_read : List ℕ → Cacheable D → Option Exception  -- what reading a field throws

-- Two conversions as the arguments of one call, which C++ evaluates in either order.
abbrev pub both : {D A B : Type 0} → Platform D → Out A → Out B → Out (A × B)
both P m n = record {
  value = (m.value, n.value);
  log = if P.key_first then m.log ++ n.log else n.log ++ m.log;
}

abbrev pub is_array : {D : Type 0} → V8Value D → Bool
is_array (array xs) = true
is_array _ = false

-- Keys are compared byte by byte.
abbrev pub same_key : List ℕ → List ℕ → Bool
same_key [] [] = true
same_key [] (d ∷ ds) = false
same_key (c ∷ cs) [] = false
same_key (c ∷ cs) (d ∷ ds) = c == d && same_key cs ds

-- `== NULLPTR`
abbrev pub is_null : {D : Type 0} → Cacheable D → Bool
is_null null_ptr = true
is_null _ = false

-- The field loop of gemfireValue ends with the fields, or with an exception.
pub data Written (D : Type 0) : Type 0 where
  written : CacheableFields D → Written D
  refused : Exception → Written D

abbrev pub write_first : {D : Type 0} → List ℕ → Cacheable D → Written D → Written D
write_first k v (written fs) = written (named k v fs)
write_first k v (refused e) = refused e

-- What getClassName reads of an object.
unfoldable pub shape : {D : Type 0} → V8Fields D → List Field
shape end = []
shape (field k v fs) = record { name = k; is_array = is_array v } ∷ shape fs
