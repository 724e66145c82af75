-- ===== src/Api/Interface.antt =====
-- What src/uc_api.cpp uses of yyjson, of libcurl and of DuckDB's `StringUtil`: these libraries are
-- not part of the repository.
use uc_catalog.Base.{ℕ, Bool, Option, none, List, [], ◌≡◌, some, Bytes}

-- `yyjson_get_type`, as far as the source tells the types apart.
pub data JsonType : Type 0 where
  num bool str other : JsonType

abbrev pub same_type : JsonType → JsonType → Bool
same_type num num = Bool.true
same_type bool bool = Bool.true
same_type str str = Bool.true
same_type other other = Bool.true
same_type _ _ = Bool.false

-- `none` is a null pointer. The accessors take it and give null, or no element, back.
pub record Yyjson : Type 1 where
  pub Value : Type 0
  -- `yyjson_doc_get_root(yyjson_read(…))`
  pub read : Bytes → Option Value
  pub obj_get : Option Value → Bytes → Option Value
  pub get_type : Value → JsonType
  pub get_uint : Value → ℕ
  pub get_bool : Value → Bool
  -- Null for a value that is no string.
  pub get_str : Value → Option Bytes
  -- The values that `yyjson_arr_foreach` visits.
  pub elements : Option Value → List Value
  pub obj_get_null : (key : Bytes) → obj_get none key ≡ none
  pub elements_null : elements none ≡ []
  pub get_str_of_str : (v : Value) → get_type v ≡ str → (s : Bytes) × (get_str v ≡ some s)

-- One transfer: what the options of the handle say.
pub record Request : Type 0 where
  pub url : Bytes
  -- `CURLOPT_XOAUTH2_BEARER`, if it is set
  pub bearer : Option Bytes
  -- `CURLOPT_HTTPHEADER`
  pub headers : List Bytes
  -- `CURLOPT_POSTFIELDS`, if it is set
  pub body : Option Bytes

-- `curl_easy_init` gives null; `curl_easy_perform` ends with an error, behind the chunks it has
-- passed to the write callback, or with `CURLE_OK`.
pub data Transfer : Type 0 where
  no_handle : Transfer
  failed : List Bytes → Transfer
  complete : List Bytes → Transfer

-- The server, as it answers during one call of the source.
abbrev pub Server : Type 0
Server = Request → Transfer
