-- ===== src/Types.antt =====
-- The data that the components exchange: src/transport/Transport.h, src/resolver/Resolver.h and
-- ResolverException.h, src/drivers/Driver.h, src/drivers/modules/AsyncHttpClient.h, src/cache.h.
use yeti_lnp_resolver.Base.{ℕ, Bool, false, Option, List, [], Bytes, ℤ, negsuc}

-- `sockaddr_in` (address and port), its size, and the socket that received the datagram.
pub record ClientInfo : Type 0 where
  pub addr : ℕ × ℕ
  pub addr_size : ℕ
  pub recv_fd : ℤ

-- `MSG_SZ`, the size of the receive buffer.
abbrev pub msg_sz : ℕ
msg_sz = 2048

-- `buffer` is the array `data`; the datagram is its first `length` bytes.
pub record RecvData : Type 0 where
  pub client_info : ClientInfo
  pub buffer : Bytes
  pub length : ℕ

pub record SResult : Type 0 where
  pub local_routing_number : Bytes
  pub local_routing_tag : Bytes
  pub raw_data : Bytes

abbrev pub empty_result : SResult
empty_result = record { local_routing_number = []; local_routing_tag = []; raw_data = [] }

-- `number` is the member `data`: a telephone number, or the JSON text of a CNAM request.
pub record ResolverRequest : Type 0 where
  pub id : ℕ
  pub type : ℤ
  pub db_id : ℤ
  pub client_info : ClientInfo
  pub number : Bytes
  pub req_start : ℕ
  pub is_done : Bool
  pub result : SResult

-- `ResolverRequest()`; `id` is a `uint32_t` that is set to -1.
unfoldable pub new_request : ClientInfo → ℕ → ResolverRequest
new_request client now = record {
  id = 4294967295;
  type = negsuc 0;
  db_id = negsuc 0;
  client_info = client;
  number = [];
  req_start = now;
  is_done = false;
  result = empty_result;
}

pub data ErrorId : Type 0 where
  no_error general_error psql_invalid_request general_resolving_error driver_resolving_error :
      ErrorId

abbrev pub error_code : ErrorId → ℕ
error_code no_error = 0
error_code general_error = 1
error_code psql_invalid_request = 11
error_code general_resolving_error = 21
error_code driver_resolving_error = 22

-- `CResolverError`
pub record ResolverError : Type 0 where
  pub code : ErrorId
  pub what : Bytes

-- What a driver may throw: `CDriver::error`, `AsyncHttpClient::error`, or any other exception.
pub data Exception : Type 0 where
  driver_error http_error : Bytes → Exception
  other : Exception

pub data AuthType : Type 0 where
  auth_none auth_basic : AuthType

-- The method is always GET.
pub record HttpRequest : Type 0 where
  pub id : ℕ
  pub url : Option Bytes
  pub auth_type : AuthType
  pub login : Option Bytes
  pub pass : Option Bytes
  pub verify_ssl : Bool
  pub timeout_ms : ℕ
  pub headers : List Bytes

pub record HttpResponse : Type 0 where
  pub id : ℕ
  pub is_success : Bool
  pub body : Bytes

pub record CacheEntry : Type 0 where
  pub database_id : ℤ
  pub dst : Bytes
  pub lrn : Bytes
  pub raw : Bytes
  pub tag : Bytes
