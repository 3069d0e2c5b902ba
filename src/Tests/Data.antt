-- ===== src/Tests/Data.antt =====
-- Small concrete values for the examples.
use k8s_stack_keycloak_api_k.Base.{Str, codes, true, false, none, some, [], ◌∷◌}
use k8s_stack_keycloak_api_k.Sorting.{str_ord}
use k8s_stack_keycloak_api_k.Database.Session.{naive, ApiKey, Session, sqlite}
use k8s_stack_keycloak_api_k.Database.Keys.{Platform, Draw, NewKey}
use k8s_stack_keycloak_api_k.Json.{end}
use k8s_stack_keycloak_api_k.Keycloak.Exec.{
  PrincipalEntitlements, Client, World, Config, transport_error,
}
use k8s_stack_keycloak_api_k.Jwks.{Cache}
use k8s_stack_keycloak_api_k.Managed.Slots.{os_error}
use k8s_stack_keycloak_api_k.Api.Http.{AuthInfo, Codec, Setup, App}
use k8s_stack_keycloak_api_k.Api.Tokens.{CurrentUser}

-- a digest that is the text itself
abbrev pub platform : Platform
platform = record { sha256 = λ s. s; isoformat = λ t. []; collation = str_ord }

abbrev pub alice : Str
alice = 97 ∷ []

abbrev pub bob : Str
bob = 98 ∷ []

abbrev pub secret : Str
secret = 115 ∷ []

abbrev pub draw : Draw
draw = record { key_id = 49 ∷ []; key_value = secret; now = 5 }

abbrev pub new_key : NewKey
new_key = record {
  name = 110 ∷ [];
  user_id = alice;
  permissions = [];
  validity_days = 1;
  created_by_user_id = none;
  max_keys_per_user = 2;
}

abbrev pub row : ApiKey
row = record {
  id = 48 ∷ [];
  key_hash = 104 ∷ [];
  key_prefix = [];
  name = 111 ∷ [];
  user_id = alice;
  created_by_user_id = none;
  created_at = naive 1;
  permissions = codes "llm:invoke" ∷ [];
  expires_at = naive 9;
  revoked = false;
}

abbrev pub session : Session
session = record { bind = some sqlite; rows = row ∷ []; pending = []; doomed = []; locks = [] }

-- a Keycloak that never answers
abbrev pub deaf : World
deaf = record {
  reply = λ n r. transport_error;
  monotonic = λ n. n;
  time = λ n. n;
  decode_payload = λ s. none;
  to_float = λ j. none;
}

abbrev pub entitlements : PrincipalEntitlements
entitlements = record { permissions = codes "llm:invoke" ∷ []; groups = []; account_email = none }

-- what the client keeps of Alice is good until the time 50
abbrev pub client : Client
client = record {
  token = none;
  token_expiry = 0;
  client_ids = [];
  entitlement_cache = (alice, (50, some entitlements)) ∷ [];
  ticks = 0;
}

abbrev pub cache : Cache
cache = record { client = client; keys = some ((codes "a", end) ∷ []) }

abbrev pub config : Config
config = record {
  agentgateway_client_id = codes "gateway";
  entitlement_cache_ttl_seconds = 30;
  negative_cache_ttl_seconds = 5;
}

abbrev pub auth_info : AuthInfo
auth_info = record { server_url = []; realm = []; client_id = []; client_secret = []; issuer = [] }

-- no token can be decoded, and a context is always short
abbrev pub codec : Codec
codec = record {
  unverified_header = λ s. none;
  decode = λ t k a i. none;
  b64decode = λ s. some s;
  b64encode = λ s. s;
  utf8_decode = λ s. some s;
  dumps = λ j. [];
  uuid4_hex = [];
}

-- no managed keys, and one binding, for Bob's client
abbrev pub setup : Setup
setup = record {
  auth_info = auth_info;
  keycloak_configured = true;
  agentgateway_client_id = codes "gateway";
  max_keys_per_user = 2;
  managed_slots = [];
  oidc_clients_by_binding = (bob, bob ∷ []) ∷ [];
  world = deaf;
  config = config;
  fuel = 1;
  host = record { read_text = λ s. os_error; loads = λ s. none; sha256 = λ s. s; uuid5 = λ s. s };
  platform = platform;
  codec = codec;
  now = 3;
}

abbrev pub app : App
app = record { session = session; cache = some cache }

abbrev pub user : CurrentUser
user = record { user_id = alice; realm_roles = [] }
