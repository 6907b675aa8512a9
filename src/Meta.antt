-- ===== src/Meta.antt =====
-- internal/pool/meta.go and the two small records of internal/pool/lease.go: what a slot directory
-- holds. Times are numbers of nanoseconds, with 0 for Go's zero time.
use simpool.Common.{ℕ, Bool, ◌&&◌, not, List, [], ltb}
use simpool.Text.{Text, codes, is_empty}

pub record Meta : Type 0 where
  pub device : Text
  pub os_version : Text
  pub runtime_id : Text
  pub udid : Text
  pub created : ℕ
  pub last_used : ℕ
  pub owner_pid : ℕ
  pub owner_cmd : Text
  pub mode : Text
  pub capabilities : List Text
  pub lease_key : Text
  pub lease_driver_pid : ℕ
  pub lease_driver_started_at : Text
  pub consumer_pgid : ℕ
  pub consumer_started_at : Text

-- What `ReadMeta` returns for a missing or a corrupt meta.json.
abbrev pub no_meta : Meta
no_meta = record {
  device = [];
  os_version = [];
  runtime_id = [];
  udid = [];
  created = 0;
  last_used = 0;
  owner_pid = 0;
  owner_cmd = [];
  mode = [];
  capabilities = [];
  lease_key = [];
  lease_driver_pid = 0;
  lease_driver_started_at = [];
  consumer_pgid = 0;
  consumer_started_at = [];
}

pub record Lease : Type 0 where
  pub key : Text
  pub expires_at : ℕ

abbrev pub no_lease : Lease
no_lease = record { key = []; expires_at = 0 }

-- Lease.Alive, at the time `now`.
unfoldable pub lease_alive : ℕ → Lease → Bool
lease_alive now l = not (is_empty l.key) && ltb now l.expires_at

-- lease.json: no file, one that cannot be read or parsed, or a lease.
pub data LeaseFile : Type 0 where
  absent : LeaseFile
  unreadable : LeaseFile
  present : Lease → LeaseFile

-- The three values of `Meta.Mode` that the code compares with.
abbrev pub with_mode : Text
with_mode = codes "with"

abbrev pub acquire_mode : Text
acquire_mode = codes "acquire"

abbrev pub lease_mode : Text
lease_mode = codes "lease"
