-- ===== src/Tests/Access.antt =====
-- ui/app/relay.py, policy_server.py and relay_history.py: a client with a credential, a request, and
-- a relay session, and the theorems about them.
use openvpn_server.Base.{
  ℕ, ◌≡◌, ◌↔◌, refl, true, false, none, some, [], ◌∷◌, ◌++◌, ◌+◌, Text, codes, text_eq, starts_with,
  partition,
}
use openvpn_server.Db.Schema.{RelaySession, Db}
use openvpn_server.Db.History.{get_setting_in}
use openvpn_server.Pki.Names.{is_valid_name, matches_name, all_name_chars, is_reserved}
use openvpn_server.Relay.Authorize.{
  Grant, Config, Cert, World, returned, Policy, policy_of, eligible_cert, eligible, limits, admit,
  after_config, after_cert, after_grant, after_setting, authorize_client, authorize,
}
use openvpn_server.Relay.Access.{IsEntitled, authorize_sound}
use openvpn_server.Relay.Policy.{Readable, do_post, reply, do_post-authorized}
use openvpn_server.Relay.History.{
  Snapshot, find_relay, Continues, record_rows, record_rows-Continues,
}

abbrev grant : Grant
grant = record { serial = codes "01"; secret = codes "s3" }

abbrev config : Config
config = record { enabled = true; url = codes "https://relay" }

abbrev pub cert : Cert
cert = record { cn = codes "ann"; serial = codes "01"; not_before = some 10; not_after = some 90 }

abbrev pub world : World
world = record {
  parse_grant = λ t. some grant;
  show_grant = λ g. codes "{}";
  parse_config = λ t. some config;
  secret_hash = λ t. t;
  cert_info = λ name. some cert;
  index = some (λ serial. some (codes "V"));
  is_guest = λ name. false;
  network = none;
  now = 50;
}

abbrev db : Db
db = record {
  users = [];
  next_user = 2;
  web_sessions = [];
  settings =
      (record { key = codes "apple_relay"; value = codes "{}" })
      ∷ (record { key = codes "relay_client:ann"; value = codes "{}" })
      ∷ [];
  clients = [];
  hidden_certs = [];
  vpn_sessions = [];
  next_session = 1;
  relay_sessions = [];
  traffic_minute = [];
  traffic_hour = [];
  traffic_day = [];
  events = [];
  next_event = 1;
  archived_clients = [];
  rejections = [];
  share_tokens = [];
}

abbrev policy : Policy
policy = policy_of world (codes "ann") grant config false none []

authorize_sound_example :
    (name : Text) × (secret : Text) × (codes "Bearer ann:s3"
      ≡ codes "Bearer " ++ (name ++ b':' ∷ secret))
    × IsEntitled world db name secret policy
unfolding authorize authorize_client after_setting after_grant after_cert after_config admit limits
    eligible eligible_cert is_valid_name matches_name all_name_chars is_reserved get_setting_in
    text_eq starts_with partition
authorize_sound_example = authorize_sound world db (codes "Bearer ann:s3") true policy refl

abbrev readable : Readable
readable = record { database = true; index = true; guests = true }

do_post-authorized_example :
    (do_post readable world db (codes "/api/relay/authorize") (codes "Bearer ann:s3")
      ≡ reply 200 (some policy))
    ↔ ((codes "/api/relay/authorize" ≡ codes "/api/relay/authorize")
        × (readable.database ≡ true)
        × (readable.index ≡ true)
        × (readable.guests ≡ true)
        × (authorize world db (codes "Bearer ann:s3") true ≡ returned (some policy)))
do_post-authorized_example =
    do_post-authorized readable world db (codes "/api/relay/authorize") (codes "Bearer ann:s3")
      policy

abbrev no_guests : Readable
no_guests = record { database = true; index = true; guests = false }

abbrev snapshot : Text → ℕ → Snapshot
snapshot id at = record {
  id = id;
  client = codes "ann";
  credential_id = codes "c1";
  transport = codes "h2";
  started_at = at;
  last_seen = at + 5;
  active = 1;
  accepted = 1;
  denied = 0;
  failed = 0;
  bytes_up = 9;
  bytes_down = 9;
  uncounted_flows = 0;
}

abbrev row : RelaySession
row = record {
  id = codes "i:1";
  grp = codes "i:1";
  client_name = codes "ann";
  credential_id = codes "c1";
  transport = codes "h2";
  started_at = 100;
  last_seen = 120;
  sampled_at = 120;
  active = 0;
  accepted = 4;
  denied = 0;
  failed = 0;
  bytes_up = 90;
  bytes_down = 90;
  uncounted = 0;
}

record_rows-Continues_example :
    (r' : RelaySession) × (find_relay
        (codes "i:1")
        (record_rows 210 (snapshot (codes "i:1") 100 ∷ snapshot (codes "i:2") 200 ∷ []) (row ∷ []))
      ≡ some r')
    × Continues row r'
unfolding find_relay text_eq
record_rows-Continues_example =
    record_rows-Continues 210 (codes "i:1")
      (snapshot (codes "i:1") 100 ∷ snapshot (codes "i:2") 200 ∷ []) (row ∷ []) row refl
