-- ===== src/Db/Schema.antt =====
-- ui/app/db.py, SCHEMA: one record for each table's row, and the database as the list of rows of
-- each table with the next value of the identity columns. Times are seconds since the epoch. A
-- nullable column is an Option.
use openvpn_server.Base.{ℕ, List, Option, Text}

pub record User : Type 0 where
  pub id : ℕ
  pub username : Text
  pub password_hash : Text
  pub created_at : ℕ
  pub last_login : Option ℕ
  pub client_name : Option Text
  pub client_serial : Option Text

pub record WebSession : Type 0 where
  pub token_hash : Text
  pub user_id : ℕ
  pub created_at : ℕ
  pub expires_at : ℕ
  pub ip : Option Text
  pub user_agent : Option Text

pub record Setting : Type 0 where
  pub key : Text
  pub value : Text

pub record ClientRow : Type 0 where
  pub name : Text
  pub note : Text
  pub created_at : ℕ

pub record HiddenCert : Type 0 where
  pub serial : Text
  pub name : Option Text
  pub hidden_at : ℕ

pub record VpnSession : Type 0 where
  pub id : ℕ
  pub client_name : Text
  pub cid : Option ℕ
  pub real_address : Option Text
  pub vpn_ip : Option Text
  pub username : Option Text
  pub cipher : Option Text
  pub connected_at : ℕ
  pub last_seen : ℕ
  pub disconnected_at : Option ℕ
  pub bytes_in : ℕ
  pub bytes_out : ℕ
  pub proto : Option Text
  pub platform : Option Text
  pub client_ver : Option Text
  pub end_reason : Option Text
  pub grp : Option ℕ

pub record RelaySession : Type 0 where
  pub id : Text
  pub grp : Text
  pub client_name : Text
  pub credential_id : Text
  pub transport : Text
  pub started_at : ℕ
  pub last_seen : ℕ
  pub sampled_at : ℕ
  pub active : ℕ
  pub accepted : ℕ
  pub denied : ℕ
  pub failed : ℕ
  pub bytes_up : ℕ
  pub bytes_down : ℕ
  pub uncounted : ℕ

-- A row of traffic_minute, traffic_hour or traffic_day, with primary key (ts, client_name).
pub record Bucket : Type 0 where
  pub ts : ℕ
  pub client_name : Text
  pub bytes_in : ℕ
  pub bytes_out : ℕ

pub record Event : Type 0 where
  pub id : ℕ
  pub ts : ℕ
  pub kind : Text
  pub client_name : Option Text
  pub actor : Option Text
  pub detail : Option Text

pub record ArchivedClient : Type 0 where
  pub key : Text
  pub name : Text
  pub archived_at : ℕ

pub record Rejection : Type 0 where
  pub day : ℕ
  pub client_name : Text
  pub reason : Text
  pub address : Text
  pub count : ℕ
  pub last_ts : ℕ

pub record ShareToken : Type 0 where
  pub token_hash : Text
  pub client_name : Text
  pub created_at : ℕ
  pub expires_at : ℕ
  pub used_at : Option ℕ
  pub created_by : Option Text

pub record Db : Type 0 where
  pub users : List User
  pub next_user : ℕ
  pub web_sessions : List WebSession
  pub settings : List Setting
  pub clients : List ClientRow
  pub hidden_certs : List HiddenCert
  pub vpn_sessions : List VpnSession
  pub next_session : ℕ
  pub relay_sessions : List RelaySession
  pub traffic_minute : List Bucket
  pub traffic_hour : List Bucket
  pub traffic_day : List Bucket
  pub events : List Event
  pub next_event : ℕ
  pub archived_clients : List ArchivedClient
  pub rejections : List Rejection
  pub share_tokens : List ShareToken
