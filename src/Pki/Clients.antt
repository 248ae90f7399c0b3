-- ===== src/Pki/Clients.antt =====
-- ui/app/pki.py, list_clients: the clients that the directories of the PKI name. The state of each
-- certificate comes from index.txt and the clock. A certificate is what `cert_info` reads of its
-- file, without the fingerprint; `none` is a file that it cannot read.
use openvpn_server.Base.{
  ℕ, Bool, false, ◌||◌, Option, none, some, List, [], ◌∷◌, ◌++◌, Text, codes, text_eq, nonempty,
  if◌then◌else◌, leb, any, coalesce, order_by,
}
use openvpn_server.Relay.Authorize.{Cert}

pub record IndexEntry : Type 0 where
  pub serial : Text
  pub status : Text
  pub expires : Option ℕ
  pub revoked_at : Option ℕ
  pub reason : Option Text

pub data State : Type 0 where
  valid expired revoked : State

pub record CertState : Type 0 where
  pub serial : Text
  pub cn : Text
  pub state : State
  pub not_before : Option ℕ
  pub not_after : Option ℕ
  pub revoked_at : Option ℕ
  pub reason : Option Text

pub record Listed : Type 0 where
  pub name : Text
  pub cert : CertState
  pub previous : Option CertState
  pub history : List CertState

-- index.txt; issued/ by name; renewed/issued/, `none` where there is no such file or it cannot be
-- read; revoked/certs_by_serial/. Each directory in the order of its file names.
pub record PkiDir : Type 0 where
  pub index : List IndexEntry
  pub issued : List (Text × Option Cert)
  pub renewed : Text → Option Cert
  pub revoked_certs : List (Option Cert)

unfoldable pub find_entry : Text → List IndexEntry → Option IndexEntry
find_entry serial [] = none
find_entry serial (e ∷ entries) =
    if text_eq e.serial serial then some e else find_entry serial entries

abbrev pub first_time : Option ℕ → Option ℕ → Option ℕ
first_time none b = b
first_time (some a) b = some a

abbrev pub entry_expires : Option IndexEntry → Option ℕ
entry_expires none = none
entry_expires (some e) = e.expires

abbrev pub is_revoked : Option IndexEntry → Bool
is_revoked none = false
is_revoked (some e) = text_eq e.status (codes "R")

abbrev pub is_past : Option ℕ → ℕ → Bool
is_past none now = false
is_past (some t) now = leb t now

abbrev pub revoked_at_of : Option IndexEntry → Option ℕ
revoked_at_of none = none
revoked_at_of (some e) = e.revoked_at

abbrev pub reason_of : Option IndexEntry → Option Text
reason_of none = none
reason_of (some e) = e.reason

unfoldable pub state_of : Option IndexEntry → Option ℕ → ℕ → State
state_of entry expires now =
    if is_revoked entry then revoked else if is_past expires now then expired else valid

unfoldable pub cert_state : ℕ → List IndexEntry → Cert → CertState
cert_state now index cert =
    let entry = find_entry cert.serial index in
    let expires = first_time cert.not_after (entry_expires entry) in
    record {
      serial = cert.serial;
      cn = cert.cn;
      state = state_of entry expires now;
      not_before = cert.not_before;
      not_after = expires;
      revoked_at = revoked_at_of entry;
      reason = reason_of entry;
    }

abbrev pub is_reserved_name : Text → Bool
is_reserved_name name = text_eq name (codes "server") || text_eq name (codes "ca")

abbrev pub previous_of : ℕ → List IndexEntry → Option Cert → Option CertState
previous_of now index none = none
previous_of now index (some cert) = some (cert_state now index cert)

-- The loop over issued/*.crt.
unfoldable pub list_issued : ℕ → PkiDir → List (Text × Option Cert) → List Listed
list_issued now dir [] = []
list_issued now dir ((name, none) ∷ rest) = list_issued now dir rest
list_issued now dir ((name, some cert) ∷ rest) =
    let others = list_issued now dir rest in
    if is_reserved_name name
    then others
    else record {
      name = name;
      cert = cert_state now dir.index cert;
      previous = previous_of now dir.index (dir.renewed name);
      history = [];
    }
      ∷ others

-- Adds to the history of the client of this name, or a client that only has a revoked certificate.
unfoldable pub add_history : Text → CertState → List Listed → List Listed
add_history name cert [] = record { name = name; cert = cert; previous = none; history = [] } ∷ []
add_history name cert (c ∷ cs) =
    if text_eq c.name name
    then record c { history = c.history ++ cert ∷ [] } ∷ cs
    else c ∷ add_history name cert cs

-- The loop over revoked/certs_by_serial/*.crt.
unfoldable pub list_revoked :
    ℕ → List IndexEntry → List Text → List (Option Cert) → List Listed → List Listed
list_revoked now index hidden [] cs = cs
list_revoked now index hidden (none ∷ rest) cs = list_revoked now index hidden rest cs
list_revoked now index hidden (some cert ∷ rest) cs =
    if any (λ s. text_eq s cert.serial) hidden
    then list_revoked now index hidden rest cs
    else list_revoked now index hidden rest (
        add_history (if nonempty cert.cn then cert.cn else cert.serial) (cert_state now index cert)
          cs)

abbrev pub newest_cert : CertState → CertState → Bool
newest_cert a b = leb (coalesce b.not_before 0) (coalesce a.not_before 0)

unfoldable pub sorted_histories : List Listed → List Listed
sorted_histories [] = []
sorted_histories (c ∷ cs) =
    record c { history = order_by newest_cert c.history } ∷ sorted_histories cs

unfoldable pub list_clients : ℕ → PkiDir → List Text → List Listed
list_clients now dir hidden =
    sorted_histories
      (list_revoked now dir.index hidden dir.revoked_certs (list_issued now dir dir.issued))

unfoldable pub find_listed : Text → List Listed → Option Listed
find_listed name [] = none
find_listed name (c ∷ cs) = if text_eq c.name name then some c else find_listed name cs
