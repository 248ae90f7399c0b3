-- ===== src/Signer/Identity.antt =====
-- signer/service.py, Signer.identity: the certificate and key that sign, and their cache. Base64, the
-- search for PEM blocks, the ssl module and openssl are parameters; the JSON store is what the code
-- reads of it.
use openvpn_server.Base.{
  ℕ, ◌+◌, Bool, ◌&&◌, ◌||◌, Option, none, some, List, [], ◌∷◌, ◌++◌, Text, codes, text_eq,
  starts_with, partition, if◌then◌else◌, ltb, ◌==◌, any, drop, and_then, given,
}

-- A certificate of the store; `none` where the key is missing, which is a KeyError.
pub record StoreEntry : Type 0 where
  pub main : Text
  pub sans : List Text
  pub certificate : Option Text
  pub key : Option Text

-- A value of the store: one that is no dict, or its list of certificates.
pub data Resolver : Type 0 where
  not_dict : Resolver
  certificates : List StoreEntry → Resolver

pub record Metadata : Type 0 where
  pub subject : Text
  pub expires_at : ℕ
  pub fingerprint : Text

pub record Candidate : Type 0 where
  pub expires : ℕ
  pub leaf : Text
  pub rest : List Text
  pub private_key : Text
  pub metadata : Metadata

-- (st_ino, st_mtime_ns, st_size)
pub record Stamp : Type 0 where
  pub ino : ℕ
  pub mtime : ℕ
  pub size : ℕ

abbrev pub stamp_eq : Stamp → Stamp → Bool
stamp_eq a b = a.ino == b.ino && (a.mtime == b.mtime && a.size == b.size)

-- `self.cached`
pub record Cached : Type 0 where
  pub signature : Stamp
  pub until : ℕ
  pub chosen : Candidate

pub data Identity : Type 0 where
  identified : Candidate → Identity
  invalid_identity : Identity
  unreadable : Identity

-- What the libraries do: `verify` is `openssl verify` for the purpose and the host, `x509` gives the
-- end date and the subject that openssl prints after their `=`, `load_cert_chain` whether the key
-- fits the leaf, `find_certificates` the PEM blocks; `none` is an error that the code catches.
pub record Tools : Type 0 where
  pub b64decode : Text → Option Text
  pub find_certificates : Text → List Text
  pub load_cert_chain : Text → Text → Bool
  pub verify : Text → Text → List Text → Bool
  pub x509 : Text → Option (Text × Text)
  pub cert_time_to_seconds : Text → Option ℕ
  pub fingerprint_of : Text → Option Text

-- One of the names of a certificate, for the host.
abbrev pub is_name_of : Text → Text → Bool
is_name_of hostname n =
    text_eq n hostname
    || (starts_with n (codes "*.")
        && (let (first, dot, parent) = partition hostname b'.' in text_eq parent (drop 2 n)))

abbrev pub names_host : Text → StoreEntry → Bool
names_host hostname e = any (is_name_of hostname) (e.main ∷ e.sans)

-- `max(candidates, key=expires)`: the first of those that expire last, after `best`.
unfoldable pub latest : Candidate → List Candidate → Candidate
latest best [] = best
latest best (c ∷ cs) =
    let kept = latest best cs in
    let taken = latest c cs in if ltb best.expires c.expires then taken else kept

abbrev pub is_fresh : Stamp → ℕ → ℕ → Cached → Bool
is_fresh signature monotonic now c =
    stamp_eq c.signature signature
    && (ltb monotonic c.until && ltb now c.chosen.metadata.expires_at)

abbrev pub choose : Stamp → ℕ → List Candidate → Option Cached → Identity × Option Cached
choose signature monotonic [] cached = (invalid_identity, cached)
choose signature monotonic (c ∷ cs) cached = (
  identified (latest c cs),
  some (record { signature = signature; until = monotonic + 60; chosen = latest c cs }),
)

module _ (tools : Tools) (strip : Text → Text) (hostname : Text) where
  abbrev pub described : Text → List Text → Text → Text → ℕ → Text → Option Candidate
  described leaf rest key subject expires fingerprint = some (record {
    expires = expires;
    leaf = leaf;
    rest = rest;
    private_key = key;
    metadata = record { subject = strip subject; expires_at = expires; fingerprint = fingerprint };
  })

  abbrev pub read_times : Text → List Text → Text → Text × Text → Option Candidate
  read_times leaf rest key (end, subject) =
      and_then (tools.cert_time_to_seconds end)
        (λ expires. and_then (tools.fingerprint_of leaf) (described leaf rest key subject expires))

  -- The checks on the certificates of an entry, the first of which is the leaf.
  abbrev pub check_chain : Text → List Text → Option Candidate
  check_chain key [] = none
  check_chain key (leaf ∷ rest) =
      given (tools.load_cert_chain leaf key && tools.verify hostname leaf rest)
        (and_then (tools.x509 leaf) (read_times leaf rest key))

  abbrev pub check_key : List Text → Text → Option Candidate
  check_key certs key = check_chain key certs

  abbrev pub check_fullchain : StoreEntry → Text → Option Candidate
  check_fullchain e fullchain =
      and_then (and_then e.key tools.b64decode) (check_key (tools.find_certificates fullchain))

  -- The candidate that an entry gives, or none where the loop goes on.
  unfoldable pub candidate_of : StoreEntry → Option Candidate
  candidate_of e =
      given (names_host hostname e)
        (and_then (and_then e.certificate tools.b64decode) (check_fullchain e))

  abbrev pub cons_found : Option Candidate → List Candidate → List Candidate
  cons_found none cs = cs
  cons_found (some c) cs = c ∷ cs

  unfoldable pub candidates_of : List StoreEntry → List Candidate
  candidates_of [] = []
  candidates_of (e ∷ es) = cons_found (candidate_of e) (candidates_of es)

  unfoldable pub candidates : List Resolver → List Candidate
  candidates [] = []
  candidates (not_dict ∷ rs) = candidates rs
  candidates (certificates es ∷ rs) = candidates_of es ++ candidates rs

  -- The store is read; `none` is a ValueError of json.loads.
  abbrev pub reload : Stamp → ℕ → Option (List Resolver) → Option Cached → Identity × Option Cached
  reload signature monotonic none cached = (invalid_identity, cached)
  reload signature monotonic (some store) cached =
      choose signature monotonic (candidates store) cached

  abbrev pub from_cache :
      Stamp → ℕ → ℕ → Option (List Resolver) → Option Cached → Identity × Option Cached
  from_cache signature monotonic now store none = reload signature monotonic store none
  from_cache signature monotonic now store (some c) =
      if is_fresh signature monotonic now c
      then (identified c.chosen, some c)
      else reload signature monotonic store (some c)

  -- `stamp` is that of the store's file, or `none` where it cannot be read.
  unfoldable pub identity :
      Option Stamp → ℕ → ℕ → Option (List Resolver) → Option Cached → Identity × Option Cached
  identity none monotonic now store cached = (unreadable, cached)
  identity (some signature) monotonic now store cached =
      from_cache signature monotonic now store cached
