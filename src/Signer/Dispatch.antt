-- ===== src/Signer/Dispatch.antt =====
-- signer/service.py: the start of the signer, sign, and dispatch, a request at a time. What openssl
-- signs is a parameter. A request that is answered while the client is gone is not told apart.
use openvpn_server.Base.{
  ℕ, ◌+◌, ◌-◌, Bool, true, false, not, ◌&&◌, ◌||◌, Option, none, some, Text, codes, text_eq,
  nonempty, rstrip, int_of, ℤ, pos, negsuc, if◌then◌else◌, ◌==◌, ltb, leb, List, [], length, take,
  ◌++◌, coalesce,
}
use openvpn_server.Signer.Profiles.{Plist, max_profile, accepts}
use openvpn_server.Signer.Identity.{
  Resolver, Metadata, Candidate, Stamp, Cached, Identity, identified, invalid_identity, unreadable,
  Tools, identity,
}

pub record SignerState : Type 0 where
  pub hostname : Text
  pub relay_url : Text
  pub token : Text
  pub slots : ℕ
  pub cached : Option Cached

-- `__init__`; `none` is a ValueError.
unfoldable pub new_signer : Text → Text → Text → Option SignerState
new_signer hostname relay_url token =
    if ltb (length token) 32
    then none
    else some (record {
      hostname = hostname;
      relay_url = rstrip (λ c. c == b'/') relay_url;
      token = token;
      slots = 4;
      cached = none;
    })

-- A request, its headers, and the bytes that the client sends before it stops; `stalls` if it then
-- leaves the connection open.
pub record SignRequest : Type 0 where
  pub path : Text
  pub authorization : Option Text
  pub content_length : Option Text
  pub transfer_encoding : Option Text
  pub sent : Text
  pub stalls : Bool

-- What a call finds: the store's file, the clocks and the store.
pub record Surroundings : Type 0 where
  pub stamp : Option Stamp
  pub monotonic : ℕ
  pub now : ℕ
  pub store : Option (List Resolver)

-- What `sign` returns, an error that is answered with 422, or one that is answered with 503.
pub data Signed : Type 0 where
  signed : Text → Signed
  invalid_profile : Signed
  no_signature : Signed

pub data Response : Type 0 where
  failed : ℕ → Response
  profile : Text → Response
  ready : Metadata → Response

abbrev pub has_encoding : Option Text → Bool
has_encoding none = false
has_encoding (some s) = nonempty s

-- `0 < length <= MAX_PROFILE`
abbrev pub length_fits : ℤ → Bool
length_fits (pos n) = ltb 0 n && leb n max_profile
length_fits (negsuc n) = false

abbrev pub size_of : ℤ → ℕ
size_of (pos n) = n
size_of (negsuc n) = 0

-- `self.rfile.read(length)`; `none` is a timeout.
abbrev pub read_body : SignRequest → ℕ → Option Text
read_body r n = if ltb (length r.sent) n && r.stalls then none else some (take n r.sent)

abbrev pub signed_or : Option Text → Signed
signed_or none = no_signature
signed_or (some p) = signed p

module _ (loads : Text → Option Plist) (dumps : Plist → Text) (tools : Tools) (strip : Text → Text)
    (cms : Candidate → Text → Option Text) where
  abbrev pub signature_of : Identity → Text → Signed
  signature_of (identified c) content = signed_or (cms c content)
  signature_of invalid_identity content = invalid_profile
  signature_of unreadable content = no_signature

  -- `signer.identity()`
  abbrev pub ask_identity : Surroundings → SignerState → Identity × SignerState
  ask_identity w s =
      let (i, cached) =
        identity tools strip s.hostname w.stamp w.monotonic w.now w.store s.cached in
      (i, record s { cached = cached })

  abbrev pub sign_accepted : Surroundings → SignerState → Text → Option Bool → Signed × SignerState
  sign_accepted w s content none = (invalid_profile, s)
  sign_accepted w s content (some false) = (invalid_profile, s)
  sign_accepted w s content (some true) =
      let (i, s') = ask_identity w s in (signature_of i content, s')

  unfoldable pub sign : Surroundings → SignerState → Text → Signed × SignerState
  sign w s content = sign_accepted w s content (accepts loads dumps s.relay_url content)

  abbrev pub response_of : Signed → Response
  response_of (signed p) = profile p
  response_of invalid_profile = failed 422
  response_of no_signature = failed 503

  abbrev pub sign_body : Surroundings → SignerState → ℕ → Option Text → Response × SignerState
  sign_body w s n none = (failed 503, s)
  sign_body w s n (some content) =
      let (result, s') = sign w s content in
      if not (length content == n) then (failed 400, s) else (response_of result, s')

  -- A request to sign, once its Content-Length is read; `none` is a ValueError.
  abbrev pub sign_request :
      Surroundings → SignRequest → SignerState → Option ℤ → Response × SignerState
  sign_request w r s none = (failed 422, s)
  sign_request w r s (some n) =
      if not (length_fits n) || has_encoding r.transfer_encoding
      then (failed 400, s)
      else sign_body w s (size_of n) (read_body r (size_of n))

  abbrev pub health_of : Identity → Response
  health_of (identified c) = ready c.metadata
  health_of invalid_identity = failed 422
  health_of unreadable = failed 503

  -- What stands between `acquire` and `release`.
  abbrev pub handle : Bool → Surroundings → SignRequest → SignerState → Response × SignerState
  handle true w r s = sign_request w r s (int_of (coalesce r.content_length (codes "0")))
  handle false w r s = let (i, s') = ask_identity w s in (health_of i, s')

  abbrev pub release : Response × SignerState → Response × SignerState
  release (answer, s) = (answer, record s { slots = s.slots + 1 })

  unfoldable pub dispatch : Bool → Surroundings → SignRequest → SignerState → Response × SignerState
  dispatch signing w r s =
      if not (text_eq r.path (codes "/internal/relay-sign"))
      then (failed 404, s)
      else if not (text_eq (coalesce r.authorization []) (codes "Bearer " ++ s.token))
      then (failed 403, s)
      else if s.slots == 0
      then (failed 503, s)
      else release (handle signing w r (record s { slots = s.slots - 1 }))
