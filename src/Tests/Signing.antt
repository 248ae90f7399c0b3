-- ===== src/Tests/Signing.antt =====
-- signer/service.py: a request that is signed, and the theorems about it.
use openvpn_server.Base.{
  ℕ, partition, digits_value, ◌≡◌, ◌≤◌, refl, true, false, Option, none, some, [], ◌∷◌, ◌++◌, List,
  Text, codes, text_eq, starts_with, int_of, arith, if◌then◌else◌, length, ◌+◌,
}
use openvpn_server.Signer.Profiles.{
  Plist, dict, array, string, no_items, item, no_entries, entry, url_template, accepts,
  profile_accepted, payload_accepted, entry_at, urls_of, all_urls,
}
use openvpn_server.Signer.Identity.{
  StoreEntry, Resolver, not_dict, certificates, Candidate, Stamp, Cached, Tools, identity,
  candidates, candidates_of, candidate_of, latest,
}
use openvpn_server.Signer.Chosen.{
  Call, answer, started, asked, CacheReach-IsJudged, IsJudged, IsVerified,
}
use openvpn_server.Signer.Dispatch.{SignerState, SignRequest, Surroundings, profile, dispatch, sign}
use openvpn_server.Signer.Answers.{IsAdmitted, IsSigned, dispatch_signs}
use openvpn_server.Signer.Load.{accept, take_slot, serving, incoming, begins, Loaded-bounded}

abbrev relay_url : Text
relay_url = codes "https://r"

abbrev relay_profile : Plist
relay_profile = dict (
    entry (codes "PayloadContent")
      (array (
        item
          (dict (
            entry (codes "PayloadType") (string (codes "com.apple.relay.managed")) (
              entry (codes "Relays")
                (array (
                  item
                    (dict (
                      entry (codes "HTTP3RelayURL") (string (relay_url ++ url_template))
                        no_entries))
                    no_items))
                no_entries)))
          no_items))
      (entry (codes "PayloadIdentifier") (string (codes "org.openvpn.apple-relay.a"))
        (entry (codes "PayloadType") (string (codes "Configuration")) no_entries)))

abbrev loads : Text → Option Plist
loads content = if text_eq content (codes "xml") then some relay_profile else none

abbrev dumps : Plist → Text
dumps p = codes "xml"

abbrev tools : Tools
tools = record {
  b64decode = λ t. some t;
  find_certificates = λ t. t ∷ [];
  load_cert_chain = λ leaf key. true;
  verify = λ host leaf rest. true;
  x509 = λ leaf. some (leaf, codes "r");
  cert_time_to_seconds = λ t. some (length t);
  fingerprint_of = λ leaf. some (codes "f");
}

abbrev strip : Text → Text
strip t = t

abbrev cms : Candidate → Text → Option Text
cms c content = some (codes "signed")

abbrev stored : Text → StoreEntry
stored certificate = record {
  main = codes "other";
  sans = codes "*.example" ∷ [];
  certificate = some certificate;
  key = some (codes "k");
}

abbrev store : Option (List Resolver)
store = some (not_dict ∷ certificates (stored (codes "old") ∷ stored (codes "newer") ∷ []) ∷ [])

abbrev stamp : Stamp
stamp = record { ino = 1; mtime = 2; size = 3 }

abbrev surroundings : Surroundings
surroundings = record { stamp = some stamp; monotonic = 10; now = 4; store = store }

abbrev request : SignRequest
request = record {
  path = codes "/internal/relay-sign";
  authorization = some (codes "Bearer t");
  content_length = some (codes "3");
  transfer_encoding = none;
  sent = codes "xmlmore";
  stalls = false;
}

abbrev signer : SignerState
signer = record {
  hostname = codes "r.example";
  relay_url = relay_url;
  token = codes "t";
  slots = 4;
  cached = none;
}

abbrev after : SignerState
after = (dispatch loads dumps tools strip cms true surroundings request signer).1

signs :
    dispatch loads dumps tools strip cms true surroundings request signer
    ≡ (profile (codes "signed"), after)
unfolding dispatch sign accepts profile_accepted payload_accepted entry_at urls_of all_urls identity
    candidates candidates_of candidate_of latest starts_with partition int_of digits_value text_eq
signs = refl

dispatch_signs_example :
    IsAdmitted loads dumps tools strip cms request signer
    × ((g : IsSigned loads dumps tools strip cms surroundings request
          (codes "r.example")
          relay_url
          none
          (codes "signed"))
        × IsVerified tools strip (codes "r.example") g.candidate)
dispatch_signs_example =
    dispatch_signs loads dumps tools strip cms true surroundings request signer after
      (codes "signed") started signs

abbrev call : ℕ → Call
call monotonic = record { stamp = some stamp; monotonic = monotonic; now = 4; store = store }

abbrev kept : Option Cached
kept = (answer tools strip (codes "r.example") (call 10) none).1

CacheReach-IsJudged_example :
    IsJudged tools strip
      (codes "r.example")
      (call 10 ∷ [])
      (call 20)
      kept
      (answer tools strip (codes "r.example") (call 20) kept)
CacheReach-IsJudged_example =
    CacheReach-IsJudged tools strip (codes "r.example") (asked started (call 10)) (call 20)

Loaded-bounded_example : (15 + 1 ≡ 16) × (3 + 1 ≡ 4) × (1 ≤ 1)
unfolding accept take_slot
Loaded-bounded_example = Loaded-bounded (begins (incoming serving true) (omega arith))
