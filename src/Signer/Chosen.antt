-- ===== src/Signer/Chosen.antt =====
-- signer/service.py, Signer.identity: which certificate signs, read or cached.
use openvpn_server.Base.{
  ℕ, ◌+◌, ◌<◌, ◌≤◌, ◌∙◌, ◌≡◌, refl, sym, ap, subst, true, ◌&&◌, Option, none, some, some_eq, List,
  [], ◌∷◌, Text, ltb, Bool-cases, ltb→lt, &&-eq-true, and_then, and_then-some, given-some, Member,
  Member-append, inl, inr, ◌⊎◌, arith,
}
use openvpn_server.Signer.Identity.{
  StoreEntry, Resolver, not_dict, certificates, Candidate, Stamp, stamp_eq, Cached, Identity,
  identified, invalid_identity, unreadable, Tools, names_host, described, read_times, check_chain,
  check_key, check_fullchain, candidate_of, cons_found, candidates_of, candidates, latest, is_fresh,
  choose, reload, identity,
}
use openvpn_server.Signer.Latest.{latest-Member, latest-le, stamp_eq_sound}

-- What a call finds: the stamp of the store's file, the two clocks, and the store.
pub record Call : Type 0 where
  pub stamp : Option Stamp
  pub monotonic : ℕ
  pub now : ℕ
  pub store : Option (List Resolver)

module _ (tools : Tools) (strip : Text → Text) (hostname : Text) where
  abbrev pub answer : Call → Option Cached → Identity × Option Cached
  answer call cached =
      identity tools strip hostname call.stamp call.monotonic call.now call.store cached

  -- The key fits the certificate, and openssl trusts the chain for the host.
  abbrev pub IsVerified : Candidate → Type 0
  IsVerified c =
      (tools.load_cert_chain c.leaf c.private_key ≡ true)
      × (tools.verify hostname c.leaf c.rest ≡ true)
      × (c.metadata.expires_at ≡ c.expires)

  -- The identity is one of those that the store holds for the host, and none expires later.
  abbrev pub IsLatest : Option (List Resolver) → Candidate → Type 0
  IsLatest store c =
      (rs : List Resolver) × (store ≡ some rs)
      × Member c (candidates tools strip hostname rs)
      × ((x : Candidate) → Member x (candidates tools strip hostname rs) → x.expires ≤ c.expires)

  -- What the cache can be after earlier calls, the latest of which stands first.
  pub data CacheReach : List Call → Option Cached → Type 0 where
    started : CacheReach [] none
    asked :
        {calls : List Call} {cached : Option Cached}
        → CacheReach calls cached
        → (call : Call) → CacheReach (call ∷ calls) (answer call cached).1

  -- What is cached was the latest in the store in one of the calls, with the file's stamp of that call,
  -- and is to be kept for a minute from then.
  abbrev pub IsChosen : List Call → Cached → Type 0
  IsChosen calls k =
      IsVerified k.chosen
      × ((call : Call) × Member call calls
          × IsLatest call.store k.chosen
          × (call.stamp ≡ some k.signature)
          × (k.until ≡ call.monotonic + 60))

  abbrev pub IsChosenCache : List Call → Option Cached → Type 0
  IsChosenCache calls none = Unit
  IsChosenCache calls (some k) = IsChosen calls k

  -- The identity was kept: in an earlier call, less than a minute ago and for a file with the same
  -- stamp, it was the latest in the store, and it has not expired.
  abbrev pub IsKept : List Call → Call → Candidate → Type 0
  IsKept calls call c =
      (earlier : Call) × Member earlier calls
      × IsLatest earlier.store c
      × (earlier.stamp ≡ call.stamp)
      × (call.monotonic < earlier.monotonic + 60)
      × (call.now < c.expires)

  check_chain_sound :
      (key : Text) (certs : List Text) (c : Candidate)
      → check_chain tools strip hostname key certs ≡ some c
      → IsVerified c
  check_chain_sound key [] c h = absurd (ground arith)
  check_chain_sound key (leaf ∷ rest) c h =
      let (ok, h1) =
        given-some (tools.load_cert_chain leaf key && tools.verify hostname leaf rest) _ c h in
      let ((end, subject), read, h2) =
        and_then-some (tools.x509 leaf) (read_times tools strip hostname leaf rest key) c h1 in
      let (expires, timed, h3) =
        and_then-some (tools.cert_time_to_seconds end)
          (λ x.
            and_then (tools.fingerprint_of leaf)
              (described tools strip hostname leaf rest key subject x))
          c h2 in
      let (print, printed, h4) =
        and_then-some (tools.fingerprint_of leaf)
          (described tools strip hostname leaf rest key subject expires) c h3 in
      subst IsVerified (some_eq h4) (
        (&&-eq-true (tools.load_cert_chain leaf key) _ ok).0,
        (&&-eq-true (tools.load_cert_chain leaf key) _ ok).1,
        refl,
      )

  candidate_of_sound :
      (e : StoreEntry) (c : Candidate)
      → candidate_of tools strip hostname e ≡ some c
      → (names_host hostname e ≡ true) × IsVerified c
  unfolding candidate_of
  candidate_of_sound e c h =
      let (named, h1) = given-some (names_host hostname e) _ c h in
      let (fullchain, decoded, h2) =
        and_then-some (and_then e.certificate tools.b64decode)
          (check_fullchain tools strip hostname e) c h1 in
      let (key, opened, h3) =
        and_then-some (and_then e.key tools.b64decode)
          (check_key tools strip hostname (tools.find_certificates fullchain)) c h2 in
      (named, check_chain_sound key (tools.find_certificates fullchain) c h3)

  cons_found-Member :
      (o : Option Candidate) (cs : List Candidate) (c : Candidate)
      → Member c (cons_found tools strip hostname o cs)
      → (o ≡ some c) ⊎ Member c cs
  cons_found-Member none cs c m = inr m
  cons_found-Member (some d) cs c (inl e) = inl (ap some (sym e))
  cons_found-Member (some d) cs c (inr m) = inr m

  candidates_of-IsVerified :
      (es : List StoreEntry) (c : Candidate)
      → Member c (candidates_of tools strip hostname es)
      → IsVerified c
  unfolding candidates_of
  candidates_of-IsVerified [] c m = elim m [ ]
  candidates_of-IsVerified (e ∷ es) c m =
      elim (cons_found-Member (candidate_of tools strip hostname e)
        (candidates_of tools strip hostname es) c m) [
          | inl found ↦ (candidate_of_sound e c found).1
          | inr later ↦ candidates_of-IsVerified es c later
        ]

  candidates-IsVerified :
      (rs : List Resolver) (c : Candidate)
      → Member c (candidates tools strip hostname rs)
      → IsVerified c
  unfolding candidates
  candidates-IsVerified [] c m = elim m [ ]
  candidates-IsVerified (not_dict ∷ rs) c m = candidates-IsVerified rs c m
  candidates-IsVerified (certificates es ∷ rs) c m =
      elim (Member-append c (candidates_of tools strip hostname es)
        (candidates tools strip hostname rs) m) [
          | inl here ↦ candidates_of-IsVerified es c here
          | inr later ↦ candidates-IsVerified rs c later
        ]

  -- What a call gives after earlier ones, for the cache before it.
  abbrev pub IsJudged : List Call → Call → Option Cached → Identity × Option Cached → Type 0
  IsJudged calls call cached (identified c, next) =
      ((k : Cached) × (next ≡ some k) × (k.chosen ≡ c) × IsChosen (call ∷ calls) k)
      × (IsKept calls call c ⊎ IsLatest call.store c)
  IsJudged calls call cached (invalid_identity, next) = next ≡ cached
  IsJudged calls call cached (unreadable, next) = (call.stamp ≡ none) × (next ≡ cached)

  choose-IsJudged :
      (calls : List Call) (call : Call) (signature : Stamp) (rs : List Resolver)
      (cached : Option Cached) (cs : List Candidate)
      → call.stamp ≡ some signature
      → call.store ≡ some rs
      → candidates tools strip hostname rs ≡ cs
      → IsJudged calls call cached (choose signature call.monotonic cs cached)
  choose-IsJudged calls call signature rs cached [] stamped stored e = refl
  choose-IsJudged calls call signature rs cached (d ∷ cs) stamped stored e =
      let member = subst (Member (latest d cs)) (sym e) (latest-Member d cs) in
      let verified = candidates-IsVerified rs (latest d cs) member in
      let is_latest : IsLatest call.store (latest d cs) =
        (rs, stored, member, λ x m. latest-le d cs x (subst (Member x) e m)) in
      ((_, refl, refl, (verified, (call, inl refl, is_latest, stamped, refl))), inr is_latest)

  reload-IsJudged :
      (calls : List Call) (call : Call) (signature : Stamp) (store : Option (List Resolver))
      (cached : Option Cached)
      → call.stamp ≡ some signature
      → call.store ≡ store
      → IsJudged calls call cached
          (reload tools strip hostname signature call.monotonic store cached)
  reload-IsJudged calls call signature none cached stamped stored = refl
  reload-IsJudged calls call signature (some rs) cached stamped stored =
      choose-IsJudged calls call signature rs cached _ stamped stored refl

  is_fresh_sound :
      (signature : Stamp) (monotonic now : ℕ) (k : Cached)
      → is_fresh signature monotonic now k ≡ true
      → (k.signature ≡ signature) × (monotonic < k.until) × (now < k.chosen.metadata.expires_at)
  is_fresh_sound signature monotonic now k h =
      let (same, both) = &&-eq-true (stamp_eq k.signature signature) _ h in
      let (soon, unexpired) = &&-eq-true (ltb monotonic k.until) _ both in
      (
        stamp_eq_sound k.signature signature same,
        ltb→lt monotonic k.until soon,
        ltb→lt now k.chosen.metadata.expires_at unexpired,
      )

  fresh-IsJudged :
      (calls : List Call) (call : Call) (signature : Stamp) (k : Cached)
      → call.stamp ≡ some signature
      → is_fresh signature call.monotonic call.now k ≡ true
      → IsChosen calls k
      → IsJudged calls call (some k) (identified k.chosen, some k)
  fresh-IsJudged calls call signature k stamped h (v, (earlier, member, is_latest, was, until)) =
      let (same, soon, unexpired) = is_fresh_sound signature call.monotonic call.now k h in
      (
        (k, refl, refl, (v, (earlier, inr member, is_latest, was, until))),
        inl (
          earlier,
          member,
          is_latest,
          was ∙ (ap some same ∙ sym stamped),
          omega (arith, soon, until),
          omega (arith, unexpired, v.2),
        ),
      )

  answer-IsJudged :
      (calls : List Call) (call : Call) (stamp : Option Stamp) (cached : Option Cached)
      → call.stamp ≡ stamp
      → IsChosenCache calls cached
      → IsJudged calls call cached
          (identity tools strip hostname stamp call.monotonic call.now call.store cached)
  unfolding identity
  answer-IsJudged calls call none cached e v = (e, refl)
  answer-IsJudged calls call (some signature) none e v =
      reload-IsJudged calls call signature call.store none e refl
  answer-IsJudged calls call (some signature) (some k) e v =
      elim (Bool-cases (is_fresh signature call.monotonic call.now k)) [
        | inl fresh ↦ rw fresh (fresh-IsJudged calls call signature k e fresh v)
        | inr stale ↦ rw stale (reload-IsJudged calls call signature call.store (some k) e refl)
      ]

  later-IsChosenCache :
      (calls : List Call) (call : Call) (cached : Option Cached)
      → IsChosenCache calls cached
      → IsChosenCache (call ∷ calls) cached
  later-IsChosenCache calls call none v = tt
  later-IsChosenCache calls call (some k) (v, (earlier, member, is_latest, same, until)) =
      (v, (earlier, inr member, is_latest, same, until))

  judged_cache :
      (calls : List Call) (call : Call) (cached : Option Cached) (r : Identity × Option Cached)
      → IsChosenCache calls cached
      → IsJudged calls call cached r
      → IsChosenCache (call ∷ calls) r.1
  judged_cache calls call cached (identified c, next) v ((k, e, _, chosen), _) =
      subst (IsChosenCache (call ∷ calls)) (sym e) chosen
  judged_cache calls call cached (invalid_identity, next) v j =
      subst (IsChosenCache (call ∷ calls)) (sym j) (later-IsChosenCache calls call cached v)
  judged_cache calls call cached (unreadable, next) v j =
      subst (IsChosenCache (call ∷ calls)) (sym j.1) (later-IsChosenCache calls call cached v)

  CacheReach-IsChosenCache :
      {calls : List Call} {cached : Option Cached}
      → CacheReach calls cached
      → IsChosenCache calls cached
  CacheReach-IsChosenCache started = tt
  CacheReach-IsChosenCache (asked {calls = calls} {cached = cached} r call) =
      let v = CacheReach-IsChosenCache r in
      judged_cache calls call cached _ v (answer-IsJudged calls call call.stamp cached refl v)

  -- After any earlier calls, an identity has a key that fits its certificate, which openssl trusts for
  -- the host, and is what the cache then holds. Either none that the store holds for the host outlives
  -- it, or that was so in an earlier call less than a minute ago, when the file had the stamp that it
  -- has now, and it has not expired. A failure leaves the cache as it is, and only an unreadable file
  -- is told as such.
  pub CacheReach-IsJudged :
      {calls : List Call} {cached : Option Cached}
      → CacheReach calls cached
      → (call : Call) → IsJudged calls call cached (answer call cached)
  CacheReach-IsJudged {calls = calls} {cached = cached} r call =
      answer-IsJudged calls call call.stamp cached refl (CacheReach-IsChosenCache r)
