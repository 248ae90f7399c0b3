-- ===== src/Signer/Answers.antt =====
-- signer/service.py, dispatch: what is answered, and the slots.
use openvpn_server.Base.{
  ℕ, ◌+◌, ◌-◌, ◌<◌, ◌≤◌, ◌≡◌, refl, sym, ap, ◌∙◌, subst, Bool, true, false, not, ◌&&◌, ◌||◌,
  Bool-cases, Option-cases, &&-eq-true, Option, none, some, some_eq, Text, codes, text_eq,
  text_eq_sound, nonempty, int_of, ℤ, pos, negsuc, if◌then◌else◌, ◌==◌, ltb, leb, ltb→lt, leb→le,
  List, [], length, take, ◌++◌, coalesce, arith, ◌⊎◌, inl, inr,
}
use openvpn_server.Signer.Profiles.{Plist, dict, Entries, max_profile, accepts}
use openvpn_server.Signer.Allowed.{IsRelayProfile, accepts_sound}
use openvpn_server.Signer.Identity.{
  Candidate, Cached, Identity, identified, invalid_identity, unreadable, Tools, identity,
}
use openvpn_server.Signer.Chosen.{Call, IsJudged, CacheReach, IsVerified, CacheReach-IsJudged}
use openvpn_server.Signer.Dispatch.{
  SignerState, SignRequest, Surroundings, Response, failed, profile, ready, has_encoding,
  length_fits, size_of, read_body, signed_or, signature_of, sign_accepted, sign, response_of,
  sign_body, sign_request, health_of, handle, dispatch,
}

identified_eq : {c d : Candidate} → identified c ≡ identified d → c ≡ d
identified_eq h = cc

positive : (n : ℕ) → (n == 0) ≡ false → 0 < n
positive n h = ground arith

fits_bounds : (n : ℕ) → length_fits (pos n) ≡ true → (0 < n) × (n ≤ max_profile)
fits_bounds n h = ground arith

module _ (loads : Text → Option Plist) (dumps : Plist → Text) (tools : Tools) (strip : Text → Text)
    (cms : Candidate → Text → Option Text) where
  -- A profile that was signed.
  pub record IsSigned (w : Surroundings) (r : SignRequest) (hostname relay_url : Text)
      (cached : Option Cached) (p : Text) : Type 0 where
    pub content : Text
    pub length : ℕ
    pub candidate : Candidate
    pub declared : int_of (coalesce r.content_length (codes "0")) ≡ some (pos length)
    pub body : (content ≡ take length r.sent) × (openvpn_server.Base.length content ≡ length)
    pub limited : (0 < length) × (length ≤ max_profile)
    pub relay :
        (es : Entries) × (loads content ≡ some (dict es))
        × (dumps (dict es) ≡ content)
        × IsRelayProfile relay_url es
    pub chosen :
        (identity tools strip hostname w.stamp w.monotonic w.now w.store cached).0
        ≡ identified candidate
    pub signature : cms candidate content ≡ some p

  abbrev IsProfile : Surroundings → SignRequest → SignerState → Response → Type 0
  IsProfile w r s (profile p) = IsSigned w r s.hostname s.relay_url s.cached p
  IsProfile w r s (failed n) = Unit
  IsProfile w r s (ready m) = Unit

  -- What is known of the body when it is signed.
  abbrev IsBody : SignRequest → Text → ℕ → Type 0
  IsBody r content n =
      (int_of (coalesce r.content_length (codes "0")) ≡ some (pos n))
      × (content ≡ take n r.sent)
      × (openvpn_server.Base.length content ≡ n)
      × (length_fits (pos n) ≡ true)

  signed_or-IsProfile :
      (w : Surroundings) (r : SignRequest) (s : SignerState) (o : Option Text)
      → ((p : Text) → o ≡ some p → IsSigned w r s.hostname s.relay_url s.cached p)
      → IsProfile w r s (response_of loads dumps tools strip cms (signed_or o))
  signed_or-IsProfile w r s none make = tt
  signed_or-IsProfile w r s (some p) make = make p refl

  signature_of-IsProfile :
      (w : Surroundings) (r : SignRequest) (s : SignerState) (content : Text) (n : ℕ) (i : Identity)
      → (identity tools strip s.hostname w.stamp w.monotonic w.now w.store s.cached).0 ≡ i
      → accepts loads dumps s.relay_url content ≡ some true
      → IsBody r content n
      → IsProfile w r s (
          response_of loads dumps tools strip cms
            (signature_of loads dumps tools strip cms i content))
  signature_of-IsProfile w r s content n invalid_identity e ok b = tt
  signature_of-IsProfile w r s content n unreadable e ok b = tt
  signature_of-IsProfile w r s content n (identified c) e ok (declared, taken, long, fits) =
      signed_or-IsProfile w r s (cms c content) (λ p h. record {
        content = content;
        length = n;
        candidate = c;
        declared = declared;
        body = (taken, long);
        limited = fits_bounds n fits;
        relay = (accepts_sound loads dumps s.relay_url content ok).1;
        chosen = e;
        signature = h;
      })

  sign_accepted-IsProfile :
      (w : Surroundings) (r : SignRequest) (s : SignerState) (content : Text) (n : ℕ)
      (o : Option Bool)
      → accepts loads dumps s.relay_url content ≡ o
      → IsBody r content n
      → IsProfile w r s (
          response_of loads dumps tools strip cms
            (sign_accepted loads dumps tools strip cms w s content o).0)
  sign_accepted-IsProfile w r s content n none e b = tt
  sign_accepted-IsProfile w r s content n (some false) e b = tt
  sign_accepted-IsProfile w r s content n (some true) e b =
      signature_of-IsProfile w r s content n _ refl e b

  sign_body-IsProfile :
      (w : Surroundings) (r : SignRequest) (s : SignerState) (n : ℕ)
      → int_of (coalesce r.content_length (codes "0")) ≡ some (pos n)
      → length_fits (pos n) ≡ true
      → IsProfile w r s (sign_body loads dumps tools strip cms w s n (read_body r n)).0
  unfolding sign
  sign_body-IsProfile w r s n declared fits =
      elim (Bool-cases (ltb (openvpn_server.Base.length r.sent) n && r.stalls)) [
        | inl late ↦ rw late tt
        | inr here ↦ rw here (elim (Bool-cases (openvpn_server.Base.length (take n r.sent) == n)) [
          | inl whole ↦ rw whole (
              sign_accepted-IsProfile w r s (take n r.sent) n _ refl
                (declared, refl, ground (arith, whole), fits))
          | inr part ↦ rw part tt
        ])
      ]

  sign_request-IsProfile :
      (w : Surroundings) (r : SignRequest) (s : SignerState) (o : Option ℤ)
      → int_of (coalesce r.content_length (codes "0")) ≡ o
      → IsProfile w r s (sign_request loads dumps tools strip cms w r s o).0
  sign_request-IsProfile w r s none e = tt
  sign_request-IsProfile w r s (some (negsuc n)) e = tt
  sign_request-IsProfile w r s (some (pos n)) e =
      elim (Bool-cases (not (length_fits (pos n)) || has_encoding r.transfer_encoding)) [
        | inl bad ↦ rw bad tt
        | inr good ↦ rw good (sign_body-IsProfile w r s n e (ground arith))
      ]

  health_of-IsProfile :
      (w : Surroundings) (r : SignRequest) (s : SignerState) (i : Identity)
      → IsProfile w r s (health_of loads dumps tools strip cms i)
  health_of-IsProfile w r s (identified c) = tt
  health_of-IsProfile w r s invalid_identity = tt
  health_of-IsProfile w r s unreadable = tt

  handle-IsProfile :
      (signing : Bool) (w : Surroundings) (r : SignRequest) (s : SignerState)
      → IsProfile w r s (handle loads dumps tools strip cms signing w r s).0
  handle-IsProfile true w r s = sign_request-IsProfile w r s _ refl
  handle-IsProfile false w r s = health_of-IsProfile w r s _

  sign_accepted-slots :
      (w : Surroundings) (s : SignerState) (content : Text) (o : Option Bool)
      → (sign_accepted loads dumps tools strip cms w s content o).1.slots ≡ s.slots
  sign_accepted-slots w s content none = refl
  sign_accepted-slots w s content (some true) = refl
  sign_accepted-slots w s content (some false) = refl

  sign_body-slots :
      (w : Surroundings) (s : SignerState) (n : ℕ) (o : Option Text)
      → (sign_body loads dumps tools strip cms w s n o).1.slots ≡ s.slots
  unfolding sign
  sign_body-slots w s n none = refl
  sign_body-slots w s n (some content) =
      elim (Bool-cases (openvpn_server.Base.length content == n)) [
        | inl whole ↦ rw whole (sign_accepted-slots w s content _)
        | inr part ↦ rw part refl
      ]

  sign_request-slots :
      (w : Surroundings) (r : SignRequest) (s : SignerState) (o : Option ℤ)
      → (sign_request loads dumps tools strip cms w r s o).1.slots ≡ s.slots
  sign_request-slots w r s none = refl
  sign_request-slots w r s (some n) =
      elim (Bool-cases (not (length_fits n) || has_encoding r.transfer_encoding)) [
        | inl bad ↦ rw bad refl
        | inr good ↦ rw good (sign_body-slots w s (size_of n) _)
      ]

  handle-slots :
      (signing : Bool) (w : Surroundings) (r : SignRequest) (s : SignerState)
      → (handle loads dumps tools strip cms signing w r s).1.slots ≡ s.slots
  handle-slots true w r s =
      sign_request-slots w r s (int_of (coalesce r.content_length (codes "0")))
  handle-slots false w r s = refl

  -- Not refused before the slot is taken.
  abbrev pub IsAdmitted : SignRequest → SignerState → Type 0
  IsAdmitted r s =
      (r.path ≡ codes "/internal/relay-sign")
      × (coalesce r.authorization [] ≡ codes "Bearer " ++ s.token)
      × (0 < s.slots)

  -- The response, whatever it is, and the slots.
  abbrev IsDispatched : Surroundings → SignRequest → SignerState → Response × SignerState → Type 0
  IsDispatched w r s (answer, s') =
      (s'.slots ≡ s.slots)
      × (((answer ≡ failed 404) ⊎ ((answer ≡ failed 403) ⊎ ((answer ≡ failed 503) × (s.slots ≡ 0))))
          ⊎ (IsAdmitted r s × IsProfile w r s answer))

  dispatch-IsDispatched :
      (signing : Bool) (w : Surroundings) (r : SignRequest) (s : SignerState)
      → IsDispatched w r s (dispatch loads dumps tools strip cms signing w r s)
  unfolding dispatch
  dispatch-IsDispatched signing w r s =
      elim (Bool-cases (text_eq r.path (codes "/internal/relay-sign"))) [
        | inr off ↦ rw off (refl, inl (inl refl))
        | inl on ↦
            elim (Bool-cases (text_eq (coalesce r.authorization []) (codes "Bearer " ++ s.token))) [
              | inr denied ↦ rw (on, denied) (refl, inl (inr (inl refl)))
              | inl known ↦ elim (Bool-cases (s.slots == 0)) [
                | inl busy ↦
                    rw (on, known, busy) (refl, inl (inr (inr (refl, ground (arith, busy)))))
                | inr free ↦
                    let s0 = record s { slots = s.slots - 1 } in
                    rw (on, known, free)
                      (
                        omega (arith, handle-slots signing w r s0, positive s.slots free),
                        inr (
                          (
                            text_eq_sound r.path (codes "/internal/relay-sign") on,
                            text_eq_sound (coalesce r.authorization []) (codes "Bearer " ++ s.token)
                                known,
                            positive s.slots free,
                          ),
                          handle-IsProfile signing w r s0,
                        ),
                      )
              ]
            ]
      ]

  -- However a request is answered, the free slots are as before it.
  dispatch-slots :
      (signing : Bool) (w : Surroundings) (r : SignRequest) (s : SignerState)
      → (dispatch loads dumps tools strip cms signing w r s).1.slots ≡ s.slots
  dispatch-slots signing w r s = (dispatch-IsDispatched signing w r s).0

  judged-IsVerified :
      (calls : List Call) (call : Call) (hostname : Text) (cached : Option Cached) (c : Candidate)
      (i : Identity × Option Cached)
      → IsJudged tools strip hostname calls call cached i
      → i.0 ≡ identified c
      → IsVerified tools strip hostname c
  judged-IsVerified calls call hostname cached c (identified d, next) ((k, _, same, chosen), _) e =
      subst (IsVerified tools strip hostname) (same ∙ identified_eq e) chosen.0
  judged-IsVerified calls call hostname cached c (invalid_identity, next) j e =
      absurd (ground arith)
  judged-IsVerified calls call hostname cached c (unreadable, next) j e = absurd (ground arith)

  abbrev call_of : Surroundings → Call
  call_of w = record { stamp = w.stamp; monotonic = w.monotonic; now = w.now; store = w.store }

  -- After any earlier calls for an identity, a profile is answered only on the path of the signer, to
  -- its token, while a slot is free. What is signed is the body, of the declared length and at most
  -- 128 KiB, and the canonical print of a relay profile for the configured addresses only; what signs
  -- it is a key that fits its certificate, which openssl trusts for the host.
  pub dispatch_signs :
      (signing : Bool) (w : Surroundings) (r : SignRequest) (s s' : SignerState) (p : Text)
      → {calls : List Call} → CacheReach tools strip s.hostname calls s.cached
      → dispatch loads dumps tools strip cms signing w r s ≡ (profile p, s')
      → IsAdmitted r s
        × ((g : IsSigned w r s.hostname s.relay_url s.cached p) × IsVerified tools strip s.hostname
              g.candidate)
  dispatch_signs signing w r s s' p {calls = calls} reach h =
      let (_, either) = subst (IsDispatched w r s) h (dispatch-IsDispatched signing w r s) in
      elim either [
        | inl (inl e) ↦ absurd (ground arith)
        | inl (inr (inl e)) ↦ absurd (ground arith)
        | inl (inr (inr (e, _))) ↦ absurd (ground arith)
        | inr (admitted, g) ↦ (
          admitted,
          (
            g,
            judged-IsVerified calls (call_of w) s.hostname s.cached g.candidate _
                (CacheReach-IsJudged tools strip s.hostname reach (call_of w)) g.chosen,
          ),
        )
      ]
