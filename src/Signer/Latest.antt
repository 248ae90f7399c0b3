-- ===== src/Signer/Latest.antt =====
-- signer/service.py: the certificate that expires last.
use openvpn_server.Base.{
  ℕ, ◌≤◌, ◌≡◌, refl, sym, ap, subst, true, false, List, [], ◌∷◌, ltb, Bool-cases, ltb→lt, Member,
  inl, inr, arith,
}
use openvpn_server.Signer.Identity.{Candidate, Stamp, stamp_eq, latest}

latest_newer :
    (best c : Candidate) (cs : List Candidate)
    → ltb best.expires c.expires ≡ true
    → latest best (c ∷ cs) ≡ latest c cs
unfolding latest
latest_newer best c cs h = rw h refl

latest_older :
    (best c : Candidate) (cs : List Candidate)
    → ltb best.expires c.expires ≡ false
    → latest best (c ∷ cs) ≡ latest best cs
unfolding latest
latest_older best c cs h = rw h refl

pub latest-Member : (best : Candidate) (cs : List Candidate) → Member (latest best cs) (best ∷ cs)
unfolding latest
latest-Member best [] = inl refl
latest-Member best (c ∷ cs) = elim (Bool-cases (ltb best.expires c.expires)) [
  | inl newer ↦
      subst (λ x. Member x (best ∷ c ∷ cs)) (sym (latest_newer best c cs newer))
        (inr (latest-Member c cs))
  | inr older ↦
      subst (λ x. Member x (best ∷ c ∷ cs)) (sym (latest_older best c cs older))
        (elim (latest-Member best cs) [ inl is ↦ inl is | inr later ↦ inr (inr later) ])
]

not_newer : (a b : ℕ) → ltb a b ≡ false → b ≤ a
not_newer a b h = ground arith

expires_ap : {a b : Candidate} → a ≡ b → a.expires ≡ b.expires
expires_ap e = ap (λ (c : Candidate). c.expires) e

pub latest-le :
    (best : Candidate) (cs : List Candidate) (x : Candidate)
    → Member x (best ∷ cs)
    → x.expires ≤ (latest best cs).expires
unfolding latest
latest-le best [] x (inl e) = omega (arith, expires_ap e)
latest-le best [] x (inr m) = elim m [ ]
latest-le best (c ∷ cs) x m = elim (Bool-cases (ltb best.expires c.expires)) [
  | inl newer ↦
      let same = expires_ap (latest_newer best c cs newer) in
      elim m [
        | inl e ↦ omega (
          arith,
          expires_ap e,
          ltb→lt best.expires c.expires newer,
          latest-le c cs c (inl refl),
          same,
        )
        | inr later ↦ omega (arith, latest-le c cs x later, same)
      ]
  | inr older ↦
      let same = expires_ap (latest_older best c cs older) in
      elim m [
        | inl e ↦ omega (arith, latest-le best cs x (inl e), same)
        | inr (inl e) ↦ omega (
          arith,
          expires_ap e,
          not_newer best.expires c.expires older,
          latest-le best cs best (inl refl),
          same,
        )
        | inr (inr later) ↦ omega (arith, latest-le best cs x (inr later), same)
      ]
]

stamp_parts :
    (a b : Stamp) → stamp_eq a b ≡ true → (a.ino ≡ b.ino) × (a.mtime ≡ b.mtime) × (a.size ≡ b.size)
stamp_parts a b h = (ground arith, ground arith, ground arith)

pub stamp_eq_sound : (a b : Stamp) → stamp_eq a b ≡ true → a ≡ b
stamp_eq_sound a b h =
    let (ino, mtime, size) = stamp_parts a b h in
    λ i. record { ino = ino i; mtime = mtime i; size = size i }
