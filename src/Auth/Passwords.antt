-- ===== src/Auth/Passwords.antt =====
-- ui/app/auth.py: password hashes. scrypt and base64 are parameters; a call of them that raises
-- ValueError is `none`.
use openvpn_server.Base.{
  ℕ, ◌≡◌, ◌∙◌, refl, ap, sym, Bool, true, false, not, ◌&&◌, Option, none, some, List, [], ◌∷◌, ◌++◌,
  arith, Text, text_eq, text_eq_refl, text_eq_sound, codes, if◌then◌else◌, ◌==◌, split,
  contains_code, length, Bool-cases, Option-cases, inl, inr, ℤ, pos, int_of, str_of, take, drop,
}

abbrev pub scrypt_n : ℕ
scrypt_n = 32768

abbrev pub scrypt_r : ℕ
scrypt_r = 8

abbrev pub scrypt_p : ℕ
scrypt_p = 3

abbrev dollar : ℕ
dollar = b'$'

-- The library calls: scrypt of a password with a salt, n, r, p and the length of the digest; base64.
pub record Crypto : Type 0 where
  pub scrypt : Text → Text → ℤ → ℤ → ℤ → ℕ → Option Text
  pub b64encode : Text → Text
  pub b64decode : Text → Option Text

-- What base64 promises.
pub record IsBase64 (c : Crypto) : Type 0 where
  pub decode : (b : Text) → c.b64decode (c.b64encode b) ≡ some b
  pub alphabet : (b : Text) → contains_code (c.b64encode b) dollar ≡ false

abbrev pub parameters : Text
parameters = str_of scrypt_n ++ dollar ∷ (str_of scrypt_r ++ dollar ∷ str_of scrypt_p)

-- "scrypt${}${}${}${}${}".format(...)
abbrev pub stored_text : Crypto → Text → Text → Text
stored_text c salt digest =
    codes "scrypt"
    ++ dollar ∷ (parameters ++ dollar ∷ (c.b64encode salt ++ dollar ∷ c.b64encode digest))

-- `hash_password` with the salt that `os.urandom` gave.
unfoldable pub hash_password : Crypto → Text → Text → Option Text
hash_password c password salt =
    elim (c.scrypt password salt (pos scrypt_n) (pos scrypt_r) (pos scrypt_p) 32) [
      | none ↦ none
      | some digest ↦ some (stored_text c salt digest)
    ]

-- The comparison, once the parts of the stored hash are read.
unfoldable pub check_digest : Crypto → Text → Text → Text → Option ℤ → Option ℤ → Option ℤ → Bool
check_digest c password salt expected (some n) (some r) (some p) =
    elim (c.scrypt password salt n r p (length expected)) [
      | none ↦ false
      | some digest ↦ text_eq digest expected
    ]
check_digest c password salt expected _ _ _ = false

unfoldable pub check_parts : Crypto → Text → List Text → Bool
unfolding check_digest
check_parts c password (algo ∷ n ∷ r ∷ p ∷ salt ∷ digest ∷ []) =
    if not (text_eq algo (codes "scrypt")) then false else (elim (c.b64decode salt) [
      | none ↦ false
      | some s ↦ (elim (c.b64decode digest) [
        | none ↦ false
        | some expected ↦ check_digest c password s expected (int_of n) (int_of r) (int_of p)
      ])
    ])
check_parts c password _ = false

-- Every ValueError on the way is a refusal.
unfoldable pub verify_password : Crypto → Text → Text → Bool
verify_password c password stored = check_parts c password (split stored dollar)

unfoldable pub texts_eq : List Text → List Text → Bool
texts_eq [] [] = true
texts_eq (s ∷ ss) (t ∷ ts) = text_eq s t && texts_eq ss ts
texts_eq _ _ = false

-- `stored.split("$")[1:4]` against today's parameters.
unfoldable pub needs_rehash : Text → Bool
needs_rehash stored = not (
    texts_eq (take 3 (drop 1 (split stored dollar)))
      (str_of scrypt_n ∷ str_of scrypt_r ∷ str_of scrypt_p ∷ []))

split-append :
    (s rest : Text) (sep : ℕ)
    → contains_code s sep ≡ false
    → split (s ++ sep ∷ rest) sep ≡ s ∷ split rest sep
unfolding split contains_code
split-append [] rest sep h = ground arith
split-append (c ∷ s) rest sep h = elim (Bool-cases (c == sep)) [
  | inl e ↦ absurd (ground arith)
  | inr e ↦ rw e (rw (split-append s rest sep (ground arith)))
]

split_none : (s : Text) (sep : ℕ) → contains_code s sep ≡ false → split s sep ≡ s ∷ []
unfolding split contains_code
split_none [] sep h = refl
split_none (c ∷ s) sep h = elim (Bool-cases (c == sep)) [
  | inl e ↦ absurd (ground arith)
  | inr e ↦ rw e (rw (split_none s sep (ground arith)))
]

abbrev parts : Crypto → Text → Text → List Text
parts c salt digest =
    codes "scrypt"
    ∷ str_of scrypt_n
    ∷ str_of scrypt_r
    ∷ str_of scrypt_p
    ∷ c.b64encode salt
    ∷ c.b64encode digest
    ∷ []

split-stored_text :
    (c : Crypto) (salt digest : Text)
    → IsBase64 c
    → split (stored_text c salt digest) dollar ≡ parts c salt digest
unfolding split str_of
split-stored_text c salt digest laws = rw (
  split-append (c.b64encode salt) (c.b64encode digest) dollar (laws.alphabet salt),
  split_none (c.b64encode digest) dollar (laws.alphabet digest),
)

hash_password-eq :
    (c : Crypto) (password salt stored : Text)
    → hash_password c password salt ≡ some stored
    → (digest : Text) × (c.scrypt password salt (pos scrypt_n) (pos scrypt_r) (pos scrypt_p) 32
        ≡ some digest)
      × (stored ≡ stored_text c salt digest)
unfolding hash_password
hash_password-eq c password salt stored h =
    elim (Option-cases (c.scrypt password salt (pos scrypt_n) (pos scrypt_r) (pos scrypt_p) 32)) [
      | inl bad ↦ absurd (ground arith)
      | inr (digest, good) ↦ (digest, good, ground arith)
    ]

check-parts :
    (c : Crypto) (password salt digest : Text)
    → IsBase64 c
    → check_parts c password (parts c salt digest)
      ≡ (elim (c.scrypt password salt
          (pos scrypt_n)
          (pos scrypt_r)
          (pos scrypt_p)
          (length digest)) [ none ↦ false | some other ↦ text_eq other digest ])
unfolding check_parts str_of int_of text_eq
check-parts c password salt digest laws = rw (laws.decode salt, laws.decode digest)

-- A hash that `hash_password` made is accepted for its password and needs no new hash, if base64
-- decodes what it encodes and uses no dollar sign, and scrypt gives digests of the length asked for.
pub verify_password-hash_password :
    (c : Crypto) (password salt stored : Text)
    → IsBase64 c
    → ((p s d : Text) (n r q : ℤ) (len : ℕ) → c.scrypt p s n r q len ≡ some d → length d ≡ len)
    → hash_password c password salt ≡ some stored
    → (verify_password c password stored ≡ true) × (needs_rehash stored ≡ false)
unfolding verify_password needs_rehash texts_eq
verify_password-hash_password c password salt stored laws size h =
    let (digest, made, text) = hash_password-eq c password salt stored h in
    rw (text, split-stored_text c salt digest laws)
      (
        check-parts c password salt digest laws
            ∙ rw (size _ _ digest _ _ _ 32 made, made) (text_eq_refl digest),
        rw (
          text_eq_refl (str_of scrypt_n),
          text_eq_refl (str_of scrypt_r),
          text_eq_refl (str_of scrypt_p),
        ),
      )

accepted :
    (o : Option Text) (d : Text)
    → (elim o [ none ↦ false | some other ↦ text_eq other d ]) ≡ true
    → o ≡ some d
accepted none d h = cc
accepted (some other) d h = ap some (text_eq_sound other d h)

-- Another password is refused unless scrypt gives the same digest for it.
verify_password-other :
    (c : Crypto) (password other salt digest stored : Text)
    → IsBase64 c
    → ((p s d : Text) (n r q : ℤ) (len : ℕ) → c.scrypt p s n r q len ≡ some d → length d ≡ len)
    → c.scrypt password salt (pos scrypt_n) (pos scrypt_r) (pos scrypt_p) 32 ≡ some digest
    → hash_password c password salt ≡ some stored
    → verify_password c other stored ≡ true
    → c.scrypt other salt (pos scrypt_n) (pos scrypt_r) (pos scrypt_p) 32 ≡ some digest
unfolding verify_password
verify_password-other c password other salt digest stored laws size made h ok =
    let (d, m, text) = hash_password-eq c password salt stored h in
    let same : d ≡ digest = cc in
    let read : check_parts c other (parts c salt d) ≡ true =
      rw (text, split-stored_text c salt d laws) at ok in
    let checked = accepted _ d (sym (check-parts c other salt d laws) ∙ read) in
    rw (size _ _ d _ _ _ 32 m, same) at checked
