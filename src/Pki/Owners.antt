-- ===== src/Pki/Owners.antt =====
-- ui/app/pki.py: `set_static_ip` and `set_guest` keep each address with one client, and guests
-- without one.
use openvpn_server.Base.{
  ℕ, ◌≡◌, ◌⊎◌, inl, inr, refl, Bool, false, Option, none, some, List, [], ◌∷◌, arith, Text, text_eq,
  text_eq_iff, text_eq_sound, nonempty, if◌then◌else◌, Member, delete_where, Bool-cases,
  Option-cases, subst, some_eq,
}
use openvpn_server.Pki.Names.{is_valid_name}
use openvpn_server.Pki.Addresses.{
  Files, other_owner, address_problem, static_ip_problem, put_static, remove_static, is_listed,
  set_static_ip, set_guest,
}

-- No address belongs to two clients, and no guest has a static address.
pub record IsAssigned (f : Files) : Type 0 where
  pub owner : (n m a : Text) → Member (n, a) f.static_ips → Member (m, a) f.static_ips → n ≡ m
  pub guest : (n a : Text) → Member (n, a) f.static_ips → is_listed n f.guests ≡ false

module _ {A : Type 0} where
  Member-delete_where :
      (test : A → Bool) (x : A) (xs : List A)
      → Member x (delete_where test xs)
      → Member x xs × (test x ≡ false)
  unfolding delete_where
  Member-delete_where test x [] m = elim m [ ]
  Member-delete_where test x (y ∷ ys) m = ground (arith, Member-delete_where test x ys)

Member-put_static :
    (name ip : Text) (e : Text × Text) (l : List (Text × Text))
    → Member e (put_static name ip l)
    → (e ≡ (name, ip)) ⊎ Member e l
unfolding put_static
Member-put_static name ip e [] (inl new) = inl new
Member-put_static name ip e [] (inr m) = elim m [ ]
Member-put_static name ip e ((n, a) ∷ l) m =
    ground (arith, text_eq_sound n name, Member-put_static name ip e l)

other_owner-none :
    (name ip m : Text) (l : List (Text × Text))
    → other_owner name ip l ≡ none
    → Member (m, ip) l
    → m ≡ name
unfolding other_owner
other_owner-none name ip m [] h found = elim found [ ]
other_owner-none name ip m ((n, a) ∷ l) h found =
    ground (arith, text_eq_iff a ip, text_eq_iff n name, other_owner-none name ip m l)

problem_owner :
    (read_ip : Text → Option ℕ) (f : Files) (name ip : Text)
    → static_ip_problem read_ip f name ip ≡ none
    → other_owner name ip f.static_ips ≡ none
unfolding static_ip_problem address_problem
problem_owner read_ip f name ip h =
    ground (arith, Option-cases (read_ip ip), Option-cases (other_owner name ip f.static_ips))

put_static-IsAssigned :
    (name ip : Text) (f : Files)
    → other_owner name ip f.static_ips ≡ none
    → is_listed name f.guests ≡ false
    → IsAssigned f
    → IsAssigned (record f { static_ips = put_static name ip f.static_ips })
put_static-IsAssigned name ip f free full valid = record {
  owner = λ n m a x y. ground (
    arith,
    Member-put_static name ip (n, a) f.static_ips x,
    Member-put_static name ip (m, a) f.static_ips y,
    valid.owner n m a,
    other_owner-none name ip n f.static_ips free,
    other_owner-none name ip m f.static_ips free,
  );
  guest = λ n a x.
      ground (arith, Member-put_static name ip (n, a) f.static_ips x, valid.guest n a, full);
}

remove_static-IsAssigned :
    (name : Text) (f : Files)
    → IsAssigned f
    → IsAssigned (record f { static_ips = remove_static name f.static_ips })
remove_static-IsAssigned name f valid =
    let gone = λ (e : Text × Text). text_eq e.0 name in
    record {
      owner = λ n m a x y.
          valid.owner n m a (Member-delete_where gone (n, a) f.static_ips x).0
            (Member-delete_where gone (m, a) f.static_ips y).0;
      guest = λ n a x. valid.guest n a (Member-delete_where gone (n, a) f.static_ips x).0;
    }

-- If every address belongs to one client and no guest has a static address, that stays so when
-- `set_static_ip` accepts an address or removes one.
pub set_static_ip-IsAssigned :
    (read_ip : Text → Option ℕ) (name ip : Text) (f f' : Files)
    → set_static_ip read_ip name ip f ≡ some f'
    → IsAssigned f
    → IsAssigned f'
unfolding set_static_ip
set_static_ip-IsAssigned read_ip name ip f f' h valid = elim (Bool-cases (is_valid_name name)) [
  | inr bad ↦ absurd (ground arith)
  | inl good ↦ elim (Bool-cases (nonempty ip)) [
    | inr empty ↦
        let e : some (record f { static_ips = remove_static name f.static_ips }) ≡ some f' =
          rw (good, empty) at h in
        subst IsAssigned (some_eq e) (remove_static-IsAssigned name f valid)
    | inl given ↦ elim (Bool-cases (is_listed name f.guests)) [
      | inl guest ↦ absurd (ground arith)
      | inr full ↦ elim (Option-cases (static_ip_problem read_ip f name ip)) [
        | inr (problem, e) ↦ absurd (ground arith)
        | inl fine ↦
            let e : some (record f { static_ips = put_static name ip f.static_ips }) ≡ some f' =
              rw (good, given, full, fine) at h in
            subst IsAssigned (some_eq e)
              (put_static-IsAssigned name ip f (problem_owner read_ip f name ip fine) full valid)
      ]
    ]
  ]
]

is_listed-delete :
    (n name : Text) (gs : List Text)
    → is_listed n gs ≡ false
    → is_listed n (delete_where (λ g. text_eq g name) gs) ≡ false
unfolding delete_where
is_listed-delete n name [] h = refl
is_listed-delete n name (g ∷ gs) h = ground (arith, is_listed-delete n name gs)

guest-IsAssigned :
    (name : Text) (f : Files)
    → IsAssigned f
    → IsAssigned (record f {
      static_ips = remove_static name f.static_ips;
      guests = if is_listed name f.guests then f.guests else name ∷ f.guests;
    })
guest-IsAssigned name f valid =
    let gone = λ (e : Text × Text). text_eq e.0 name in
    record {
      owner = (remove_static-IsAssigned name f valid).owner;
      guest = λ n a x.
          let (old, kept) = Member-delete_where gone (n, a) f.static_ips x in
          ground (arith, valid.guest n a old, kept, text_eq_iff n name, text_eq_iff name n);
    }

-- If every address belongs to one client and no guest has a static address, that stays so when
-- `set_guest` makes a client a guest, whose static address it removes, or a full-access client.
set_guest-IsAssigned :
    (name : Text) (guest : Bool) (f f' : Files)
    → set_guest name guest f ≡ some f'
    → IsAssigned f
    → IsAssigned f'
unfolding set_guest
set_guest-IsAssigned name guest f f' h valid = elim (Bool-cases (is_valid_name name)) [
  | inr bad ↦ absurd (ground arith)
  | inl good ↦ elim (Bool-cases guest) [
    | inl on ↦ subst IsAssigned (some_eq (rw (good, on) at h)) (guest-IsAssigned name f valid)
    | inr off ↦ subst IsAssigned (some_eq (rw (good, off) at h)) (record {
      owner = valid.owner;
      guest = λ n a x. is_listed-delete n name f.guests (valid.guest n a x);
    })
  ]
]
