-- ===== src/Db/Address.antt =====
-- ui/app/db.py, split_address and real_ip: the parts of a real address as OpenVPN prints it.
use openvpn_server.Base.{
  ℕ, ◌≡◌, refl, true, false, ◌&&◌, ◌||◌, Option, none, some, [], ◌∷◌, ◌++◌, arith, Text, codes,
  text_eq, partition, rpartition, contains_code, take, if◌then◌else◌, coalesce,
}

abbrev colon : ℕ
colon = b':'

unfoldable pub split_address : Option Text → Option Text × Text
split_address given =
    let address : Text = coalesce given [] in
    let (head, sep, rest) = partition address colon in
    if sep && (text_eq (take 3 head) (codes "udp") || text_eq (take 3 head) (codes "tcp"))
    then (some (take 3 head), rest)
    else (none, address)

unfoldable pub real_ip : Option Text → Text
real_ip address = (rpartition (split_address address).1 colon).0

udp :
    split_address (some (codes "udp4:203.0.113.5:1194"))
    ≡ (some (codes "udp"), codes "203.0.113.5:1194")
unfolding split_address partition text_eq
udp = refl

plain : real_ip (some (codes "203.0.113.5:1194")) ≡ codes "203.0.113.5"
unfolding real_ip split_address partition rpartition text_eq
plain = refl

partition-append :
    (s t : Text) (sep : ℕ)
    → contains_code s sep ≡ false
    → partition (s ++ sep ∷ t) sep ≡ (s, true, t)
unfolding partition contains_code
partition-append [] t sep h = ground arith
partition-append (c ∷ s) t sep h = ground (arith, partition-append s t sep)

rpartition_none :
    (s : Text) (sep : ℕ) → contains_code s sep ≡ false → rpartition s sep ≡ ([], false, s)
unfolding rpartition contains_code
rpartition_none [] sep h = refl
rpartition_none (c ∷ s) sep h = ground (arith, rpartition_none s sep)

rpartition-append :
    (s t : Text) (sep : ℕ)
    → contains_code t sep ≡ false
    → rpartition (s ++ sep ∷ t) sep ≡ (s, true, t)
unfolding rpartition contains_code
rpartition-append [] t sep h = ground (arith, rpartition_none t sep)
rpartition-append (c ∷ s) t sep h = ground (arith, rpartition-append s t sep)
