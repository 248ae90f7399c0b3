-- ===== src/Mgmt/Fields.antt =====
-- ui/app/mgmt.py: the lines of a status as OpenVPN prints it, in version 2 or 3 (those of
-- ui/tests/test_parsers.py), and the fields that the code reads in one.
use openvpn_server.Base.{
  ℕ, ◌≡◌, refl, Bool, true, false, some, List, [], ◌∷◌, ◌++◌, map, Text, codes, text_eq, nonempty,
  contains_code, join, split-join, contains_code-join, IsFree, IsFree-join, All, All-map, str_of,
  int_of-str_of, isdigit, isdigit-str_of, all_digits, is_digit, pos, arith,
}
use openvpn_server.Mgmt.Status.{
  put_named, get_text, zip, Row, normalise_client, int_or_zero, parts_of,
}
use openvpn_server.Collector.State.{Client}

pub data Version : Type 0 where
  commas tabs : Version

abbrev pub separator : Version → ℕ
separator commas = 44
separator tabs = 9

abbrev pub IsPlain : Version → Text → Type 0
IsPlain v t = IsFree 9 t × IsFree (separator v) t

abbrev pub columns : List Text
columns =
    codes "Common Name"
    ∷ codes "Real Address"
    ∷ codes "Virtual Address"
    ∷ codes "Virtual IPv6 Address"
    ∷ codes "Bytes Received"
    ∷ codes "Bytes Sent"
    ∷ codes "Connected Since"
    ∷ codes "Connected Since (time_t)"
    ∷ codes "Username"
    ∷ codes "Client ID"
    ∷ codes "Peer ID"
    ∷ codes "Data Channel Cipher"
    ∷ []

-- The values of a client, with its start written as a date too.
abbrev pub values_of : (ℕ → Text) → Client → List Text
values_of date cl =
    cl.cn
    ∷ cl.real_address
    ∷ cl.vpn_ip
    ∷ cl.vpn_ipv6
    ∷ str_of cl.bytes_in
    ∷ str_of cl.bytes_out
    ∷ date cl.connected_since
    ∷ str_of cl.connected_since
    ∷ cl.username
    ∷ str_of cl.cid
    ∷ str_of cl.peer_id
    ∷ cl.cipher
    ∷ []

-- The client that the code is to read.
abbrev pub row_of : Client → Row
row_of cl = record {
  cn = cl.cn;
  real_address = cl.real_address;
  vpn_ip = cl.vpn_ip;
  vpn_ipv6 = cl.vpn_ipv6;
  bytes_in = pos cl.bytes_in;
  bytes_out = pos cl.bytes_out;
  connected_since = pos cl.connected_since;
  username = cl.username;
  cid = pos cl.cid;
  peer_id = pos cl.peer_id;
  cipher = cl.cipher;
}

-- The texts of a client hold no separator.
abbrev pub IsPrintable : Version → (ℕ → Text) → Client → Type 0
IsPrintable v date cl =
    IsPlain v cl.cn
    × IsPlain v cl.real_address
    × IsPlain v cl.vpn_ip
    × IsPlain v cl.vpn_ipv6
    × IsPlain v (date cl.connected_since)
    × IsPlain v cl.username
    × IsPlain v cl.cipher

abbrev pub client_lines : Version → (ℕ → Text) → List Client → List Text
client_lines v date cls =
    map (λ cl. join (separator v) (codes "CLIENT_LIST" ∷ values_of date cl)) cls

abbrev pub stat_lines : Version → List (Text × Text) → List Text
stat_lines v stats = map (λ s. join (separator v) (codes "GLOBAL_STATS" ∷ s.0 ∷ s.1 ∷ [])) stats

abbrev pub route_columns : List Text
route_columns =
    codes "Virtual Address"
    ∷ codes "Common Name"
    ∷ codes "Real Address"
    ∷ codes "Last Ref"
    ∷ codes "Last Ref (time_t)"
    ∷ []

-- A row of the routing table.
pub record Route : Type 0 where
  pub virtual : Text
  pub cn : Text
  pub real_address : Text
  pub last_ref : ℕ

abbrev pub route_values : (ℕ → Text) → Route → List Text
route_values date r = r.virtual ∷ r.cn ∷ r.real_address ∷ date r.last_ref ∷ str_of r.last_ref ∷ []

-- The texts of a route hold no separator.
abbrev pub IsRoutable : Version → (ℕ → Text) → Route → Type 0
IsRoutable v date r =
    IsPlain v r.virtual × IsPlain v r.cn × IsPlain v r.real_address × IsPlain v (date r.last_ref)

abbrev pub route_lines : Version → (ℕ → Text) → List Route → List Text
route_lines v date routes =
    map (λ r. join (separator v) (codes "ROUTING_TABLE" ∷ route_values date r)) routes

-- The statistics of these lines, beside those before: of one name, the last is kept.
unfoldable pub stats_of : List (Text × Text) → List (Text × Text) → List (Text × Text)
stats_of [] before = before
stats_of ((name, value) ∷ stats) before = stats_of stats (put_named name value before)

-- The line END closes a status file; of an answer, the connection has taken it off.
abbrev pub end_lines : Bool → List Text
end_lines true = codes "END" ∷ []
end_lines false = []

-- The lines after those of the clients.
abbrev pub later_lines : Version → (ℕ → Text) → List Route → List (Text × Text) → Bool → List Text
later_lines v date routes stats in_file =
    join (separator v) (codes "HEADER" ∷ codes "ROUTING_TABLE" ∷ route_columns)
    ∷ (route_lines v date routes ++ (stat_lines v stats ++ end_lines in_file))

abbrev pub print_status :
    Version
    → (ℕ → Text)
    → ℕ
    → Text
    → List Client
    → List Route
    → List (Text × Text)
    → Bool
    → List Text
print_status v date time title clients routes stats in_file =
    join (separator v) (codes "TITLE" ∷ title ∷ [])
    ∷ join (separator v) (codes "TIME" ∷ date time ∷ str_of time ∷ [])
    ∷ join (separator v) (codes "HEADER" ∷ codes "CLIENT_LIST" ∷ columns)
    ∷ (client_lines v date clients ++ later_lines v date routes stats in_file)

pub parts_of-join :
    (v : Version) (f g : Text) (fs : List Text)
    → All (IsPlain v) (f ∷ g ∷ fs)
    → parts_of (join (separator v) (f ∷ g ∷ fs)) ≡ f ∷ g ∷ fs
unfolding parts_of
parts_of-join commas f g fs a =
    rw (IsFree-join 9 44 f (g ∷ fs) refl (All-map (λ t. λ p. p.0) (f ∷ g ∷ fs) a))
      (split-join 44 f (g ∷ fs) (All-map (λ t. λ p. p.1) (f ∷ g ∷ fs) a))
parts_of-join tabs f g fs a =
    rw (contains_code-join 9 f g fs)
      (split-join 9 f (g ∷ fs) (All-map (λ t. λ p. p.1) (f ∷ g ∷ fs) a))

free_of_digits :
    (c : ℕ) (t : Text) → is_digit c ≡ false → all_digits t ≡ true → contains_code t c ≡ false
unfolding all_digits contains_code
free_of_digits c [] e h = refl
free_of_digits c (d ∷ t) e h = ground (arith, free_of_digits c t)

isdigit-all : (t : Text) → isdigit t ≡ true → (all_digits t ≡ true) × (nonempty t ≡ true)
unfolding isdigit
isdigit-all [] h = absurd (ground arith)
isdigit-all (c ∷ t) h = (h, refl)

pub number-IsPlain : (v : Version) (n : ℕ) → IsPlain v (str_of n)
number-IsPlain commas n =
    let (d, _) = isdigit-all (str_of n) (isdigit-str_of n) in
    (free_of_digits 9 (str_of n) refl d, free_of_digits 44 (str_of n) refl d)
number-IsPlain tabs n =
    let (d, _) = isdigit-all (str_of n) (isdigit-str_of n) in
    (free_of_digits 9 (str_of n) refl d, free_of_digits 9 (str_of n) refl d)

int_or_zero-str_of : (n : ℕ) → int_or_zero (some (str_of n)) ≡ pos n
int_or_zero-str_of n = rw ((isdigit-all (str_of n) (isdigit-str_of n)).1, int_of-str_of n) refl

pub normalise_client-values :
    (date : ℕ → Text) (cl : Client) → normalise_client (zip columns (values_of date cl)) ≡ row_of cl
unfolding get_text text_eq
normalise_client-values date cl =
    rw
      (
        int_or_zero-str_of cl.bytes_in,
        int_or_zero-str_of cl.bytes_out,
        int_or_zero-str_of cl.connected_since,
        int_or_zero-str_of cl.cid,
        int_or_zero-str_of cl.peer_id,
      )
      refl

pub client_fields-IsPlain :
    (v : Version) (date : ℕ → Text) (cl : Client)
    → IsPrintable v date cl
    → All (IsPlain v) (codes "CLIENT_LIST" ∷ values_of date cl)
unfolding contains_code
client_fields-IsPlain commas date cl (cn, real, ip, ipv6, since, user, cipher) = (
  (refl, refl),
  (
    cn,
    (
      real,
      (
        ip,
        (
          ipv6,
          (
            number-IsPlain commas cl.bytes_in,
            (
              number-IsPlain commas cl.bytes_out,
              (
                since,
                (
                  number-IsPlain commas cl.connected_since,
                  (
                    user,
                    (
                      number-IsPlain commas cl.cid,
                      (number-IsPlain commas cl.peer_id, (cipher, tt)),
                    ),
                  ),
                ),
              ),
            ),
          ),
        ),
      ),
    ),
  ),
)
client_fields-IsPlain tabs date cl (cn, real, ip, ipv6, since, user, cipher) = (
  (refl, refl),
  (
    cn,
    (
      real,
      (
        ip,
        (
          ipv6,
          (
            number-IsPlain tabs cl.bytes_in,
            (
              number-IsPlain tabs cl.bytes_out,
              (
                since,
                (
                  number-IsPlain tabs cl.connected_since,
                  (
                    user,
                    (number-IsPlain tabs cl.cid, (number-IsPlain tabs cl.peer_id, (cipher, tt))),
                  ),
                ),
              ),
            ),
          ),
        ),
      ),
    ),
  ),
)

pub route_fields-IsPlain :
    (v : Version) (date : ℕ → Text) (r : Route)
    → IsRoutable v date r
    → All (IsPlain v) (codes "ROUTING_TABLE" ∷ route_values date r)
unfolding contains_code
route_fields-IsPlain commas date r (virtual, cn, real, ref) =
    ((refl, refl), (virtual, (cn, (real, (ref, (number-IsPlain commas r.last_ref, tt))))))
route_fields-IsPlain tabs date r (virtual, cn, real, ref) =
    ((refl, refl), (virtual, (cn, (real, (ref, (number-IsPlain tabs r.last_ref, tt))))))
