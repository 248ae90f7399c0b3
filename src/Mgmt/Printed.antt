-- ===== src/Mgmt/Printed.antt =====
-- ui/app/mgmt.py, parse_status on a status as OpenVPN prints it, in version 2 or 3 (the lines of
-- ui/tests/test_parsers.py).
use openvpn_server.Base.{
  ℕ, ◌≡◌, refl, ap, ◌∙◌, sym, Bool, true, false, not, ◌&&◌, some, List, [], ◌∷◌, ◌++◌, map,
  append-nil, append_assoc, Text, codes, text_eq, contains_code, split, join, All, str_of,
  int_of-str_of, ℤ, pos, arith,
}
use openvpn_server.Mgmt.Status.{
  put_named, get_text, Row, Parsed, nothing_parsed, take_parts, parts_of, take_lines, time_or,
  parse_status,
}
use openvpn_server.Collector.State.{Client}
use openvpn_server.Mgmt.Fields.{
  Version, commas, tabs, separator, IsPlain, columns, values_of, row_of, IsPrintable, client_lines,
  stat_lines, route_columns, stats_of, Route, IsRoutable, route_lines, end_lines, later_lines,
  print_status, parts_of-join, route_fields-IsPlain, number-IsPlain, normalise_client-values,
  client_fields-IsPlain,
}

take_lines-append :
    (xs ys : List Text) (st : Parsed) → take_lines (xs ++ ys) st ≡ take_lines ys (take_lines xs st)
unfolding take_lines
take_lines-append [] ys st = refl
take_lines-append (x ∷ xs) ys st = take_lines-append xs ys (take_parts (parts_of x) st)

take_line :
    {parts : List Text} {next last : Parsed} (line : Text) (lines : List Text) (st : Parsed)
    → parts_of line ≡ parts
    → take_parts parts st ≡ next
    → take_lines lines next ≡ last
    → take_lines (line ∷ lines) st ≡ last
unfolding take_lines
take_line line lines st e f g =
    ap (λ ps. take_lines lines (take_parts ps st)) e ∙ (ap (take_lines lines) f ∙ g)

-- The state of the loop after the header of the client list.
abbrev headed : ℕ → List Row → List (Text × Text) → Parsed
headed time rows stats = record {
  headers = (codes "CLIENT_LIST", columns) ∷ [];
  clients = rows;
  server_time = some (pos time);
  stats = stats;
}

take_client :
    (date : ℕ → Text) (time : ℕ) (rows : List Row) (cl : Client)
    → take_parts (codes "CLIENT_LIST" ∷ values_of date cl) (headed time rows [])
      ≡ headed time (rows ++ row_of cl ∷ []) []
unfolding get_text text_eq take_parts
take_client date time rows cl =
    ap (λ r. headed time (rows ++ r ∷ []) []) (normalise_client-values date cl)

parts_of-client :
    (v : Version) (date : ℕ → Text) (cl : Client)
    → IsPrintable v date cl
    → parts_of (join (separator v) (codes "CLIENT_LIST" ∷ values_of date cl))
      ≡ codes "CLIENT_LIST" ∷ values_of date cl
parts_of-client v date cl p =
    parts_of-join v (codes "CLIENT_LIST") cl.cn _ (client_fields-IsPlain v date cl p)

take_clients :
    (v : Version) (date : ℕ → Text) (time : ℕ) (cls : List Client) (rows : List Row)
    → All (IsPrintable v date) cls
    → take_lines (client_lines v date cls) (headed time rows [])
      ≡ headed time (rows ++ map row_of cls) []
unfolding take_lines
take_clients v date time [] rows a = ap (λ rs. headed time rs []) (sym (append-nil rows))
take_clients v date time (cl ∷ cls) rows (p, a) =
    take_line _ (client_lines v date cls) (headed time rows []) (parts_of-client v date cl p)
      (take_client date time rows cl)
      (take_clients v date time cls (rows ++ row_of cl ∷ []) a
        ∙ ap (λ rs. headed time rs []) (append_assoc rows (row_of cl ∷ []) (map row_of cls)))

abbrev plain : Version → Text → Bool
plain v t = not (contains_code t 9) && not (contains_code t (separator v))

abbrev all_plain : Version → List Text → Bool
all_plain v [] = true
all_plain v (t ∷ ts) = plain v t && all_plain v ts

all_plain_sound : (v : Version) (ts : List Text) → all_plain v ts ≡ true → All (IsPlain v) ts
all_plain_sound v [] h = tt
all_plain_sound v (t ∷ ts) h = ground (arith, all_plain_sound v ts)

header-IsPlain : (v : Version) → All (IsPlain v) (codes "HEADER" ∷ codes "CLIENT_LIST" ∷ columns)
unfolding contains_code
header-IsPlain commas = all_plain_sound commas (codes "HEADER" ∷ codes "CLIENT_LIST" ∷ columns) refl
header-IsPlain tabs = all_plain_sound tabs (codes "HEADER" ∷ codes "CLIENT_LIST" ∷ columns) refl

route_header-IsPlain :
    (v : Version) → All (IsPlain v) (codes "HEADER" ∷ codes "ROUTING_TABLE" ∷ route_columns)
unfolding contains_code
route_header-IsPlain commas =
    all_plain_sound commas (codes "HEADER" ∷ codes "ROUTING_TABLE" ∷ route_columns) refl
route_header-IsPlain tabs =
    all_plain_sound tabs (codes "HEADER" ∷ codes "ROUTING_TABLE" ∷ route_columns) refl

-- The state of the loop after the header of the routing table too.
abbrev routed : ℕ → List Row → List (Text × Text) → Parsed
routed time rows stats = record {
  headers = (codes "CLIENT_LIST", columns) ∷ (codes "ROUTING_TABLE", route_columns) ∷ [];
  clients = rows;
  server_time = some (pos time);
  stats = stats;
}

take_routes :
    (v : Version) (date : ℕ → Text) (st : Parsed) (routes : List Route)
    → All (IsRoutable v date) routes
    → take_lines (route_lines v date routes) st ≡ st
unfolding take_lines text_eq take_parts
take_routes v date st [] a = refl
take_routes v date st (r ∷ routes) (p, a) =
    take_line _ (route_lines v date routes) st
      (parts_of-join v (codes "ROUTING_TABLE") r.virtual _ (route_fields-IsPlain v date r p)) refl
      (take_routes v date st routes a)

take_end : (st : Parsed) (in_file : Bool) → take_lines (end_lines in_file) st ≡ st
unfolding take_lines take_parts text_eq parts_of contains_code split
take_end st true = refl
take_end st false = refl

stats_tag-IsPlain : (v : Version) → IsPlain v (codes "GLOBAL_STATS")
unfolding contains_code
stats_tag-IsPlain commas = (refl, refl)
stats_tag-IsPlain tabs = (refl, refl)

take_stats :
    (v : Version) (time : ℕ) (rows : List Row) (stats before : List (Text × Text))
    → All (λ s. IsPlain v s.0 × IsPlain v s.1) stats
    → take_lines (stat_lines v stats) (routed time rows before)
      ≡ routed time rows (stats_of stats before)
unfolding take_lines text_eq take_parts stats_of
take_stats v time rows [] before a = refl
take_stats v time rows ((k, s) ∷ stats) before ((pk, ps), a) =
    take_line _ (stat_lines v stats) (routed time rows before)
      (parts_of-join v (codes "GLOBAL_STATS") k (s ∷ []) (stats_tag-IsPlain v, (pk, (ps, tt)))) refl
      (take_stats v time rows stats (put_named k s before) a)

tag-IsPlain : (v : Version) → IsPlain v (codes "TITLE") × IsPlain v (codes "TIME")
unfolding contains_code
tag-IsPlain commas = ((refl, refl), (refl, refl))
tag-IsPlain tabs = ((refl, refl), (refl, refl))

take_time :
    (time : ℕ) (date : Text)
    → take_parts (codes "TIME" ∷ date ∷ str_of time ∷ []) nothing_parsed
      ≡ record nothing_parsed { server_time = some (pos time) }
unfolding take_parts text_eq
take_time time date = rw (int_of-str_of time) refl

take_title :
    (title : Text) → take_parts (codes "TITLE" ∷ title ∷ []) nothing_parsed ≡ nothing_parsed
unfolding take_parts text_eq
take_title title = refl

take_header :
    (time : ℕ)
    → take_parts
        (codes "HEADER" ∷ codes "CLIENT_LIST" ∷ columns)
        (record nothing_parsed { server_time = some (pos time) })
      ≡ headed time [] []
unfolding take_parts text_eq put_named
take_header time = refl

take_route_header :
    (time : ℕ) (rows : List Row)
    → take_parts (codes "HEADER" ∷ codes "ROUTING_TABLE" ∷ route_columns) (headed time rows [])
      ≡ routed time rows []
unfolding take_parts text_eq put_named
take_route_header time rows = refl

take_later :
    (v : Version) (date : ℕ → Text) (time : ℕ) (rows : List Row) (routes : List Route)
    (stats : List (Text × Text)) (in_file : Bool)
    → All (IsRoutable v date) routes
    → All (λ s. IsPlain v s.0 × IsPlain v s.1) stats
    → take_lines (later_lines v date routes stats in_file) (headed time rows [])
      ≡ routed time rows (stats_of stats [])
take_later v date time rows routes stats in_file pr ps =
    let tail = stat_lines v stats ++ end_lines in_file in
    take_line _ (route_lines v date routes ++ tail) (headed time rows [])
      (parts_of-join v (codes "HEADER") (codes "ROUTING_TABLE") route_columns
        (route_header-IsPlain v))
      (take_route_header time rows)
      (take_lines-append (route_lines v date routes) tail (routed time rows [])
        ∙ (ap (take_lines tail) (take_routes v date (routed time rows []) routes pr)
            ∙ (take_lines-append (stat_lines v stats) (end_lines in_file) (routed time rows [])
                ∙ (ap (take_lines (end_lines in_file)) (take_stats v time rows stats [] ps)
                    ∙ take_end (routed time rows (stats_of stats [])) in_file))))

-- A status of version 2 or 3 as OpenVPN prints it, as an answer or as a file, with texts free of the
-- separators, is read back: its clients with their fields and numbers, its statistics, the last value of
-- each name, and its time, or the clock for a time of zero. The rows of its routing table add no
-- client.
pub parse_status-print_status :
    (v : Version) (date : ℕ → Text) (clock : ℤ) (time : ℕ) (title : Text) (clients : List Client)
    (routes : List Route) (stats : List (Text × Text)) (in_file : Bool)
    → IsPlain v title
    → IsPlain v (date time)
    → All (IsPrintable v date) clients
    → All (IsRoutable v date) routes
    → All (λ s. IsPlain v s.0 × IsPlain v s.1) stats
    → parse_status clock (print_status v date time title clients routes stats in_file) ≡ record {
      time = time_or clock (some (pos time));
      clients = map row_of clients;
      stats = stats_of stats [];
    }
unfolding parse_status
parse_status-print_status v date clock time title clients routes stats in_file pt pd pc pr ps =
    let rest = client_lines v date clients ++ later_lines v date routes stats in_file in
    let header_line = join (separator v) (codes "HEADER" ∷ codes "CLIENT_LIST" ∷ columns) in
    let time_line = join (separator v) (codes "TIME" ∷ date time ∷ str_of time ∷ []) in
    ap
      (λ (st : Parsed). record {
        time = time_or clock st.server_time;
        clients = st.clients;
        stats = st.stats;
      })
      (take_line _ (time_line ∷ header_line ∷ rest) nothing_parsed
        (parts_of-join v (codes "TITLE") title [] ((tag-IsPlain v).0, (pt, tt))) (take_title title)
        (take_line _ (header_line ∷ rest) nothing_parsed
          (parts_of-join v (codes "TIME") (date time) (str_of time ∷ [])
            ((tag-IsPlain v).1, (pd, (number-IsPlain v time, tt))))
          (take_time time (date time))
          (take_line _ rest (record nothing_parsed { server_time = some (pos time) })
            (parts_of-join v (codes "HEADER") (codes "CLIENT_LIST") columns (header-IsPlain v))
            (take_header time)
            (take_lines-append (client_lines v date clients)
                (later_lines v date routes stats in_file) (headed time [] [])
              ∙ (ap (take_lines (later_lines v date routes stats in_file))
                    (take_clients v date time clients [] pc)
                  ∙ take_later v date time (map row_of clients) routes stats in_file pr ps)))))
