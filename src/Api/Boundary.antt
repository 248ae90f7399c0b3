-- ===== src/Api/Boundary.antt =====
-- ui/app/portal_boundary.py: the boundary that a gateway's header puts around the portal.
use openvpn_server.Base.{
  Bool, not, ◌&&◌, ◌||◌, List, Text, codes, text_eq, starts_with, any, if◌then◌else◌,
}

unfoldable pub portal_path : Text → Bool
portal_path path =
    (text_eq path (codes "/portal") || text_eq path (codes "/api/portal"))
    || (starts_with path (codes "/api/portal/") || starts_with path (codes "/static/"))

-- A request is handed to the application, or answered here.
pub data Passage : Type 0 where
  handed : Passage
  redirected : Text → Passage
  not_found : Passage

abbrev pub is_portal_only : Text × Text → Bool
is_portal_only (key, value) =
    text_eq key (codes "x-openvpn-portal-only") && text_eq value (codes "1")

-- `is_http` is of the scope's type; its headers are in lower case.
unfoldable pub boundary : Bool → List (Text × Text) → Text → Passage
boundary is_http headers path =
    if (is_http && any is_portal_only headers) && not (portal_path path)
    then (if text_eq path (codes "/") then redirected (codes "/portal") else not_found)
    else handed
