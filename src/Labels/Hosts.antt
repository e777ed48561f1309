-- ===== src/Labels/Hosts.antt =====
-- Hosts and names: `remoteAddrHostOnlyDisplay`, `normalizeIfaceLikeOpenvpnDev`, `parseHostFromAddr`
-- and `avatarInitials` of frontend/src/App.tsx.
pub mod Laws
use openvpn_control_server.Shared.{
  ℕ, suc, zero, Bool, true, false, ◌&&◌, ◌||◌, not, List, [], ◌∷◌, Option, none, some, String, Char,
  code, append, ◌==◌, is_empty, trim, cut, split_on, after_prefix, eqb, leb, length, if◌then◌else◌,
}

abbrev pub is_digit : Char → Bool
is_digit c = leb 48 (code c) && leb (code c) 57

abbrev pub all_digits : String → Bool
all_digits String.[] = true
all_digits (String.◌∷◌ c s) = is_digit c && all_digits s

abbrev text_length : String → ℕ
text_length String.[] = 0
text_length (String.◌∷◌ c s) = suc (text_length s)

-- `/^\d{1,5}$/`, and `/^\d+$/`.
abbrev pub is_port : String → Bool
is_port s = not (is_empty s) && all_digits s && leb (text_length s) 5

abbrev pub is_digits : String → Bool
is_digits s = not (is_empty s) && all_digits s

-- The texts before and after the last character of that code, where there is one.
unfoldable pub cut_last : ℕ → String → Option (String × String)
cut_last x String.[] = none
cut_last x (String.◌∷◌ c s) =
    let rest = cut_last x s in
    elim rest [
      | none ↦ if eqb (code c) x then some ("", s) else none
      | some (a, b) ↦ some (String.◌∷◌ c a, b)
    ]

-- `s.includes(".")`
abbrev pub has_dot : String → Bool
has_dot String.[] = false
has_dot (String.◌∷◌ c s) = eqb (code c) 46 || has_dot s

-- `s.slice(1, s.indexOf("]"))` where `s` begins with "[" and that index is greater than 1.
abbrev pub nonempty_host : Option (String × String) → Option String
nonempty_host none = none
nonempty_host (some (a, b)) = if is_empty a then none else some a

unfoldable pub in_brackets : Option String → Option String
unfolding cut
in_brackets none = none
in_brackets (some s) = nonempty_host (cut 93 s)

-- The host before a port of one to five digits, where it has a dot.
abbrev pub before_port : Option (String × String) → String → String
before_port none s = s
before_port (some (host, tail)) s = if is_port tail && has_dot host then host else s

abbrev pub shown : Option String → String → String
shown (some host) s = host
shown none s = before_port (cut_last 58 s) s

-- The rest, for a text without white space around it.
unfoldable pub host_of : String → String
unfolding in_brackets cut_last after_prefix
host_of s = shown (in_brackets (after_prefix "[" s)) s

unfoldable pub remote_addr_host_only_display : String → String
unfolding trim host_of
remote_addr_host_only_display addr = host_of (trim addr)

unfoldable pub normalize_iface_like_openvpn_dev : (String → String) → String → String
unfolding trim
normalize_iface_like_openvpn_dev to_lower raw =
    let s = trim raw in
    if is_empty s
    then ""
    else if to_lower s == "tun"
    then "tun0"
    else if to_lower s == "tap"
    then "tap0"
    else s
