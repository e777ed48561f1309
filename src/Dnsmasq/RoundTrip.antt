-- ===== src/Dnsmasq/RoundTrip.antt =====
-- A rule of the dnsmasq file is read back from its line.
use openvpn_control_server.Shared.{
  ◌≡◌, ◌≢◌, refl, true, [], ◌∷◌, none, some, String, append, trim, IsFree, cut, cut-append,
  after_prefix, arith, eq_iff,
}
use openvpn_control_server.Dnsmasq.{
  DnsRule, domain_resolver, cache, ip_override, arbitrary_address, forward, hosts_file,
  listen_interface, other, is_dots, parse_line, line_of,
}

-- A value that a line can hold: it is not empty, is trimmed and is on one line.
abbrev pub IsValue : String → Type 0
IsValue s = (trim s ≡ s) × (is_dots s ≡ true)

-- A domain that a line can hold: it is also free of slashes.
abbrev pub IsDomain : String → Type 0
IsDomain s = IsValue s × IsFree 47 s

-- The rules that a line tells: the domain of an override is not the sign of all domains, a
-- forward's target does not begin with a slash, and the type is known.
abbrev pub IsTold : DnsRule → Type 0
IsTold (domain_resolver domain target_dns) = IsDomain domain × IsValue target_dns
IsTold (cache cache_size) = IsValue cache_size
IsTold (ip_override domain ip) = IsDomain domain × IsValue ip × (domain ≢ "#")
IsTold (arbitrary_address ip) = IsValue ip
IsTold (forward target_dns) = IsValue target_dns × (after_prefix "/" target_dns ≡ none)
IsTold (hosts_file path) = IsValue path
IsTold (listen_interface iface) = IsValue iface
IsTold (other type) = ⊥

-- The line of a rule that is told by one.
abbrev pub told_line : DnsRule → String
told_line (domain_resolver domain target_dns) =
    append "server=/" (append domain (append "/" target_dns))
told_line (cache cache_size) = append "cache-size=" cache_size
told_line (ip_override domain ip) = append "address=/" (append domain (append "/" ip))
told_line (arbitrary_address ip) = append "address=/#/" ip
told_line (forward target_dns) = append "server=" target_dns
told_line (hosts_file path) = append "addn-hosts=" path
told_line (listen_interface iface) = append "interface=" iface
told_line (other type) = ""

pub line_of-told : (r : DnsRule) → IsTold r → line_of r ≡ told_line r ∷ []
unfolding line_of
line_of-told (domain_resolver domain target_dns) h = ground arith
line_of-told (cache cache_size) h = ground arith
line_of-told (ip_override domain ip) h = ground arith
line_of-told (arbitrary_address ip) h = ground arith
line_of-told (forward target_dns) h = ground arith
line_of-told (hosts_file path) h = ground arith
line_of-told (listen_interface iface) h = ground arith
line_of-told (other type) h = absurd h

cut-pair : (a b : String) → IsFree 47 a → cut 47 (append a (append "/" b)) ≡ some (a, b)
cut-pair a b h = cut-append 47 a "/" b h refl

pub parse_line-told : (r : DnsRule) → IsTold r → parse_line (told_line r) ≡ some r
unfolding parse_line after_prefix
parse_line-told (domain_resolver domain target_dns) h =
    ground (arith, cut-pair domain target_dns h.0.1)
parse_line-told (cache cache_size) h = ground arith
parse_line-told (ip_override domain ip) h =
    ground (arith, cut-pair domain ip h.0.1, eq_iff domain "#")
parse_line-told (arbitrary_address ip) h = ground (arith, eq_iff "#" "#")
parse_line-told (forward target_dns) h = rw h.1 (ground arith)
parse_line-told (hosts_file path) h = ground arith
parse_line-told (listen_interface iface) h = ground arith
parse_line-told (other type) h = absurd h

-- The line written for a rule that a line can tell is read as that rule again.
pub line_of-parse_line :
    (r : DnsRule)
    → IsTold r
    → (line : String) × (line_of r ≡ line ∷ []) × (parse_line line ≡ some r)
line_of-parse_line r h = (told_line r, line_of-told r h, parse_line-told r h)
