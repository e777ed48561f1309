-- ===== src/Dnsmasq.antt =====
-- The rules of a node's dnsmasq file: `parseDnsmasqConfigToDraft` and `buildDnsmasqTextFromDraft`
-- of frontend/src/App.tsx. A regular expression of the source is the test that it stands for.
pub mod RoundTrip
pub mod Text
use openvpn_control_server.Shared.{
  ℕ, suc, Bool, true, false, ◌&&◌, ◌||◌, not, List, [], ◌∷◌, ◌++◌, Option, none, some, String, code,
  ◌==◌, append, map, trim, is_empty, nonempty_only, join, split_on, cut, after_prefix, decimal, eqb,
  if◌then◌else◌,
}
use openvpn_control_server.ConfigDiff.{replace_crlf}

-- A rule of the draft by its type; `other` is a rule of no type that the panel knows.
pub data DnsRule : Type 0 where
  domain_resolver : (domain target_dns : String) → DnsRule
  cache : (cache_size : String) → DnsRule
  ip_override : (domain ip : String) → DnsRule
  arbitrary_address : (ip : String) → DnsRule
  forward : (target_dns : String) → DnsRule
  hosts_file : (path : String) → DnsRule
  listen_interface : (iface : String) → DnsRule
  other : (type : String) → DnsRule

pub record DnsRow : Type 0 where
  pub id : String
  pub rule : DnsRule

-- No character that a `.` of a regular expression does not match.
unfoldable pub has_no_line_end : String → Bool
has_no_line_end String.[] = true
has_no_line_end (String.◌∷◌ c s) =
    let rest = has_no_line_end s in
    if eqb (code c) 10 || eqb (code c) 13 || eqb (code c) 0x2028 || eqb (code c) 0x2029
    then false
    else rest

-- `.+` matches the whole text.
abbrev pub is_dots : String → Bool
is_dots s = not (is_empty s) && has_no_line_end s

-- `^p(.+)$`
abbrev dots_after : String → String → Option String
dots_after p line = elim (after_prefix p line) [
  | none ↦ none
  | some s ↦ if is_dots s then some s else none
]

-- `^p([^/]+)\/(.+)$`
abbrev pair_after : String → String → Option (String × String)
pair_after p line = elim (after_prefix p line) [
  | none ↦ none
  | some s ↦ elim (cut 47 s) [
    | none ↦ none
    | some (a, b) ↦ if not (is_empty a) && is_dots b then some (a, b) else none
  ]
]

abbrev address_rule : String → String → DnsRule
address_rule a b = if a == "#" then arbitrary_address b else ip_override a b

-- `^(?:addn-hosts|hosts-file)=(.+)$`
abbrev hosts_after : String → Option String
hosts_after line = elim (dots_after "addn-hosts=" line) [
  | some s ↦ some s
  | none ↦ dots_after "hosts-file=" line
]

-- The tests of a line in the order of the source.
unfoldable pub parse_line : String → Option DnsRule
unfolding cut after_prefix has_no_line_end
parse_line line = elim (pair_after "server=/" line) [
  | some (a, b) ↦ some (domain_resolver a b)
  | none ↦ elim (dots_after "cache-size=" line) [
    | some s ↦ some (cache s)
    | none ↦ elim (pair_after "address=/" line) [
      | some (a, b) ↦ some (address_rule a b)
      | none ↦ elim (dots_after "server=" line) [
        | some s ↦ some (forward s)
        | none ↦ elim (hosts_after line) [
          | some s ↦ some (hosts_file s)
          | none ↦ elim (dots_after "interface=" line) [
            | some s ↦ some (listen_interface s)
            | none ↦ none
          ]
        ]
      ]
    ]
  ]
]

-- The loop over the lines; `seq` numbers the rules.
unfoldable pub parse_lines : ℕ → List String → List DnsRow
unfolding decimal
parse_lines seq [] = []
parse_lines seq (line ∷ lines) = elim (parse_line line) [
  | none ↦ parse_lines seq lines
  | some r ↦ record { id = append "dns-" (decimal seq); rule = r } ∷ parse_lines (suc seq) lines
]

unfoldable pub parse_dnsmasq_config_to_draft : String → List DnsRow
unfolding replace_crlf split_on trim
parse_dnsmasq_config_to_draft raw =
    parse_lines 1 (nonempty_only (map trim (split_on 10 (replace_crlf raw))))

abbrev line_when : String → String → List String
line_when s line = if is_empty s then [] else line ∷ []

abbrev line_when_both : String → String → String → List String
line_when_both s t line = if is_empty s || is_empty t then [] else line ∷ []

-- The line of a rule, and none where a part of it is empty.
unfoldable pub line_of : DnsRule → List String
unfolding trim
line_of (domain_resolver domain target_dns) =
    line_when_both (trim domain) (trim target_dns)
      (append "server=/" (append (trim domain) (append "/" (trim target_dns))))
line_of (cache cache_size) = line_when (trim cache_size) (append "cache-size=" (trim cache_size))
line_of (ip_override domain ip) =
    line_when_both (trim domain) (trim ip)
      (append "address=/" (append (trim domain) (append "/" (trim ip))))
line_of (arbitrary_address ip) = line_when (trim ip) (append "address=/#/" (trim ip))
line_of (forward target_dns) = line_when (trim target_dns) (append "server=" (trim target_dns))
line_of (hosts_file path) = line_when (trim path) (append "addn-hosts=" (trim path))
line_of (listen_interface iface) = line_when (trim iface) (append "interface=" (trim iface))
line_of (other type) = []

unfoldable pub lines_of : List DnsRow → List String
lines_of [] = []
lines_of (row ∷ rows) = line_of row.rule ++ lines_of rows

unfoldable pub build_dnsmasq_text_from_draft : List DnsRow → String
unfolding lines_of join
build_dnsmasq_text_from_draft draft = join "\n" (lines_of draft)
