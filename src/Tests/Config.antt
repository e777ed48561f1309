-- ===== src/Tests/Config.antt =====
-- Diffs of small configuration drafts, a dnsmasq file, and the address of a backend.
use openvpn_control_server.Shared.{
  ◌≡◌, ◌≤◌, refl, List, [], ◌∷◌, String, join, split_on, trim, after_prefix, IsFree, arith,
}
use openvpn_control_server.ConfigDiff.{
  DiffLine, add, del, to_lines, line_diff_lcs, new_side, raw_config_from_server_settings_diff,
}
use openvpn_control_server.ConfigDiff.Script.{
  old_side, line_diff_lcs_sides, raw_config-line_diff_lcs,
}
use openvpn_control_server.ConfigDiff.Optimal.{same_count, line_diff_lcs_optimal}
use openvpn_control_server.Dnsmasq.{
  DnsRow, DnsRule, domain_resolver, forward, has_no_line_end, parse_dnsmasq_config_to_draft,
  build_dnsmasq_text_from_draft,
}
use openvpn_control_server.Dnsmasq.RoundTrip.{IsTold}
use openvpn_control_server.Dnsmasq.Text.{AllTold, renumber, build_dnsmasq_text-parse}
use openvpn_control_server.ApiConfig.{BrowserWindow}

abbrev old_draft : String
old_draft = "port 1194\nproto udp\n"

abbrev new_draft : String
new_draft = "proto udp\r\ndev tun\r\n"

-- All lines of the old draft go and all of the new one come.
abbrev rewritten : List DiffLine
rewritten = del "port 1194" ∷ del "proto udp" ∷ add "proto udp" ∷ add "dev tun" ∷ []

rewritten_old : old_side rewritten ≡ to_lines old_draft
unfolding old_side to_lines split_on
rewritten_old = refl

rewritten_new : new_side rewritten ≡ to_lines new_draft
unfolding new_side to_lines split_on
rewritten_new = refl

line_diff_lcs_optimal_example :
    same_count rewritten ≤ same_count (line_diff_lcs old_draft new_draft)
line_diff_lcs_optimal_example =
    line_diff_lcs_optimal old_draft new_draft rewritten rewritten_old rewritten_new

line_diff_lcs_sides_example :
    (old_side (line_diff_lcs old_draft new_draft) ≡ to_lines old_draft)
    × (new_side (line_diff_lcs old_draft new_draft) ≡ to_lines new_draft)
line_diff_lcs_sides_example = line_diff_lcs_sides old_draft new_draft

raw_config-line_diff_lcs_example :
    raw_config_from_server_settings_diff (line_diff_lcs old_draft new_draft)
    ≡ join "\n" (to_lines new_draft)
raw_config-line_diff_lcs_example = raw_config-line_diff_lcs old_draft new_draft

abbrev old_lines : List String
old_lines = "port 1194" ∷ "proto udp" ∷ []

abbrev new_lines : List String
new_lines = "proto udp" ∷ "dev tun" ∷ []

abbrev rule : DnsRule
rule = domain_resolver "corp.local" "10.8.0.1"

free : IsFree 47 "corp.local"
free = ground arith

rule-IsTold : IsTold rule
unfolding trim has_no_line_end
rule-IsTold = (((refl, refl), free), (refl, refl))

abbrev draft : List DnsRow
draft = record { id = "new-row"; rule = rule } ∷ record { id = "x"; rule = forward "1.1.1.1" } ∷ []

draft-AllTold : AllTold draft
unfolding trim has_no_line_end after_prefix
draft-AllTold = (rule-IsTold, (((refl, refl), refl), tt))

build_dnsmasq_text-parse_example :
    parse_dnsmasq_config_to_draft (build_dnsmasq_text_from_draft draft) ≡ renumber 1 draft
build_dnsmasq_text-parse_example = build_dnsmasq_text-parse draft draft-AllTold

abbrev window : BrowserWindow
window = record {
  data_api_url = " https://vpn.example/ ";
  app_config_api_url = "";
  origin = "https://panel.example";
}
